-- ===== src/Server/Defaults.antt =====
-- The methods that the trait `Handler` of src/server/mod.rs has unless the application writes its
-- own. What `finished_auth`, `finished_bool` and `finished` make of a value is that value.
use thrussh_fork.Base.{false, some}
use thrussh_fork.Server.Login.{reject, Handler}
use thrussh_fork.Server.Channels.Events.{ChannelHandler}

-- Every request to authenticate is rejected.
abbrev pub default_login : {Key H : Type 0} → Handler Key H
default_login = record {
  auth_password = λ h user password. some (h, reject);
  auth_publickey = λ h user key. some (h, reject);
  auth_keyboard_interactive = λ h user submethods response. some (h, reject);
}

-- What a client does on its channels changes nothing, and no port is forwarded.
abbrev pub default_channels : {H : Type 0} → ChannelHandler H
default_channels = record {
  call = λ ev h s. some (h, s);
  forward = λ asked h s. some (h, s, false);
}
