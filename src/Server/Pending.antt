-- ===== src/Server/Pending.antt =====
-- The pending bytes of a session, over the calls of a server on it (src/server/session.rs).
use thrussh_fork.Base.{
  ℕ, ◌≡◌, false, Option, none, some, List, [], ◌∷◌, ◌++◌, ok, err, inconsistent,
}
use thrussh_fork.Base.Every.{Every, Every-ok, Every-if, Every-bind, Every-map}
use thrussh_fork.Protocol.Msg
use thrussh_fork.Protocol.Names.{failure_code}
use thrussh_fork.Wire.{Encoding}
use thrussh_fork.Session.State.{Encrypted, CommonSession}
use thrussh_fork.Session.Channels.{byte}
use thrussh_fork.Session.Data.{send, send_extended}
use thrussh_fork.Server.Senders.{
  forwarded_packet, push, request_success, request_anyhow, channel_success, channel_anyhow,
  channel_open_anyhow, close, eof_channel, data_on, extended_data_on, xon_xoff_request,
  exit_status_request, exit_signal_request, open_in_state, channel_open_forwarded_tcpip,
}
use thrussh_fork.Server.Commands.{
  Command, do_request_success, do_request_anyhow, do_channel_success, do_channel_anyhow,
  do_channel_open_anyhow, do_close, do_eof, do_data, do_extended_data, do_xon_xoff_request,
  do_exit_status_request, do_exit_signal_request, do_open_forwarded_tcpip, run, run_all, IsFramed,
}
use thrussh_fork.Server.Whole.{
  push-Whole, encrypted_calls, confirmed_calls, reply_to-Whole, byte-Whole, send_data-Whole,
  keyed_calls, open-IsFramed, first-IsFramed,
}

module _ ⦃e : Encoding⦄ where
  -- The reply of one byte to a global request, where there are keys.
  replied-IsFramed :
      (msg : ℕ) (s : CommonSession) (o : Option Encrypted)
      → IsFramed s.encrypted
      → IsFramed o
      → Every
          (λ (s' : CommonSession). IsFramed s'.encrypted)
          (elim o [
            | none ↦ ok s
            | some enc ↦
                ok (record s { wants_reply = false; encrypted = some (push enc (msg ∷ [])) })
          ])
  replied-IsFramed msg s none h k = h
  replied-IsFramed msg s (some enc) h k = push-Whole enc.write _ k

  run-IsFramed :
      (cmd : Command) (s : CommonSession)
      → IsFramed s.encrypted
      → Every (λ (s' : CommonSession). IsFramed s'.encrypted) (run cmd s)
  unfolding run request_success request_anyhow channel_success channel_anyhow channel_open_anyhow
      close eof_channel data_on extended_data_on xon_xoff_request exit_status_request
      exit_signal_request send send_extended channel_open_forwarded_tcpip
  run-IsFramed do_request_success s h =
      Every-if (λ (s' : CommonSession). IsFramed s'.encrypted) s.wants_reply _ _
        (λ t. replied-IsFramed 81 s s.encrypted h h) (λ f. h)
  run-IsFramed do_request_anyhow s h = replied-IsFramed 82 s s.encrypted h h
  run-IsFramed (do_channel_success id) s h =
      encrypted_calls s _ h
        (λ enc w. confirmed_calls enc id _ w (λ ch. reply_to-Whole 99 enc id ch w))
  run-IsFramed (do_channel_anyhow id) s h =
      encrypted_calls s _ h
        (λ enc w. confirmed_calls enc id _ w (λ ch. reply_to-Whole 100 enc id ch w))
  run-IsFramed (do_channel_open_anyhow id reason d l) s h =
      encrypted_calls s
        (λ enc. ok (
          push enc (
            Msg.channel_open_failure
            ∷ (e.u32_be id
                ++ (e.u32_be (failure_code reason) ++ (e.ssh_string d ++ e.ssh_string l))))))
        h (λ enc w. push-Whole enc.write _ w)
  run-IsFramed (do_close id) s h =
      encrypted_calls s (λ enc. ok (byte enc id Msg.channel_close)) h
        (λ enc w. byte-Whole enc id Msg.channel_close w)
  run-IsFramed (do_eof id) s h =
      encrypted_calls s (λ enc. ok (byte enc id Msg.channel_eof)) h
        (λ enc w. byte-Whole enc id Msg.channel_eof w)
  run-IsFramed (do_data id buf) s h =
      first-IsFramed _ (keyed_calls s _ h (λ enc w. send_data-Whole _ enc id _ buf w))
  run-IsFramed (do_extended_data id ext buf) s h =
      first-IsFramed _ (keyed_calls s _ h (λ enc w. send_data-Whole _ enc id _ buf w))
  run-IsFramed (do_xon_xoff_request id b) s h =
      encrypted_calls s _ h (λ enc w. confirmed_calls enc id _ w (λ ch. push-Whole enc.write _ w))
  run-IsFramed (do_exit_status_request id n) s h =
      encrypted_calls s _ h (λ enc w. confirmed_calls enc id _ w (λ ch. push-Whole enc.write _ w))
  run-IsFramed (do_exit_signal_request id signal b m l) s h =
      encrypted_calls s _ h (λ enc w. confirmed_calls enc id _ w (λ ch. push-Whole enc.write _ w))
  run-IsFramed (do_open_forwarded_tcpip w m a p o q) s h = first-IsFramed _ (at s.encrypted h)
    where
      at :
          (x : Option Encrypted)
          → IsFramed x
          → Every
              (λ (r : CommonSession × ℕ). IsFramed r.0.encrypted)
              (elim x [
                | none ↦ err inconsistent
                | some enc ↦
                    open_in_state enc.state s enc w m (λ id. forwarded_packet id w m a p o q)
              ])
      at none k = tt
      at (some enc) k = open-IsFramed enc.state s enc w m _ k

  run_all-Every :
      (cmds : List Command) (s : CommonSession)
      → IsFramed s.encrypted
      → Every (λ (s' : CommonSession). IsFramed s'.encrypted) (run_all cmds s)
  unfolding run_all
  run_all-Every [] s h = h
  run_all-Every (cmd ∷ cmds) s h =
      Every-bind Framed (run cmd s) _
        (Every-map Framed _ (run cmd s) (λ s' k. run_all-Every cmds s' k) (run-IsFramed cmd s h))
    where
      Framed : CommonSession → Type 0
      Framed s' = IsFramed s'.encrypted

  -- From a session whose pending bytes, if it has keys, are the frames of some packets, every
  -- sequence of the calls by which a server replies, sends data, makes requests, and opens and
  -- closes channels leads, where it succeeds, to a session of which the same is true.
  pub run_all-IsFramed :
      (cmds : List Command) (s s' : CommonSession)
      → IsFramed s.encrypted
      → run_all cmds s ≡ ok s'
      → IsFramed s'.encrypted
  run_all-IsFramed cmds s s' h done =
      Every-ok (λ (x : CommonSession). IsFramed x.encrypted) (run_all cmds s) done
        (run_all-Every cmds s h)
