-- ===== src/Negotiation/ReadKex.antt =====
-- `read_kex` and `write_kex` of src/negotiation.rs.
use thrussh_fork.Base.{
  Bool, not, ◌&&◌, Option, List, [], ◌∷◌, ◌++◌, Bytes, codes, ◌==◌, Outcome, ok, ◌>>=◌, ok_or,
  try_foreign, no_common_kex_algo, no_common_key_algo, no_common_cipher, drop,
}
use mathlib.Core.Option
use thrussh_fork.Protocol.Msg
use thrussh_fork.Wire.{Encoding}

pub record Names : Type 0 where
  pub kex : Bytes
  pub key : Bytes
  pub cipher : Bytes
  pub mac : Option Bytes
  pub ignore_guessed : Bool

pub record Preferred : Type 0 where
  pub kex : List Bytes
  pub key : List Bytes
  pub cipher : List Bytes
  pub mac : List Bytes
  pub compression : List Bytes

abbrev pub curve25519 : Bytes
curve25519 = codes "curve25519-sha256@libssh.org"

abbrev pub chacha20_poly1305 : Bytes
chacha20_poly1305 = codes "chacha20-poly1305@openssh.com"

-- `DEFAULT`; the three key names are constants of thrussh-keys.
unfoldable pub default : List Bytes → Preferred
default key_names = record {
  kex = curve25519 ∷ [];
  key = key_names;
  cipher = chacha20_poly1305 ∷ [];
  mac = codes "none" ∷ [];
  compression = codes "none" ∷ [];
}

-- `Select::select`, of either side.
abbrev pub Select : Type 0
Select = List Bytes → Bytes → Option (Bool × Bytes)

module _ ⦃e : Encoding⦄ where
  -- The part of `read_kex` after the lists: what is left is read as the byte `follows`.
  unfoldable pub finish_kex :
      (Bool × Bytes)
      → (Bool × Bytes)
      → (Bool × Bytes)
      → Option (Bool × Bytes)
      → Bytes
      → Outcome Names
  finish_kex kex' key' cipher' mac' r = do
    (follows, r') ← try_foreign (e.read_byte r)
    ok (record {
      kex = kex'.1;
      key = key'.1;
      cipher = cipher'.1;
      mac = Option.map (λ (m : Bool × Bytes). m.1) mac';
      ignore_guessed = not (follows == 0) && not (kex'.0 && key'.0);
    })

  -- `buffer.reader(17)` skips the message number and the cookie. A name list is read and used, or
  -- read and dropped.
  unfoldable pub read_kex : Select → Bytes → Preferred → Outcome Names
  unfolding finish_kex
  read_kex select buffer pref = do
    (kex_string, r1) ← try_foreign (e.read_string (drop 17 buffer))
    kex' ← ok_or (select pref.kex kex_string) no_common_kex_algo
    (key_string, r2) ← try_foreign (e.read_string r1)
    key' ← ok_or (select pref.key key_string) no_common_key_algo
    (cipher_string, r3) ← try_foreign (e.read_string r2)
    cipher' ← ok_or (select pref.cipher cipher_string) no_common_cipher
    (skip4, r4) ← try_foreign (e.read_string r3)
    (mac_string, r5) ← try_foreign (e.read_string r4)
    (skip6, r6) ← try_foreign (e.read_string r5)
    (skip7, r7) ← try_foreign (e.read_string r6)
    (skip8, r8) ← try_foreign (e.read_string r7)
    (skip9, r9) ← try_foreign (e.read_string r8)
    finish_kex kex' key' cipher' (select pref.mac mac_string) r9

  -- What `write_kex` appends to its buffer, for the 16 random bytes of the cookie.
  unfoldable pub write_kex : Bytes → Preferred → Bytes → Bytes
  write_kex cookie prefs buf =
      buf
      ++ ((Msg.kexinit ∷ cookie)
          ++ (e.name_list prefs.kex
              ++ (e.name_list prefs.key
                  ++ (e.name_list prefs.cipher
                      ++ (e.name_list prefs.cipher
                          ++ (e.name_list prefs.mac
                              ++ (e.name_list prefs.mac
                                  ++ (e.name_list prefs.compression
                                      ++ (e.name_list prefs.compression
                                          ++ (e.empty_list
                                              ++ (e.empty_list
                                                  ++ (0 ∷ 0 ∷ 0 ∷ 0 ∷ 0 ∷ []))))))))))))
