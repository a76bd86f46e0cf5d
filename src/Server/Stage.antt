-- ===== src/Server/Stage.antt =====
-- What the calls of src/server/session.rs leave as it was: how far the client is with its
-- authentication, and the name of its user.
pub mod Rounds
use mathlib.Core.Path.{sym}
use thrussh_fork.Base.{
  ℕ, ◌≡◌, refl, ap, ◌∙◌, Bool, true, false, Option, none, some, List, [], ◌∷◌, ◌++◌, Bytes, length,
  drop, leb, ◌==◌, if◌then◌else◌, Outcome, ok, err, foreign, panic, stuck, ◌>>=◌, ◌>>◌, assert,
  arith,
}
use thrussh_fork.Base.Assoc.{lookup, insert}
use thrussh_fork.Base.Every.{Every, Every-bind, Every-then, Every-if, Every-map}
use thrussh_fork.Protocol.Msg
use thrussh_fork.Protocol.Names.{
  ChannelMsg, data_msg, extended_data_msg, eof, xon_xoff, exit_status, exit_signal,
}
use thrussh_fork.Wire.{Encoding}
use thrussh_fork.Cipher.Keys.{Sodium, CipherPair}
use thrussh_fork.Cipher.Packet.{SshBuffer}
use thrussh_fork.Session.State.{
  Channel, Encrypted, EncryptedState, CommonSession, Exchange, Limits, initiate_rekey,
}
use thrussh_fork.Session.Channels.{byte}
use thrussh_fork.Session.Data.{clip, send_loop, transmit, send_data, send, send_extended}
use thrussh_fork.Session.Flush.{Flushed, flush_loop, finish_flush, flush}
use thrussh_fork.Server.Kex.{KexConfig, server_write}
use thrussh_fork.Server.Flush.{start_rekey, flush_encrypted, server_flush}
use thrussh_fork.Server.Senders.{
  with_encrypted, with_keys, with_confirmed, data_on, extended_data_on, eof_channel,
  xon_xoff_request, exit_status_request, exit_signal_request,
}
use thrussh_fork.Server.Loop.{on_message, drain, drain_extended}

-- Where a client is with its authentication, once there are keys.
abbrev pub state_of : Option Encrypted → Option EncryptedState
state_of none = none
state_of (some enc) = some enc.state

abbrev pub Kept : CommonSession → CommonSession → Type 0
Kept s s' = (state_of s'.encrypted ≡ state_of s.encrypted) × (s'.auth_user ≡ s.auth_user)

abbrev pub Same : Encrypted → Encrypted → Type 0
Same enc enc' = enc'.state ≡ enc.state

pub Kept-trans : (s t u : CommonSession) → Kept s t → Kept t u → Kept s u
Kept-trans s t u (p, q) (p', q') = (p' ∙ p, q' ∙ q)

pub stored :
    (s : CommonSession) (enc enc' : Encrypted)
    → s.encrypted ≡ some enc
    → enc'.state ≡ enc.state
    → some enc'.state ≡ state_of s.encrypted
stored s enc enc' eq same = ap (λ (x : EncryptedState). some x) same ∙ sym (ap state_of eq)

with_encrypted-Kept :
    (s : CommonSession) (f : Encrypted → Outcome Encrypted)
    → ((enc : Encrypted) → Every (Same enc) (f enc))
    → Every (Kept s) (with_encrypted s f)
with_encrypted-Kept s f h = at s.encrypted refl
  where
    at :
        (o : Option Encrypted)
        → s.encrypted ≡ o
        → Every (Kept s) (elim o [
          | none ↦ ok s
          | some enc ↦ f enc >>= λ enc'. ok (record s { encrypted = some enc' })
        ])
    at none eq = (refl, refl)
    at (some enc) eq =
        Every-bind (Kept s) (f enc) _
          (Every-map (Same enc) _ (f enc) (λ enc' same. (stored s enc enc' eq same, refl)) (h enc))

with_keys-Kept :
    (s : CommonSession) (f : Encrypted → Outcome (Encrypted × ℕ))
    → ((enc : Encrypted) → Every (λ (r : Encrypted × ℕ). Same enc r.0) (f enc))
    → Every (λ (r : CommonSession × ℕ). Kept s r.0) (with_keys s f)
with_keys-Kept s f h = at s.encrypted refl
  where
    at :
        (o : Option Encrypted)
        → s.encrypted ≡ o
        → Every
            (λ (r : CommonSession × ℕ). Kept s r.0)
            (elim o [
              | none ↦ panic
              | some enc ↦ f enc >>= λ r. ok (record s { encrypted = some r.0 }, r.1)
            ])
    at none eq = tt
    at (some enc) eq =
        Every-bind (λ (r : CommonSession × ℕ). Kept s r.0) (f enc) _
          (Every-map (λ (r : Encrypted × ℕ). Same enc r.0) _ (f enc)
            (λ r same. (stored s enc r.0 eq same, refl)) (h enc))

with_confirmed-Same :
    (enc : Encrypted) (id : ℕ) (f : Channel → Encrypted)
    → ((ch : Channel) → Same enc (f ch))
    → Every (Same enc) (with_confirmed enc id f)
with_confirmed-Same enc id f h = at (lookup id enc.channels)
  where
    asserted : (b : Bool) (ch : Channel) → Every (Same enc) (assert b >> ok (f ch))
    asserted true ch = h ch
    asserted false ch = tt

    at :
        (o : Option Channel)
        → Every (Same enc) (elim o [ none ↦ ok enc | some ch ↦ assert ch.confirmed >> ok (f ch) ])
    at none = refl
    at (some ch) = asserted ch.confirmed ch

module _ ⦃e : Encoding⦄ where
  byte-Same : (enc : Encrypted) (id msg : ℕ) → Same enc (byte enc id msg)
  unfolding byte
  byte-Same enc id msg = at (lookup id enc.channels) refl
    where
      at : (o : Option Channel) → lookup id enc.channels ≡ o → Same enc (byte enc id msg)
      at none eq = rw (eq, byte) refl
      at (some ch) eq = rw (eq, byte) refl

  send_data-Same :
      (fuel : ℕ) (enc : Encrypted) (id : ℕ) (header : Channel → Bytes) (buf : Bytes)
      → Every (λ (r : Encrypted × ℕ). Same enc r.0) (send_data fuel enc id header buf)
  unfolding send_data transmit
  send_data-Same fuel enc id header buf = at (lookup id enc.channels)
    where
      P : Encrypted × ℕ → Type 0
      P r = Same enc r.0

      asserted :
          (b : Bool) (ch : Channel) → Every P (assert b >> transmit fuel enc id header buf ch)
      asserted true ch =
          Every-then P
            (send_loop fuel (header ch) ch.recipient_maximum_packet_size
              (clip buf ch.recipient_window_size) ch.recipient_window_size enc.write)
            (λ r. ok (
              record enc {
                channels = insert id (record ch { recipient_window_size = r.0 }) enc.channels;
                write = r.1;
              },
              length (clip buf ch.recipient_window_size),
            ))
            (λ r. refl)
      asserted false ch = tt

      at :
          (o : Option Channel)
          → Every P (elim o [
            | none ↦ ok (enc, 0)
            | some ch ↦ assert ch.confirmed >> transmit fuel enc id header buf ch
          ])
      at none = refl
      at (some ch) = asserted ch.confirmed ch

  pub data_on-Kept :
      (s : CommonSession) (id : ℕ) (buf : Bytes)
      → Every (λ (r : CommonSession × ℕ). Kept s r.0) (data_on s id buf)
  unfolding data_on send
  data_on-Kept s id buf = with_keys-Kept s _ (λ enc. send_data-Same _ enc id _ buf)

  pub extended_data_on-Kept :
      (s : CommonSession) (id ext : ℕ) (buf : Bytes)
      → Every (λ (r : CommonSession × ℕ). Kept s r.0) (extended_data_on s id ext buf)
  unfolding extended_data_on send_extended
  extended_data_on-Kept s id ext buf = with_keys-Kept s _ (λ enc. send_data-Same _ enc id _ buf)

  pub on_message-Kept :
      (m : Option (ℕ × ChannelMsg)) (s : CommonSession) → Every (Kept s) (on_message m s)
  unfolding on_message eof_channel xon_xoff_request exit_status_request exit_signal_request
  on_message-Kept none s = (refl, refl)
  on_message-Kept (some (id, data_msg given)) s = (refl, refl)
  on_message-Kept (some (id, extended_data_msg given ext)) s = (refl, refl)
  on_message-Kept (some (id, eof)) s =
      with_encrypted-Kept s (λ enc. ok (byte enc id Msg.channel_eof))
        (λ enc. byte-Same enc id Msg.channel_eof)
  on_message-Kept (some (id, xon_xoff b)) s =
      with_encrypted-Kept s _ (λ enc. with_confirmed-Same enc id _ (λ ch. refl))
  on_message-Kept (some (id, exit_status n)) s =
      with_encrypted-Kept s _ (λ enc. with_confirmed-Same enc id _ (λ ch. refl))
  on_message-Kept (some (id, exit_signal sig b m l)) s =
      with_encrypted-Kept s _ (λ enc. with_confirmed-Same enc id _ (λ ch. refl))
