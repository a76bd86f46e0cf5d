-- ===== src/Server/Whole.antt =====
-- The pending bytes of a session, over each kind of call (src/server/session.rs).
use thrussh_fork.Base.{
  ℕ, zero, suc, ◌+◌, ◌≡◌, refl, ◌∙◌, Bool, true, false, Option, none, some, [], ◌∷◌, ◌++◌, Bytes,
  length, Outcome, ok, panic, ◌>>=◌, ◌>>◌, assert,
}
use thrussh_fork.Base.Every.{Every, Every-bind, Every-map}
use thrussh_fork.Base.Assoc.{lookup}
use thrussh_fork.Wire.{Encoding, push_packet}
use thrussh_fork.Wire.Frames.{push_packet-frames}
use thrussh_fork.Session.State.{
  Channel, Encrypted, EncryptedState, waiting_service_request, waiting_auth_request, authenticated,
  CommonSession,
}
use thrussh_fork.Session.Channels.{byte, new_channel, vacant_id}
use thrussh_fork.Session.Data.{send_loop, transmit, send_data, clip}
use thrussh_fork.Server.Senders.{with_encrypted, with_keys, with_confirmed, reply_to, open_in_state}
use thrussh_fork.Server.Commands.{Whole, IsFramed}

module _ ⦃e : Encoding⦄ where
  pub push-Whole : (write packet : Bytes) → Whole write → Whole (push_packet write packet)
  push-Whole write packet (ps, h) = (ps ++ (packet ∷ []), rw h (push_packet-frames ps packet))

  pub assert-Every :
      {A : Type 0} (P : A → Type 0) (b : Bool) (m : Outcome A) → Every P m → Every P (assert b >> m)
  assert-Every P true m h = h
  assert-Every P false m h = tt

  pub encrypted_calls :
      (s : CommonSession) (f : Encrypted → Outcome Encrypted)
      → IsFramed s.encrypted
      → ((enc : Encrypted)
          → Whole enc.write
          → Every (λ (enc' : Encrypted). Whole enc'.write) (f enc))
      → Every (λ (s' : CommonSession). IsFramed s'.encrypted) (with_encrypted s f)
  encrypted_calls s f hs hf = at s.encrypted hs
    where
      at :
          (o : Option Encrypted)
          → IsFramed o
          → Every
              (λ (s' : CommonSession). IsFramed s'.encrypted)
              (elim o [
                | none ↦ ok s
                | some enc ↦ f enc >>= λ enc'. ok (record s { encrypted = some enc' })
              ])
      at none h = hs
      at (some enc) h =
          Every-bind (λ (s' : CommonSession). IsFramed s'.encrypted) (f enc) _ (hf enc h)

  pub confirmed_calls :
      (enc : Encrypted) (id : ℕ) (f : Channel → Encrypted)
      → Whole enc.write
      → ((ch : Channel) → Whole (f ch).write)
      → Every (λ (enc' : Encrypted). Whole enc'.write) (with_confirmed enc id f)
  confirmed_calls enc id f h hf = at (lookup id enc.channels)
    where
      at :
          (o : Option Channel)
          → Every
              (λ (enc' : Encrypted). Whole enc'.write)
              (elim o [ none ↦ ok enc | some ch ↦ assert ch.confirmed >> ok (f ch) ])
      at none = h
      at (some ch) =
          assert-Every (λ (enc' : Encrypted). Whole enc'.write) ch.confirmed (ok (f ch)) (hf ch)

  pub reply_to-Whole :
      (msg : ℕ) (enc : Encrypted) (id : ℕ) (ch : Channel)
      → Whole enc.write
      → Whole (reply_to msg enc id ch).write
  unfolding reply_to
  reply_to-Whole msg enc id ch h = at ch.wants_reply refl
    where
      at : (b : Bool) → ch.wants_reply ≡ b → Whole (reply_to msg enc id ch).write
      at true eq = rw (eq, reply_to) (push-Whole enc.write _ h)
      at false eq = rw (eq, reply_to) h

  pub byte-Whole : (enc : Encrypted) (id msg : ℕ) → Whole enc.write → Whole (byte enc id msg).write
  unfolding byte
  byte-Whole enc id msg h = at (lookup id enc.channels) refl
    where
      at : (o : Option Channel) → lookup id enc.channels ≡ o → Whole (byte enc id msg).write
      at none eq = rw (eq, byte) h
      at (some ch) eq = rw (eq, byte) (push-Whole enc.write _ h)

  pub send_loop-Whole :
      (fuel : ℕ) (header : Bytes) (maxpacket : ℕ) (buf : Bytes) (window : ℕ) (write : Bytes)
      → Whole write
      → Every (λ r. Whole r.1) (send_loop fuel header maxpacket buf window write)
  unfolding send_loop
  send_loop-Whole fuel header maxpacket [] window write h = h
  send_loop-Whole zero header maxpacket (b ∷ bs) window write h = tt
  send_loop-Whole (suc fuel) header maxpacket (b ∷ bs) window write h =
      send_loop-Whole fuel header maxpacket _ _ _ (push-Whole write _ h)

  pub send_data-Whole :
      (fuel : ℕ) (enc : Encrypted) (id : ℕ) (header : Channel → Bytes) (buf : Bytes)
      → Whole enc.write
      → Every (λ r. Whole r.0.write) (send_data fuel enc id header buf)
  unfolding send_data transmit
  send_data-Whole fuel enc id header buf h = at (lookup id enc.channels)
    where
      at :
          (o : Option Channel)
          → Every
              (λ (r : Encrypted × ℕ). Whole r.0.write)
              (elim o [
                | none ↦ ok (enc, 0)
                | some ch ↦ assert ch.confirmed >> transmit fuel enc id header buf ch
              ])
      at none = h
      at (some ch) =
          assert-Every (λ (r : Encrypted × ℕ). Whole r.0.write) ch.confirmed
            (transmit fuel enc id header buf ch)
            (Every-bind (λ (r : Encrypted × ℕ). Whole r.0.write)
              (send_loop fuel (header ch) _ (clip buf ch.recipient_window_size) _ enc.write) _
              (send_loop-Whole fuel (header ch) _ (clip buf ch.recipient_window_size) _ enc.write
                h))

  pub keyed_calls :
      (s : CommonSession) (f : Encrypted → Outcome (Encrypted × ℕ))
      → IsFramed s.encrypted
      → ((enc : Encrypted)
          → Whole enc.write
          → Every (λ (r : Encrypted × ℕ). Whole r.0.write) (f enc))
      → Every (λ (r : CommonSession × ℕ). IsFramed r.0.encrypted) (with_keys s f)
  keyed_calls s f hs hf = at s.encrypted hs
    where
      at :
          (o : Option Encrypted)
          → IsFramed o
          → Every
              (λ (r : CommonSession × ℕ). IsFramed r.0.encrypted)
              (elim o [
                | none ↦ panic
                | some enc ↦ f enc >>= λ r. ok (record s { encrypted = some r.0 }, r.1)
              ])
      at none h = tt
      at (some enc) h =
          Every-bind (λ (r : CommonSession × ℕ). IsFramed r.0.encrypted) (f enc) _ (hf enc h)

  pub new_channel-write :
      (enc : Encrypted) (w m : ℕ)
      → Every (λ (r : Encrypted × ℕ). r.0.write ≡ enc.write) (new_channel enc w m)
  unfolding new_channel
  new_channel-write enc w m =
      at (vacant_id (length enc.channels + 1) enc.last_channel_id enc.channels) refl
    where
      at :
          (o : Option ℕ)
          → vacant_id (length enc.channels + 1) enc.last_channel_id enc.channels ≡ o
          → Every (λ (r : Encrypted × ℕ). r.0.write ≡ enc.write) (new_channel enc w m)
      at none eq = rw (eq, new_channel) tt
      at (some id) eq = rw (eq, new_channel) refl

  pub open-IsFramed :
      (state : EncryptedState) (s : CommonSession) (enc : Encrypted) (w m : ℕ) (packet : ℕ → Bytes)
      → Whole enc.write
      → Every
          (λ (r : CommonSession × ℕ). IsFramed r.0.encrypted)
          (open_in_state state s enc w m packet)
  unfolding open_in_state
  open-IsFramed (waiting_service_request a) s enc w m packet h = tt
  open-IsFramed (waiting_auth_request a) s enc w m packet h = tt
  open-IsFramed authenticated s enc w m packet h =
      Every-bind (λ (r : CommonSession × ℕ). IsFramed r.0.encrypted) (new_channel enc w m) _
        (Every-map (λ (r : Encrypted × ℕ). r.0.write ≡ enc.write) _ (new_channel enc w m)
          (λ r same. push-Whole r.0.write (packet r.1) (h.0, same ∙ h.1))
          (new_channel-write enc w m))

  pub first-IsFramed :
      (m : Outcome (CommonSession × ℕ))
      → Every (λ (r : CommonSession × ℕ). IsFramed r.0.encrypted) m
      → Every (λ (s' : CommonSession). IsFramed s'.encrypted) (m >>= λ x. ok x.0)
  first-IsFramed m h = Every-bind (λ (s' : CommonSession). IsFramed s'.encrypted) m _ h
