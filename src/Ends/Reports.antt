-- ===== src/Ends/Reports.antt =====
-- What a server reports of a channel, and what a client hears of it: src/server/session.rs and
-- src/client/encrypted.rs together.
use thrussh_fork.Base.{
  ℕ, ◌^◌, ◌<◌, ◌≡◌, refl, ◌∙◌, Bool, true, some, [], ◌∷◌, ◌++◌, Bytes, codes, Outcome, ok, arith,
}
use thrussh_fork.Base.Assoc.{lookup}
use thrussh_fork.Protocol.Msg
use thrussh_fork.Protocol.Names.{Sig, name, from_name}
use thrussh_fork.Wire.{Encoding, IsEncoding}
use thrussh_fork.Wire.Frames.{frame, push_packet_lem}
use thrussh_fork.Wire.Reads.{Fits, IsText, read_last_u32}
use thrussh_fork.Ends.Texts.{flag_lem, read_text_lem, read_text_last}
use thrussh_fork.Session.State.{Channel, Encrypted, CommonSession}
use thrussh_fork.Server.Senders.{
  flag, with_encrypted, with_confirmed, xon_xoff_request, exit_status_request, exit_signal_request,
}
use thrussh_fork.Client.State.{Session, Config, Handler, Event, xon_xoff, exit_status, exit_signal}
use thrussh_fork.Client.Login.{client_deliver}
use thrussh_fork.Client.Messages.{
  client_parse_request, client_on_request, client_read_authenticated,
}

pub data Report : Type 0 where
  flow_control : Bool → Report
  status : ℕ → Report
  by_signal : Sig → Bool → Bytes → Bytes → Report

abbrev pub event : ℕ → Report → Event
event n (flow_control can_do) = xon_xoff n can_do
event n (status code) = exit_status n code
event n (by_signal sig core error language) = exit_signal n sig core error language

abbrev kind : Report → Bytes
kind (flow_control can_do) = codes "xon-xoff"
kind (status code) = codes "exit-status"
kind (by_signal sig core error language) = codes "exit-signal"

module _ ⦃e : Encoding⦄ where
  abbrev pub report : Report → CommonSession → ℕ → Outcome CommonSession
  report (flow_control can_do) s id = xon_xoff_request s id can_do
  report (status code) s id = exit_status_request s id code
  report (by_signal sig core error language) s id = exit_signal_request s id sig core error language

  abbrev payload : Report → Bytes
  payload (flow_control can_do) = flag can_do ∷ []
  payload (status code) = e.u32_be code
  payload (by_signal sig core error language) =
      e.ssh_string (name sig) ++ (flag core ∷ (e.ssh_string error ++ e.ssh_string language))

  -- The packet on the channel that the client knows as `n`.
  abbrev pub packet : ℕ → Report → Bytes
  packet n r = Msg.channel_request ∷ (e.u32_be n ++ (e.ssh_string (kind r) ++ (0 ∷ payload r)))

  abbrev pub IsReport : Report → Type 0
  IsReport (flow_control can_do) = Unit
  IsReport (status code) = code < 2 ^ 32
  IsReport (by_signal sig core error language) =
      (Fits (name sig) × (from_name e.is_utf8 (name sig) ≡ ok sig)) × IsText error × IsText language

  confirmed_lem :
      (s : CommonSession) (enc : Encrypted) (ch : Channel) (id : ℕ)
      (f : Encrypted → Channel → Encrypted)
      → s.encrypted ≡ some enc
      → lookup id enc.channels ≡ some ch
      → ch.confirmed ≡ true
      → with_encrypted s (λ x. with_confirmed x id (f x))
        ≡ ok (record s { encrypted = some (f enc ch) })
  confirmed_lem s enc ch id f keys there ready =
      rw (keys, with_encrypted) (rw (there, with_confirmed) (rw ready refl))

  pushes :
      (r : Report) (s : CommonSession) (enc : Encrypted) (ch : Channel) (id : ℕ)
      → s.encrypted ≡ some enc
      → lookup id enc.channels ≡ some ch
      → ch.confirmed ≡ true
      → report r s id
        ≡ ok (record s {
          encrypted =
              some (record enc { write = enc.write ++ frame (packet ch.recipient_channel r) });
        })
  unfolding xon_xoff_request exit_status_request exit_signal_request
  pushes (flow_control can_do) s enc ch id keys there ready =
      confirmed_lem s enc ch id _ keys there ready ∙ rw push_packet_lem refl
  pushes (status code) s enc ch id keys there ready =
      confirmed_lem s enc ch id _ keys there ready ∙ rw push_packet_lem refl
  pushes (by_signal sig core error language) s enc ch id keys there ready =
      confirmed_lem s enc ch id _ keys there ready ∙ rw push_packet_lem refl

  module _ (laws : IsEncoding e) where
    parsed :
        (n : ℕ) (r : Report)
        → IsReport r
        → client_parse_request (kind r) n (0 ∷ payload r) ≡ ok (some (event n r))
    unfolding client_parse_request
    parsed n (flow_control can_do) h =
        rw (laws.read_byte-cons 0 _) (rw (laws.read_byte-cons (flag can_do) [], flag_lem can_do))
    parsed n (status code) small = rw (laws.read_byte-cons 0 _) (rw (read_last_u32 laws code small))
    parsed n (by_signal sig core error language) ((fits, known), text, text') =
        rw (laws.read_byte-cons 0 _) (
          rw (laws.read_string-ssh_string (name sig) _ fits, known)
            (rw (laws.read_byte-cons (flag core) _, flag_lem core)
              (rw (read_text_lem laws error _ text) (rw (read_text_last laws language text')))))

    kind-Fits : (r : Report) → Fits (kind r)
    kind-Fits (flow_control can_do) = omega arith
    kind-Fits (status code) = omega arith
    kind-Fits (by_signal sig core error language) = omega arith

    heard :
        {H : Type 0} (handler : Handler H) (config : Config) (r : Report) (n : ℕ) (s : Session)
        (h : H)
        → n < 2 ^ 32
        → IsReport r
        → client_read_authenticated handler config s h (packet n r)
          ≡ client_deliver handler (event n r) s h
    unfolding client_read_authenticated client_on_request
    heard handler config r n s h small good =
        rw (laws.read_u32-u32_be n _ small)
          (rw (laws.read_string-ssh_string (kind r) _ (kind-Fits r)) (rw (parsed n r good)))

    -- Each of the reports xon-xoff, exit-status and exit-signal, with texts and numbers that fit
    -- and a signal that is read back from its name: on a confirmed channel the server appends the
    -- frame of one packet, and the client that reads it calls its handler with exactly the
    -- arguments of the server.
    pub report_heard :
        {H : Type 0} (handler : Handler H) (config : Config) (r : Report) (id : ℕ)
        (server : CommonSession) (enc : Encrypted) (ch : Channel) (client : Session) (h : H)
        → server.encrypted ≡ some enc
        → lookup id enc.channels ≡ some ch
        → ch.confirmed ≡ true
        → ch.recipient_channel < 2 ^ 32
        → IsReport r
        → (report r server id
            ≡ ok (record server {
              encrypted =
                  some (record enc { write = enc.write ++ frame (packet ch.recipient_channel r) });
            }))
          × (client_read_authenticated handler config client h (packet ch.recipient_channel r)
              ≡ client_deliver handler (event ch.recipient_channel r) client h)
    report_heard handler config r id server enc ch client h keys there ready small good = (
      pushes r server enc ch id keys there ready,
      heard handler config r ch.recipient_channel client h small good,
    )
