-- ===== src/Server/Stage/Rounds.antt =====
-- That a client comes no further by the queues and the flush at the end of a round of the loop of
-- src/server/mod.rs.
use thrussh_fork.Base.{
  ℕ, ◌≡◌, refl, Bool, Option, none, some, List, [], ◌∷◌, Bytes, length, drop, ◌==◌, Outcome, ok,
  arith,
}
use thrussh_fork.Base.Every.{Every, Every-bind, Every-then, Every-if, Every-map}
use thrussh_fork.Wire.{Encoding}
use thrussh_fork.Cipher.Keys.{Sodium, CipherPair}
use thrussh_fork.Cipher.Packet.{SshBuffer}
use thrussh_fork.Session.State.{Encrypted, CommonSession, Exchange, Limits, initiate_rekey}
use thrussh_fork.Session.Flush.{Flushed, flush_loop, finish_flush, flush}
use thrussh_fork.Server.Kex.{KexConfig, server_write}
use thrussh_fork.Server.Flush.{start_rekey, flush_encrypted, server_flush}
use thrussh_fork.Server.Senders.{data_on, extended_data_on}
use thrussh_fork.Server.Loop.{Running, enqueue, drain, drain_extended, finish_round}
use thrussh_fork.Protocol.Names.{
  ChannelMsg, data_msg, extended_data_msg, eof, xon_xoff, exit_status, exit_signal,
}
use thrussh_fork.Server.Stage.{
  state_of, Kept, Same, Kept-trans, stored, data_on-Kept, extended_data_on-Kept,
}

pub enqueue_kept :
    ⦃e : Encoding⦄ {H : Type 0} (m : Option (ℕ × ChannelMsg)) (r : Running H)
    → state_of r.session.encrypted ≡ state_of (enqueue m r).session.encrypted
enqueue_kept none r = refl
enqueue_kept (some (id, data_msg given)) r = refl
enqueue_kept (some (id, extended_data_msg given ext)) r = refl
enqueue_kept (some (id, eof)) r = refl
enqueue_kept (some (id, xon_xoff b)) r = refl
enqueue_kept (some (id, exit_status n)) r = refl
enqueue_kept (some (id, exit_signal sig b m l)) r = refl

module _ ⦃e : Encoding⦄ where
  pub drain-Kept :
      (s : CommonSession) (queue : List (ℕ × Bytes))
      → Every (λ (r : CommonSession × List (ℕ × Bytes)). Kept s r.0) (drain s queue)
  unfolding drain
  drain-Kept s [] = (refl, refl)
  drain-Kept s ((id, given) ∷ queue) = Every-bind P (data_on s id given) _ (
      Every-map _ _ (data_on s id given)
        (λ (r : CommonSession × ℕ) (k : Kept s r.0).
          Every-if P (r.1 == length given) (drain r.0 queue)
            (ok (r.0, (id, drop r.1 given) ∷ queue))
            (λ _.
              Every-map _ P (drain r.0 queue)
                (λ (x : CommonSession × List (ℕ × Bytes)) (l : Kept r.0 x.0).
                  Kept-trans s r.0 x.0 k l)
                (drain-Kept r.0 queue))
            (λ _. k))
        (data_on-Kept s id given))
    where
      P : CommonSession × List (ℕ × Bytes) → Type 0
      P r = Kept s r.0

  pub drain_extended-Kept :
      (s : CommonSession) (queue : List (ℕ × ℕ × Bytes))
      → Every (λ (r : CommonSession × List (ℕ × ℕ × Bytes)). Kept s r.0) (drain_extended s queue)
  unfolding drain_extended
  drain_extended-Kept s [] = (refl, refl)
  drain_extended-Kept s ((id, ext, given) ∷ queue) =
      Every-bind P (extended_data_on s id ext given) _ (
        Every-map _ _ (extended_data_on s id ext given)
          (λ (r : CommonSession × ℕ) (k : Kept s r.0).
            Every-if P (r.1 == length given) (drain_extended r.0 queue)
              (ok (r.0, (id, ext, drop r.1 given) ∷ queue))
              (λ _.
                Every-map _ P (drain_extended r.0 queue)
                  (λ (x : CommonSession × List (ℕ × ℕ × Bytes)) (l : Kept r.0 x.0).
                    Kept-trans s r.0 x.0 k l)
                  (drain_extended-Kept r.0 queue))
              (λ _. k))
          (extended_data_on-Kept s id ext given))
    where
      P : CommonSession × List (ℕ × ℕ × Bytes) → Type 0
      P r = Kept s r.0

  -- The end of a round, for a flush that keeps these.
  pub finish_round-Kept :
      {H : Type 0} (reply : CommonSession → H → Bytes → Outcome (CommonSession × H))
      (flush : CommonSession → Outcome CommonSession)
      → ((s : CommonSession) → Every (Kept s) (flush s))
      → (r : Running H)
      → Every (λ (r' : Running H). Kept r.session r'.session) (finish_round reply flush r)
  unfolding finish_round
  finish_round-Kept {H} reply flush keeps r = Every-bind P (drain r.session r.data_queue) _ (
      Every-map _ _ (drain r.session r.data_queue)
        (λ a k1. Every-bind P (drain_extended a.0 r.extended_data_queue) _ (
          Every-map _ _ (drain_extended a.0 r.extended_data_queue)
            (λ b k2. Every-bind P (flush b.0) _ (
              Every-map _ _ (flush b.0)
                (λ s3 k3. Kept-trans r.session a.0 s3 k1 (Kept-trans a.0 b.0 s3 k2 k3))
                (keeps b.0)))
            (drain_extended-Kept a.0 r.extended_data_queue)))
        (drain-Kept r.session r.data_queue))
    where
      P : Running H → Type 0
      P r' = Kept r.session r'.session

  module _ ⦃c : Sodium⦄ where
    finish_flush-Same : (enc : Encrypted) (f : Flushed) → Same enc (finish_flush enc f).1
    unfolding finish_flush
    finish_flush-Same enc f = ground arith

    flush-Same :
        (clock : ℕ → ℕ) (limits : Limits) (pair : CipherPair) (enc : Encrypted) (wb : SshBuffer)
        → Every
            (λ (r : Bool × Encrypted × SshBuffer). Same enc r.1)
            (flush clock limits pair enc wb)
    unfolding flush
    flush-Same clock limits pair enc wb =
        Every-then (λ (r : Bool × Encrypted × SshBuffer). Same enc r.1)
          (flush_loop (length enc.write) 0 clock limits pair enc.write enc.last_rekey
            enc.write_cursor wb)
          (λ f. ok (finish_flush enc f)) (λ f. finish_flush-Same enc f)

    start_rekey-Kept :
        (o : Option Exchange) (cookie : Option Bytes) (config : KexConfig) (s : CommonSession)
        (enc enc' : Encrypted) (wb : SshBuffer)
        → s.encrypted ≡ some enc
        → Same enc enc'
        → Every (Kept s) (start_rekey o cookie config s enc' wb)
    unfolding start_rekey
    start_rekey-Kept none cookie config s enc enc' wb eq same = (stored s enc enc' eq same, refl)
    start_rekey-Kept (some exchange) cookie config s enc enc' wb eq same =
        Every-then (Kept s)
          (server_write cookie config s.cipher (initiate_rekey exchange enc'.session_id) wb) _
          (λ r. (stored s enc enc' eq same, refl))

    flush_encrypted-Kept :
        (o : Option Encrypted) (clock : ℕ → ℕ) (cookie : Option Bytes) (limits : Limits)
        (config : KexConfig) (s : CommonSession)
        → s.encrypted ≡ o
        → Every (Kept s) (flush_encrypted o clock cookie limits config s)
    unfolding flush_encrypted
    flush_encrypted-Kept none clock cookie limits config s eq = (refl, refl)
    flush_encrypted-Kept (some enc) clock cookie limits config s eq =
        Every-bind (Kept s) (flush clock limits s.cipher enc s.write_buffer) _ (
          Every-map _ _ (flush clock limits s.cipher enc s.write_buffer)
            (λ (r : Bool × Encrypted × SshBuffer) (same : Same enc r.1).
              Every-if (Kept s) r.0 _ _
                (λ _. start_rekey-Kept r.1.exchange cookie config s enc r.1 r.2 eq same)
                (λ _. (stored s enc r.1 eq same, refl)))
            (flush-Same clock limits s.cipher enc s.write_buffer))

    pub server_flush-Kept :
        (clock : ℕ → ℕ) (cookie : Option Bytes) (limits : Limits) (config : KexConfig)
        (s : CommonSession)
        → Every (Kept s) (server_flush clock cookie limits config s)
    unfolding server_flush
    server_flush-Kept clock cookie limits config s =
        flush_encrypted-Kept s.encrypted clock cookie limits config s refl
