-- ===== src/Session/Numbers.antt =====
-- New channel numbers, src/session.rs.
use thrussh_fork.Base.{
  ℕ, zero, suc, ◌+◌, ◌%◌, ◌^◌, ◌≤◌, ◌<◌, ◌≡◌, ◌≢◌, ◌∙◌, inl, inr, refl, sym, none, some,
  Option-cases, List, [], ◌∷◌, length, ok, arith, if◌then◌else◌, ◌==◌,
}
use thrussh_fork.Base.Assoc.{lookup, remove, lookup-remove, insert, lookup-insert}
use thrussh_fork.Session.State.{Channel, Encrypted}
use thrussh_fork.Session.Channels.{next_id, vacant_id, new_channel_id, new_channel, unconfirmed}

length-remove : (k : ℕ) (m : List (ℕ × Channel)) → length (remove k m) ≤ length m
unfolding remove
length-remove k [] = omega arith
length-remove k ((j, w) ∷ m) = ground (arith, length-remove k m)

length-remove_taken :
    (k : ℕ) (m : List (ℕ × Channel)) → lookup k m ≢ none → length (remove k m) < length m
unfolding remove lookup
length-remove_taken k [] h = absurd (h refl)
length-remove_taken k ((j, w) ∷ m) h = ground (arith, length-remove k m, length-remove_taken k m)

-- The number after `k + 1` rounds from `last`.
abbrev round : ℕ → ℕ → ℕ
round last k = (last + 1 + k) % 2 ^ 32

-- Different numbers that are all taken are no more than the entries.
taken_bound :
    (k last : ℕ) (m : List (ℕ × Channel))
    → k ≤ 2 ^ 32
    → ((j : ℕ) → j < k → lookup (round last j) m ≢ none)
    → k ≤ length m
taken_bound zero last m hk h = omega arith
taken_bound (suc k) last m hk h =
    let taken : lookup (round last k) m ≢ none = h k (omega arith) in
    omega (
      arith,
      taken_bound k last (remove (round last k) m) (omega arith) (λ j hj. others j hj),
      length-remove_taken (round last k) m taken,
    )
  where
    others : (j : ℕ) → j < k → lookup (round last j) (remove (round last k) m) ≢ none
    others j hj e = h j (omega arith) (sym (kept j hj) ∙ e)
      where
        kept :
            (j : ℕ)
            → j < k
            → lookup (round last j) (remove (round last k) m) ≡ lookup (round last j) m
        kept j hj = ground (arith, lookup-remove (round last k) (round last j) m)

vacant_step :
    (fuel last : ℕ) (m : List (ℕ × Channel))
    → vacant_id (suc fuel) last m ≡ none
    → (lookup (next_id last) m ≢ none) × (vacant_id fuel (next_id last) m ≡ none)
unfolding vacant_id
vacant_step fuel last m e = ground arith

-- Where the search fails, every number of its rounds is taken.
vacant_none :
    (fuel last : ℕ) (m : List (ℕ × Channel))
    → vacant_id fuel last m ≡ none
    → (j : ℕ) → j < fuel
    → lookup (round last j) m ≢ none
vacant_none zero last m e j hj = absurd (omega arith)
vacant_none (suc fuel) last m e zero hj =
    let same : round last 0 ≡ next_id last = omega arith in rw same ((vacant_step fuel last m e).0)
vacant_none (suc fuel) last m e (suc j) hj =
    let same : round last (suc j) ≡ round (next_id last) j = omega arith in
    rw same (vacant_none fuel (next_id last) m (vacant_step fuel last m e).1 j (omega arith))

vacant_free :
    (fuel last id : ℕ) (m : List (ℕ × Channel))
    → vacant_id fuel last m ≡ some id
    → (lookup id m ≡ none) × (id < 2 ^ 32)
unfolding vacant_id
vacant_free zero last id m e = cc
vacant_free (suc fuel) last id m e = ground (arith, vacant_free fuel (next_id last) id m)

-- The search ends: it has one round more than there are channels, and fewer channels than numbers.
vacant_total :
    (last : ℕ) (m : List (ℕ × Channel))
    → length m < 2 ^ 32
    → (id : ℕ) × (vacant_id (length m + 1) last m ≡ some id)
vacant_total last m h = elim (Option-cases (vacant_id (length m + 1) last m)) [
  | inl e ↦
      absurd
        (omega (arith, taken_bound (length m + 1) last m (omega arith) (vacant_none _ last m e)))
  | inr found ↦ found
]

-- With fewer than 2 ^ 32 channels `new_channel_id` ends: it returns a number of 32 bits that no
-- channel has, and changes nothing but the last number.
pub new_channel_id_fresh :
    (enc : Encrypted)
    → length enc.channels < 2 ^ 32
    → (id : ℕ) × (new_channel_id enc ≡ ok (record enc { last_channel_id = id }, id))
      × (lookup id enc.channels ≡ none)
      × (id < 2 ^ 32)
unfolding new_channel_id
new_channel_id_fresh enc h =
    let (id, found) = vacant_total enc.last_channel_id enc.channels h in
    let (free, small) = vacant_free _ enc.last_channel_id id enc.channels found in
    (id, rw (found, new_channel_id), free, small)

-- With fewer than 2 ^ 32 channels `new_channel` succeeds: its number belonged to no channel, stands
-- now for an unconfirmed channel with the window and packet size given, and every other number
-- stands for the channel that it stood for.
pub new_channel_opens :
    (enc : Encrypted) (window maxpacket : ℕ)
    → length enc.channels < 2 ^ 32
    → (enc' : Encrypted) × (id : ℕ) × (new_channel enc window maxpacket ≡ ok (enc', id))
      × (lookup id enc.channels ≡ none)
      × (id < 2 ^ 32)
      × (enc'.write ≡ enc.write)
      × ((j : ℕ)
          → lookup j enc'.channels
            ≡ (if id == j then some (unconfirmed id window maxpacket) else lookup j enc.channels))
unfolding new_channel
new_channel_opens enc window maxpacket h =
    let (id, found) = vacant_total enc.last_channel_id enc.channels h in
    let (free, small) = vacant_free _ enc.last_channel_id id enc.channels found in
    (
      record enc {
        last_channel_id = id;
        channels = insert id (unconfirmed id window maxpacket) enc.channels;
      },
      id,
      rw (found, new_channel),
      free,
      small,
      refl,
      λ j. lookup-insert id j _ enc.channels,
    )
