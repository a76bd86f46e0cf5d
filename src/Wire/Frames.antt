-- ===== src/Wire/Frames.antt =====
-- What `push_packet!` of src/lib.rs does to a buffer.
use thrussh_fork.Base.{
  refl, ◌+◌, ◌-◌, ◌%◌, ◌^◌, ◌≡◌, List, [], ◌∷◌, ◌++◌, Bytes, length, drop, length-append,
  take-append, drop-append, append_assoc, append-nil, arith,
}
use thrussh_fork.Wire.{Encoding, push_packet}

module _ ⦃e : Encoding⦄ where
  -- A payload behind its length.
  abbrev pub frame : Bytes → Bytes
  frame p = e.u32_be (length p % 2 ^ 32) ++ p

  abbrev pub frames : List Bytes → Bytes
  frames [] = []
  frames (p ∷ ps) = frame p ++ frames ps

  drop_room : (buf x : Bytes) → drop (length buf + 4) (buf ++ (0 ∷ 0 ∷ 0 ∷ 0 ∷ x)) ≡ x
  drop_room buf x = rw (← append_assoc buf (0 ∷ 0 ∷ 0 ∷ 0 ∷ []) x) (
      drop-append (length buf + 4) (buf ++ (0 ∷ 0 ∷ 0 ∷ 0 ∷ [])) x
        (omega (arith, length-append buf (0 ∷ 0 ∷ 0 ∷ 0 ∷ []))))

  pushed_length : (buf x : Bytes) → length (buf ++ (0 ∷ 0 ∷ 0 ∷ 0 ∷ x)) - length buf - 4 ≡ length x
  pushed_length buf x = omega (arith, length-append buf (0 ∷ 0 ∷ 0 ∷ 0 ∷ x))

  -- `push_packet` appends to the buffer the length of the payload in four bytes and the payload,
  -- and changes none of the bytes before.
  pub push_packet_lem : (buf x : Bytes) → push_packet buf x ≡ buf ++ frame x
  unfolding push_packet
  push_packet_lem buf x = rw (
    pushed_length buf x,
    drop_room buf x,
    take-append (length buf) buf (0 ∷ 0 ∷ 0 ∷ 0 ∷ x) (omega arith),
  )

  pub frames-append : (ps qs : List Bytes) → frames (ps ++ qs) ≡ frames ps ++ frames qs
  frames-append [] qs = refl
  frames-append (p ∷ ps) qs = rw (frames-append ps qs, append_assoc (frame p))

  pub push_packet-frames :
      (ps : List Bytes) (x : Bytes) → push_packet (frames ps) x ≡ frames (ps ++ x ∷ [])
  push_packet-frames ps x = rw (push_packet_lem, frames-append, append-nil)
