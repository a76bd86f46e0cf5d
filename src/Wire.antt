-- ===== src/Wire.antt =====
-- Bytes on the wire. The crates byteorder, cryptovec and thrussh-keys are not part of the
-- repository: `Encoding` holds the calls that the source makes of them, and `IsEncoding` what their
-- documentation promises (RFC 4251, section 5). A CryptoVec is the list of the bytes that it
-- derefs to. `push_packet` is the macro of src/lib.rs.
pub mod Frames
pub mod Reads
pub mod Standard
use thrussh_fork.Base.{
  ℕ, ◌+◌, ◌-◌, ◌/◌, ◌%◌, ◌^◌, ◌<◌, ◌≤◌, ◌≡◌, Bool, Option, none, some, List, [], ◌∷◌, ◌++◌, Bytes,
  codes, length, take, drop,
}

pub record Encoding : Type 0 where
  -- The four bytes of `push_u32_be`, `BigEndian::write_u32`.
  pub u32_be : ℕ → Bytes
  -- `BigEndian::read_u32`, of a slice of four bytes at least.
  pub be_u32 : Bytes → ℕ
  -- What `extend_ssh_string`, `extend_list` and `write_empty_list` append.
  pub ssh_string : Bytes → Bytes
  pub name_list : List Bytes → Bytes
  pub empty_list : Bytes
  -- What `extend_ssh_mpint` appends.
  pub mpint : Bytes → Bytes
  -- The reader: a value and the bytes left, or an error.
  pub read_string : Bytes → Option (Bytes × Bytes)
  pub read_u32 : Bytes → Option (ℕ × Bytes)
  pub read_byte : Bytes → Option (ℕ × Bytes)
  -- Whether `std::str::from_utf8` succeeds.
  pub is_utf8 : Bytes → Bool

-- The names of a list, with commas between them.
abbrev pub join : List Bytes → Bytes
join [] = []
join (n ∷ []) = n
join (n ∷ m ∷ ns) = n ++ (b',' ∷ join (m ∷ ns))

pub record IsEncoding (e : Encoding) : Type 0 where
  pub u32_be_lem :
      (n : ℕ)
      → e.u32_be n ≡ (n / 2 ^ 24 % 256) ∷ (n / 2 ^ 16 % 256) ∷ (n / 2 ^ 8 % 256) ∷ (n % 256) ∷ []
  pub length-u32_be : (n : ℕ) → length (e.u32_be n) ≡ 4
  pub be_u32-u32_be : (n : ℕ) (rest : Bytes) → n < 2 ^ 32 → e.be_u32 (e.u32_be n ++ rest) ≡ n
  pub read_u32-u32_be :
      (n : ℕ) (rest : Bytes) → n < 2 ^ 32 → e.read_u32 (e.u32_be n ++ rest) ≡ some (n, rest)
  pub read_string-ssh_string :
      (s rest : Bytes) → length s < 2 ^ 32 → e.read_string (e.ssh_string s ++ rest) ≡ some (s, rest)
  -- A length that is more than what follows is an error.
  pub read_string_short :
      (n : ℕ) (rest : Bytes)
      → n < 2 ^ 32
      → length rest < n
      → e.read_string (e.u32_be n ++ rest) ≡ none
  pub ssh_string_lem : (s : Bytes) → e.ssh_string s ≡ e.u32_be (length s) ++ s
  pub name_list_lem : (ns : List Bytes) → e.name_list ns ≡ e.ssh_string (join ns)
  pub empty_list_lem : e.empty_list ≡ e.ssh_string []
  pub read_byte-cons : (b : ℕ) (rest : Bytes) → e.read_byte (b ∷ rest) ≡ some (b, rest)
  -- A read takes bytes off the front.
  pub read_u32_shorter :
      (s rest : Bytes) (n : ℕ) → e.read_u32 s ≡ some (n, rest) → length rest < length s

module _ ⦃e : Encoding⦄ where
  -- `BigEndian::write_u32(&mut buf[i0..], n)`
  unfoldable pub write_u32_at : Bytes → ℕ → ℕ → Bytes
  write_u32_at buf i0 n = take i0 buf ++ (e.u32_be n ++ drop (i0 + 4) buf)

  -- Four bytes of room, what the caller pushes, and then its length in the room.
  unfoldable pub push_packet : Bytes → Bytes → Bytes
  unfolding write_u32_at
  push_packet buffer x =
      let i0 = length buffer in
      let buf = buffer ++ (0 ∷ 0 ∷ 0 ∷ 0 ∷ x) in
      let i1 = length buf in write_u32_at buf i0 ((i1 - i0 - 4) % 2 ^ 32)
