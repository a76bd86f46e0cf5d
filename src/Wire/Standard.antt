-- ===== src/Wire/Standard.antt =====
-- A concrete encoding that keeps the promises, for the concrete instances of the theorems.
use thrussh_fork.Base.{
  ℕ, ◌+◌, ◌*◌, ◌/◌, ◌%◌, ◌^◌, ◌<◌, ◌≡◌, refl, true, Option, none, some, [], ◌∷◌, ◌++◌, Bytes,
  length, take, drop, take-append, drop-append, length-append, leb, if◌then◌else◌, arith,
}
use thrussh_fork.Wire.{Encoding, IsEncoding, join}

abbrev be : ℕ → Bytes
be n = (n / 2 ^ 24 % 256) ∷ (n / 2 ^ 16 % 256) ∷ (n / 2 ^ 8 % 256) ∷ (n % 256) ∷ []

abbrev value : Bytes → ℕ
value (a ∷ b ∷ c ∷ d ∷ _) = a * 2 ^ 24 + b * 2 ^ 16 + c * 2 ^ 8 + d
value _ = 0

abbrev first_u32 : Bytes → Option (ℕ × Bytes)
first_u32 (a ∷ b ∷ c ∷ d ∷ rest) = some (a * 2 ^ 24 + b * 2 ^ 16 + c * 2 ^ 8 + d, rest)
first_u32 _ = none

abbrev first_byte : Bytes → Option (ℕ × Bytes)
first_byte [] = none
first_byte (b ∷ rest) = some (b, rest)

abbrev cut : Option (ℕ × Bytes) → Option (Bytes × Bytes)
cut none = none
cut (some (n, rest)) = if leb n (length rest) then some (take n rest, drop n rest) else none

instance abbrev pub standard : Encoding
standard = record {
  u32_be = be;
  be_u32 = value;
  ssh_string = λ s. be (length s) ++ s;
  name_list = λ ns. be (length (join ns)) ++ join ns;
  empty_list = be 0;
  mpint = λ n. be (length n) ++ n;
  read_string = λ s. cut (first_u32 s);
  read_u32 = first_u32;
  read_byte = first_byte;
  is_utf8 = λ s. true;
}

digits_lem :
    (n : ℕ)
    → n < 2 ^ 32
    → n / 2 ^ 24 % 256 * 2 ^ 24 + n / 2 ^ 16 % 256 * 2 ^ 16 + n / 2 ^ 8 % 256 * 2 ^ 8 + n % 256 ≡ n
digits_lem n h = omega arith

cut_string : (s rest : Bytes) → cut (some (length s, s ++ rest)) ≡ some (s, rest)
cut_string s rest =
    ground
      (arith, length-append s rest, take-append (length s) s rest, drop-append (length s) s rest)

cut_short : (n : ℕ) (rest : Bytes) → length rest < n → cut (some (n, rest)) ≡ none
cut_short n rest h = ground arith

first_u32_shorter : (s rest : Bytes) (n : ℕ) → first_u32 s ≡ some (n, rest) → length rest < length s
first_u32_shorter [] rest n h = cc
first_u32_shorter (a ∷ []) rest n h = cc
first_u32_shorter (a ∷ b ∷ []) rest n h = cc
first_u32_shorter (a ∷ b ∷ c ∷ []) rest n h = cc
first_u32_shorter (a ∷ b ∷ c ∷ d ∷ s) rest n h = ground arith

pub standard-IsEncoding : IsEncoding standard
standard-IsEncoding = record {
  u32_be_lem = λ n. refl;
  length-u32_be = λ n. refl;
  be_u32-u32_be = λ n rest h. digits_lem n h;
  read_u32-u32_be = λ n rest h. rw (digits_lem n h);
  read_string-ssh_string = λ s rest h. rw (digits_lem (length s) h) (cut_string s rest);
  read_string_short = λ n rest h short. rw (digits_lem n h) (cut_short n rest short);
  ssh_string_lem = λ s. refl;
  name_list_lem = λ ns. refl;
  empty_list_lem = refl;
  read_byte-cons = λ b rest. refl;
  read_u32_shorter = first_u32_shorter;
}
