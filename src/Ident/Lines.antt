-- ===== src/Ident/Lines.antt =====
-- What is read of the identification line, src/ssh_read.rs.
use thrussh_fork.Base.{
  ℕ, ◌+◌, ◌-◌, ◌<◌, ◌≤◌, ◌≡◌, ◌≢◌, refl, sym, ap, ◌∙◌, Bool, true, false, ◌&&◌, Option, none, some,
  List, [], ◌∷◌, ◌++◌, Bytes, codes, bytes_eq, length, take, drop, leb, ◌==◌, if◌then◌else◌, All,
  ok, append_assoc, append-nil, length-append, take-append, drop-append, take_all, arith,
}
use mathlib.Core.Path.{subst}
use thrussh_fork.Ident.{
  SshId, scan, scan_line, Scanned, found, more, judge, scanned, received, resume, after_read,
  read_ssh_id, line,
}

-- No end of a line.
abbrev pub IsPlain : Bytes → Type 0
IsPlain s = All (λ (x : ℕ). x ≢ 10) s

scan_plain : (i a : ℕ) (s : Bytes) → IsPlain s → scan i a s ≡ none
unfolding scan
scan_plain i a [] h = refl
scan_plain i a (b ∷ s) (ne, h) = ground (arith, scan_plain (i + 1) b s h)

skip : (i a b : ℕ) (s : Bytes) → b ≢ 10 → scan i a (b ∷ s) ≡ scan (i + 1) b s
unfolding scan
skip i a b s ne = ground arith

pair : {a b c d : ℕ} → a ≡ c → b ≡ d → ◌≡◌ {A = Option (ℕ × ℕ)} (some (a, b)) (some (c, d))
pair p q = cc

scan_end :
    (i a : ℕ) (s rest : Bytes)
    → IsPlain s
    → scan i a (s ++ (13 ∷ 10 ∷ rest)) ≡ some (i + length s + 1, i + length s + 3)
unfolding scan
scan_end i a [] rest h = skip i a 13 (10 ∷ rest) (omega arith) ∙ last
  where
    last : scan (i + 1) 13 (10 ∷ rest) ≡ some (i + 0 + 1, i + 0 + 3)
    last = pair (omega arith) (omega arith)
scan_end i a (b ∷ s) rest (ne, h) =
    skip i a b (s ++ (13 ∷ 10 ∷ rest)) ne
    ∙ scan_end (i + 1) b s rest h
    ∙ pair (omega arith) (omega arith)

scan_line_plain : (s : Bytes) → IsPlain s → scan_line s ≡ none
unfolding scan_line
scan_line_plain [] h = refl
scan_line_plain (a ∷ s) (ne, h) = scan_plain 0 a s h

scanned_plain : (s : Bytes) → IsPlain s → scanned s ≡ more s
unfolding scanned
scanned_plain s h = ap (λ (o : Option (ℕ × ℕ)). judge o s) (scan_line_plain s h)

-- The line of an identification, up to the end of the line.
abbrev pub ident : Bytes → Bytes
ident v = codes "SSH-2.0-" ++ v

scanned-ident :
    (v rest : Bytes)
    → IsPlain v
    → scanned (ident v ++ (13 ∷ 10 ∷ rest))
      ≡ found (record {
        buf = ident v ++ (13 ∷ 10 ∷ rest);
        bytes_read = length (ident v) + 2;
        sshid_len = length (ident v);
      })
unfolding scanned scan_line
scanned-ident v rest h =
    ap (λ (o : Option (ℕ × ℕ)). judge o (ident v ++ (13 ∷ 10 ∷ rest))) at_end ∙ rw room refl
  where
    plain : IsPlain (codes "SH-2.0-" ++ v)
    plain = (
      omega arith,
      (omega arith, (omega arith, (omega arith, (omega arith, (omega arith, (omega arith, h)))))),
    )

    at_end :
        scan 0 b'S' (codes "SH-2.0-" ++ (v ++ (13 ∷ 10 ∷ rest)))
        ≡ some (length (ident v), length (ident v) + 2)
    at_end = scan_end 0 b'S' (codes "SH-2.0-" ++ v) rest plain ∙ pair (omega arith) (omega arith)

    room : leb 8 (length (ident v)) ≡ true
    room = ground arith

-- Every read gives some bytes.
abbrev pub concat : List Bytes → Bytes
concat [] = []
concat (c ∷ cs) = c ++ concat cs

whole : (buf chunk : Bytes) → length (buf ++ chunk) ≤ 256 → received buf chunk ≡ chunk
whole buf chunk fits = take_all (256 - length buf) chunk (omega (arith, length-append buf chunk))

step :
    (buf chunk : Bytes) (chunks : List Bytes) (s : Scanned)
    → 0 < length chunk
    → length (buf ++ chunk) ≤ 256
    → scanned (buf ++ chunk) ≡ s
    → read_ssh_id (chunk ∷ chunks) buf ≡ resume s (λ kept. read_ssh_id chunks kept)
unfolding read_ssh_id after_read
step buf chunk chunks s some_bytes fits eq =
    ap (λ (got : Bytes). after_read buf got (λ kept. read_ssh_id chunks kept))
      (whole buf chunk fits)
    ∙ rw (positive, after_read)
        (ap (λ (t : Scanned). resume t (λ kept. read_ssh_id chunks kept)) eq)
  where
    positive : (length chunk == 0) ≡ false
    positive = ground arith

All-append : (xs ys : Bytes) → IsPlain (xs ++ ys) → IsPlain xs
All-append [] ys h = tt
All-append (x ∷ xs) ys (p, h) = (p, All-append xs ys h)

-- Reads without an end of a line are kept.
gather :
    (cs : List Bytes) (buf : Bytes) (later : List Bytes)
    → All (λ (c : Bytes). 0 < length c) cs
    → IsPlain (buf ++ concat cs)
    → length (buf ++ concat cs) ≤ 256
    → read_ssh_id (cs ++ later) buf ≡ read_ssh_id later (buf ++ concat cs)
gather [] buf later h plain fits = ap (λ (b : Bytes). read_ssh_id later b) (sym (append-nil buf))
gather (c ∷ cs) buf later (some_bytes, h) plain fits =
    let same = append_assoc buf c (concat cs) in
    let plain' = subst (λ (b : Bytes). IsPlain b) (sym same) plain in
    step buf c (cs ++ later) (more (buf ++ c)) some_bytes
      (omega (
        arith,
        fits,
        length-append buf c,
        length-append buf (c ++ concat cs),
        length-append c (concat cs),
      ))
      (scanned_plain (buf ++ c) (All-append (buf ++ c) (concat cs) plain'))
    ∙ gather cs (buf ++ c) later h plain' (subst (λ (b : Bytes). length b ≤ 256) (sym same) fits)
    ∙ ap (λ (b : Bytes). read_ssh_id later b) same

-- What is left of the reads with a line.
abbrev pub id_of : Bytes → Bytes → SshId
id_of v rest = record {
  buf = ident v ++ (13 ∷ 10 ∷ rest);
  bytes_read = length (ident v) + 2;
  sshid_len = length (ident v);
}

-- Where the other side sends a line that begins with "SSH-2.0-" and has no line feed, its end of
-- two bytes, and any bytes behind it, at most 256 bytes in all: however these are cut into reads of
-- one byte at least, of which only the last has a line feed, `read_ssh_id` gives that line, and
-- what it leaves in the buffer behind the line is the bytes that follow.
pub read_ssh_id-ident :
    (cs : List Bytes) (c v rest : Bytes) (later : List Bytes)
    → All (λ (x : Bytes). 0 < length x) cs
    → 0 < length c
    → IsPlain (concat cs)
    → concat cs ++ c ≡ ident v ++ (13 ∷ 10 ∷ rest)
    → IsPlain v
    → length (concat cs ++ c) ≤ 256
    → (id : SshId) × (read_ssh_id (cs ++ (c ∷ later)) [] ≡ ok id)
      × (line id ≡ ident v)
      × (drop id.bytes_read id.buf ≡ rest)
read_ssh_id-ident cs c v rest later some_bytes more_bytes plain same simple fits = (
  id_of v rest,
  gather cs [] (c ∷ later) some_bytes plain (omega (arith, fits, length-append (concat cs) c))
      ∙ step (concat cs) c later (found (id_of v rest)) more_bytes fits
          (ap scanned same ∙ scanned-ident v rest simple),
  take-append (length (ident v)) (ident v) (13 ∷ 10 ∷ rest) refl,
  ap (λ (b : Bytes). drop (length (ident v) + 2) b)
        (sym (append_assoc (ident v) (13 ∷ 10 ∷ []) rest))
      ∙ drop-append (length (ident v) + 2) (ident v ++ (13 ∷ 10 ∷ [])) rest
          (omega (arith, length-append (ident v) (13 ∷ 10 ∷ []))),
)

no_ident : (b : Bool) (s : Scanned) → (if b && false then s else more []) ≡ more []
no_ident true s = refl
no_ident false s = refl

-- Where a read of at most 256 bytes begins with a line that is not an identification, all that the
-- read has behind that line is dropped as well, even an identification: the reading goes on as if
-- nothing had come.
pub preliminary_line_dropped :
    (a : ℕ) (l rest : Bytes) (later : List Bytes)
    → IsPlain l
    → bytes_eq (take 8 (a ∷ (l ++ (13 ∷ 10 ∷ rest)))) (codes "SSH-2.0-") ≡ false
    → length (a ∷ (l ++ (13 ∷ 10 ∷ rest))) ≤ 256
    → read_ssh_id ((a ∷ (l ++ (13 ∷ 10 ∷ rest))) ∷ later) [] ≡ read_ssh_id later []
unfolding scanned scan_line
preliminary_line_dropped a l rest later plain other fits =
    step [] (a ∷ (l ++ (13 ∷ 10 ∷ rest))) later (more []) (omega arith) fits dropped
  where
    dropped : scanned (a ∷ (l ++ (13 ∷ 10 ∷ rest))) ≡ more []
    dropped =
        ap (λ (o : Option (ℕ × ℕ)). judge o (a ∷ (l ++ (13 ∷ 10 ∷ rest))))
          (scan_end 0 a l rest plain)
        ∙ rw other (no_ident _ _)
