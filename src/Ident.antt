-- ===== src/Ident.antt =====
-- The identification line of the other side, src/ssh_read.rs. The reads from the socket are an
-- argument: what each of them gives, in order, where no bytes at all stand for the end of the stream.
pub mod Lines
use thrussh_fork.Base.{
  ℕ, suc, ◌+◌, ◌-◌, Bool, true, false, ◌&&◌, Option, none, some, List, [], ◌∷◌, ◌++◌, Bytes, codes,
  bytes_eq, length, take, drop, leb, ltb, ◌==◌, if◌then◌else◌, Outcome, ok, err, disconnect,
}

-- `ReadSshIdBuffer`: `buf` is the part of the buffer that has been filled, `total` bytes.
pub record SshId : Type 0 where
  pub buf : Bytes
  pub bytes_read : ℕ
  pub sshid_len : ℕ

-- The buffer has 256 bytes.
abbrev pub capacity : ℕ
capacity = 256

-- The loop over `i`: `a` is the byte at `i`, and `rest` what follows it. It stops at the end of a
-- line, with `i` and `bytes_read`.
unfoldable pub scan : ℕ → ℕ → Bytes → Option (ℕ × ℕ)
scan i a [] = none
scan i a (b ∷ rest) =
    let later = scan (i + 1) b rest in
    if (a == 13) && (b == 10)
    then some (i, i + 2)
    else if b == 10
    then some (i + 1, i + 2)
    else later

unfoldable pub scan_line : Bytes → Option (ℕ × ℕ)
unfolding scan
scan_line [] = none
scan_line (a ∷ rest) = scan 0 a rest

-- What is known once the buffer has been scanned: the line, or that more has to be read behind what
-- is kept.
pub data Scanned : Type 0 where
  found : SshId → Scanned
  more : Bytes → Scanned

-- A line that is not an identification is dropped, with all that has been read behind it.
abbrev pub judge : Option (ℕ × ℕ) → Bytes → Scanned
judge none buf = more buf
judge (some (i, n)) buf =
    if leb 8 i && bytes_eq (take 8 buf) (codes "SSH-2.0-")
    then found (record { buf = buf; bytes_read = n; sshid_len = i })
    else more []

unfoldable pub scanned : Bytes → Scanned
unfolding scan_line
scanned buf = judge (scan_line buf) buf

-- A read of the chunk takes what there is room for: none of it, if the buffer is full, which looks
-- like the end of the stream.
abbrev pub received : Bytes → Bytes → Bytes
received buf chunk = take (capacity - length buf) chunk

abbrev pub resume : Scanned → (Bytes → Outcome SshId) → Outcome SshId
resume (found id) next_read = ok id
resume (more kept) next_read = next_read kept

-- What follows a read, by the bytes that it gave.
unfoldable pub after_read : Bytes → Bytes → (Bytes → Outcome SshId) → Outcome SshId
unfolding scanned
after_read buf got next_read =
    if length got == 0 then err disconnect else resume (scanned (buf ++ got)) next_read

unfoldable pub read_ssh_id : List Bytes → Bytes → Outcome SshId
unfolding after_read
read_ssh_id [] buf = err disconnect
read_ssh_id (chunk ∷ chunks) buf =
    after_read buf (received buf chunk) (λ kept. read_ssh_id chunks kept)

-- `&ssh_id.buf[..ssh_id.sshid_len]`
abbrev pub line : SshId → Bytes
line id = take id.sshid_len id.buf

-- `poll_read` into `len` bytes: the bytes behind the line come first, and none says that the socket
-- is read.
unfoldable pub poll_read : ℕ → Option SshId → Option (Bytes × SshId)
poll_read len none = none
poll_read len (some id) =
    let result = take len (drop id.bytes_read id.buf) in
    if ltb id.bytes_read (length id.buf)
    then some (result, record id { bytes_read = id.bytes_read + length result })
    else none
