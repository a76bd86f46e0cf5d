-- ===== src/Tests/Lines.antt =====
-- Concrete instances of the theorems on the identification line.
use thrussh_fork.Base.{◌≡◌, refl, [], ◌∷◌, ◌++◌, codes, drop, ok, arith}
use thrussh_fork.Ident.{SshId, read_ssh_id, line}
use thrussh_fork.Ident.Lines.{ident, read_ssh_id-ident, preliminary_line_dropped}

-- The line comes in two reads, and the second has bytes of the first packet.
read_ssh_id-ident_example :
    (id : SshId) × (read_ssh_id
        (codes "SSH-2" ∷ ((codes ".0-x" ++ (13 ∷ 10 ∷ 7 ∷ 8 ∷ [])) ∷ (9 ∷ []) ∷ []))
        []
      ≡ ok id)
    × (line id ≡ ident (codes "x"))
    × (drop id.bytes_read id.buf ≡ 7 ∷ 8 ∷ [])
read_ssh_id-ident_example =
    read_ssh_id-ident (codes "SSH-2" ∷ []) (codes ".0-x" ++ (13 ∷ 10 ∷ 7 ∷ 8 ∷ [])) (codes "x")
      (7 ∷ 8 ∷ []) ((9 ∷ []) ∷ []) (omega arith, tt) (omega arith)
      (omega arith, (omega arith, (omega arith, (omega arith, (omega arith, tt))))) refl
      (omega arith, tt) (omega arith)

-- The identification behind the first line is lost.
preliminary_line_dropped_example :
    read_ssh_id ((codes "hello" ++ (13 ∷ 10 ∷ (codes "SSH-2.0-x" ++ (13 ∷ 10 ∷ [])))) ∷ []) []
    ≡ read_ssh_id [] []
preliminary_line_dropped_example =
    preliminary_line_dropped b'h' (codes "ello") (codes "SSH-2.0-x" ++ (13 ∷ 10 ∷ [])) []
      (omega arith, (omega arith, (omega arith, (omega arith, tt)))) refl (omega arith)
