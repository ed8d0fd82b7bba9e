-- ===== src/Backend/Lines.antt =====
-- The lines that `process_admin_fifo` of src/backend/health_checker.c makes of a stream of bytes.
use l4_maglev_lb.Common.{
  ℕ, ◌+◌, ◌<◌, ◌≡◌, ◌≢◌, refl, ap, ◌∙◌, sym, Option, List, [], ◌∷◌, ◌++◌, arith, length, All,
  length-append,
}
use l4_maglev_lb.Backend.State.{BackendManager}
use l4_maglev_lb.Backend.Admin.{
  Admin, admin_line_max, handle_admin_line, admin_byte, process_admin_fifo,
}

-- No byte is a newline.
abbrev pub IsLine : List ℕ → Type 0
IsLine = All (λ c. c ≢ 10)

append_one : (xs : List ℕ) (c : ℕ) (ys : List ℕ) → (xs ++ c ∷ []) ++ ys ≡ xs ++ c ∷ ys
append_one [] c ys = refl
append_one (x ∷ xs) c ys = ap (λ zs. x ∷ zs) (append_one xs c ys)

append_nil : (xs : List ℕ) → xs ++ [] ≡ xs
append_nil [] = refl
append_nil (x ∷ xs) = ap (λ zs. x ∷ zs) (append_nil xs)

module _ (sscanf : List ℕ → Option (List ℕ × ℕ)) where
  -- Whatever bytes are read, a buffer of fewer than 128 bytes stays so: there is always a byte left
  -- for the terminator.
  pub process-bounded :
      (cs : List ℕ) (a : Admin)
      → length a.admin_buf < admin_line_max
      → length (process_admin_fifo sscanf a cs).admin_buf < admin_line_max
  unfolding process_admin_fifo admin_byte
  process-bounded [] a h = h
  process-bounded (c ∷ cs) a h =
      process-bounded cs (admin_byte sscanf a c)
        (ground (arith, length-append a.admin_buf (c ∷ [])))

  collects :
      (line rest : List ℕ) (bm : BackendManager) (buf : List ℕ)
      → IsLine line
      → length buf + length line < admin_line_max
      → process_admin_fifo sscanf (record { bm = bm; admin_buf = buf }) (line ++ rest)
        ≡ process_admin_fifo sscanf (record { bm = bm; admin_buf = buf ++ line }) rest
  unfolding process_admin_fifo admin_byte
  collects [] rest bm buf plain short =
      ap (λ b. process_admin_fifo sscanf (record { bm = bm; admin_buf = b }) rest)
        (sym (append_nil buf))
  collects (c ∷ line) rest bm buf plain short =
      let pushed : admin_byte sscanf (record { bm = bm; admin_buf = buf }) c
          ≡ record { bm = bm; admin_buf = buf ++ c ∷ [] } =
        ground (arith, plain.0) in
      ap (λ a. process_admin_fifo sscanf a (line ++ rest)) pushed
      ∙ (collects line rest bm (buf ++ c ∷ []) plain.1 (omega (arith, length-append buf (c ∷ [])))
          ∙ ap (λ b. process_admin_fifo sscanf (record { bm = bm; admin_buf = b }) rest)
              (append_one buf c line))

  -- From an empty buffer, a line of 1 to 127 bytes with its newline is handed on once, whole; then the
  -- rest is processed with an empty buffer.
  pub process-line :
      (line rest : List ℕ) (bm : BackendManager)
      → IsLine line
      → 0 < length line
      → length line < admin_line_max
      → process_admin_fifo sscanf (record { bm = bm; admin_buf = [] }) (line ++ 10 ∷ rest)
        ≡ process_admin_fifo sscanf
            (record { bm = handle_admin_line sscanf bm line; admin_buf = [] })
            rest
  unfolding process_admin_fifo admin_byte
  process-line line rest bm plain nonempty short =
      collects line (10 ∷ rest) bm [] plain (omega arith)
      ∙ ap (λ b. process_admin_fifo sscanf (record { bm = b; admin_buf = [] }) rest) (ground arith)

  -- From an empty buffer, a line of more than 128 bytes is not dropped as a whole: what follows its
  -- 128th byte, if that is 1 to 127 bytes, is handed on as if it were a line.
  pub process-overlong :
      (junk : List ℕ) (c : ℕ) (tail rest : List ℕ) (bm : BackendManager)
      → IsLine junk
      → length junk + 1 ≡ admin_line_max
      → c ≢ 10
      → IsLine tail
      → 0 < length tail
      → length tail < admin_line_max
      → process_admin_fifo sscanf
          (record { bm = bm; admin_buf = [] })
          (junk ++ c ∷ (tail ++ 10 ∷ rest))
        ≡ process_admin_fifo sscanf
            (record { bm = handle_admin_line sscanf bm tail; admin_buf = [] })
            rest
  unfolding process_admin_fifo admin_byte
  process-overlong junk c tail rest bm plain full other plain' nonempty short =
      let dropped : admin_byte sscanf (record { bm = bm; admin_buf = junk }) c
          ≡ record { bm = bm; admin_buf = [] } =
        ground (arith, other, full) in
      collects junk (c ∷ (tail ++ 10 ∷ rest)) bm [] plain (omega arith)
      ∙ (ap (λ a. process_admin_fifo sscanf a (tail ++ 10 ∷ rest)) dropped
          ∙ process-line tail rest bm plain' nonempty short)
