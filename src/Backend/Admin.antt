-- ===== src/Backend/Admin.antt =====
-- The admin FIFO of src/backend/health_checker.c. `sscanf(line, "%15s %lu", ...)` is an argument:
-- the verb and the number, or nothing where it does not convert both.
use l4_maglev_lb.Common.{
  ℕ, ◌+◌, Bool, true, false, ◌&&◌, Option, none, some, List, [], ◌∷◌, ◌++◌, ltb, ◌==◌,
  if◌then◌else◌, length, u32,
}
use l4_maglev_lb.Backend.State.{BackendManager, enabled, draining}
use l4_maglev_lb.Backend.Manager.{backend_manager_set_admin_state}

abbrev pub admin_line_max : ℕ
admin_line_max = 128

-- `strcmp(a, b) == 0`
abbrev pub same_text : List ℕ → List ℕ → Bool
same_text [] [] = true
same_text (x ∷ xs) (y ∷ ys) = x == y && same_text xs ys
same_text _ _ = false

-- "DRAIN" and "UNDRAIN"
abbrev pub drain_verb : List ℕ
drain_verb = 68 ∷ 82 ∷ 65 ∷ 73 ∷ 78 ∷ []

abbrev pub undrain_verb : List ℕ
undrain_verb = 85 ∷ 78 ∷ 68 ∷ 82 ∷ 65 ∷ 73 ∷ 78 ∷ []

pub record Admin : Type 0 where
  pub bm : BackendManager
  pub admin_buf : List ℕ

module _ (sscanf : List ℕ → Option (List ℕ × ℕ)) where
  abbrev pub scanned : BackendManager → Option (List ℕ × ℕ) → BackendManager
  scanned bm none = bm
  scanned bm (some (verb, id)) =
      if same_text verb drain_verb
      then (backend_manager_set_admin_state bm (u32 id) draining).0
      else if same_text verb undrain_verb
      then (backend_manager_set_admin_state bm (u32 id) enabled).0
      else bm

  unfoldable pub handle_admin_line : BackendManager → List ℕ → BackendManager
  unfolding backend_manager_set_admin_state
  handle_admin_line bm line = scanned bm (sscanf line)

  -- One byte; 10 is the newline.
  unfoldable pub admin_byte : Admin → ℕ → Admin
  unfolding handle_admin_line
  admin_byte a c =
      if c == 10
      then record a {
        bm = if ltb 0 (length a.admin_buf) then handle_admin_line a.bm a.admin_buf else a.bm;
        admin_buf = [];
      }
      else if ltb (length a.admin_buf + 1) admin_line_max
      then record a { admin_buf = a.admin_buf ++ c ∷ [] }
      else record a { admin_buf = [] }

  -- All bytes that the reads give, in order.
  unfoldable pub process_admin_fifo : Admin → List ℕ → Admin
  unfolding admin_byte
  process_admin_fifo a [] = a
  process_admin_fifo a (c ∷ cs) = process_admin_fifo (admin_byte a c) cs
