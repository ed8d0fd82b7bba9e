-- ===== src/Ui/Dashboard.antt =====
-- The loop of `tui_run` of src/ui/tui.c: when the dashboard ends. Drawing is not modelled.
use l4_maglev_lb.Common.{
  ℕ, Bool, true, false, ◌&&◌, ◌||◌, Option, none, some, List, [], ◌∷◌, ◌==◌, if◌then◌else◌,
}

-- One turn: whether `stop_fd` is ready, the key that is read where there is input, and whether the
-- datapath runs when the turn ends.
pub record Turn : Type 0 where
  pub stop_ready : Bool
  pub key : Option ℕ
  pub dp_running : Bool

abbrev pub is_quit : Option ℕ → Bool
is_quit none = false
is_quit (some ch) = ch == b'q' || ch == b'Q'

-- Whether the loop has ended after these turns; `has_stop_fd` says that `stop_fd` is given.
unfoldable pub tui_run : Bool → List Turn → Bool
tui_run has_stop_fd [] = false
tui_run has_stop_fd (t ∷ ts) =
    let rest = tui_run has_stop_fd ts in
    if has_stop_fd && t.stop_ready
    then true
    else if is_quit t.key
    then true
    else if t.dp_running
    then rest
    else true
