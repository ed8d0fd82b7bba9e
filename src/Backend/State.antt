-- ===== src/Backend/State.antt =====
-- src/backend/backend.h and the state of src/backend/backend_manager.c. The lock makes each
-- operation one step; the atomic fields are plain values.
use l4_maglev_lb.Common.{ℕ, Bool, true, false, List, [], ◌∷◌, replicate}

pub data AdminState : Type 0 where
  enabled draining disabled : AdminState

-- `a == b` on the enum.
abbrev pub same_state : AdminState → AdminState → Bool
same_state enabled enabled = true
same_state draining draining = true
same_state disabled disabled = true
same_state _ _ = false

abbrev pub same_bool : Bool → Bool → Bool
same_bool true true = true
same_bool false false = true
same_bool _ _ = false

pub record Backend : Type 0 where
  pub id : ℕ
  pub addr : ℕ
  pub port : ℕ
  pub mac : List ℕ
  pub mac_resolved : Bool
  pub healthy : Bool
  pub admin_state : AdminState

-- `slot_used[i]` and `backends[i]`.
pub record Slot : Type 0 where
  pub used : Bool
  pub backend : Backend

abbrev pub backend_max : ℕ
backend_max = 64

-- What `calloc` and `memset` leave.
abbrev pub zero_backend : Backend
zero_backend = record {
  id = 0;
  addr = 0;
  port = 0;
  mac = 0 ∷ 0 ∷ 0 ∷ 0 ∷ 0 ∷ 0 ∷ [];
  mac_resolved = false;
  healthy = false;
  admin_state = enabled;
}

abbrev pub zero_slot : Slot
zero_slot = record { used = false; backend = zero_backend }

-- `subscribed` says that `cb` is set.
pub record BackendManager : Type 0 where
  pub slots : List Slot
  pub next_id : ℕ
  pub subscribed : Bool

unfoldable pub backend_manager_create : BackendManager
backend_manager_create = record {
  slots = replicate backend_max zero_slot;
  next_id = 0;
  subscribed = false;
}
