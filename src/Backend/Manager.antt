-- ===== src/Backend/Manager.antt =====
-- The operations of src/backend/backend_manager.c. Each returns the new state, what the function
-- returns, and whether `notify` called the subscriber.
use l4_maglev_lb.Common.{
  ℕ, zero, suc, ◌+◌, Bool, true, false, not, ◌&&◌, Option, none, some, List, [], ◌∷◌, ◌==◌,
  if◌then◌else◌, get_or, set, u32, uint32_max,
}
use l4_maglev_lb.Backend.State.{
  AdminState, enabled, disabled, same_state, same_bool, Backend, Slot, zero_backend, zero_slot,
  BackendManager,
}

-- `slot_used[i] && backends[i].id == id`
abbrev pub holds : ℕ → Slot → Bool
holds id s = s.used && s.backend.id == id

-- The index of the first slot that passes a test: the searches for an id and for a free slot.
unfoldable pub index_of : (Slot → Bool) → List Slot → Option ℕ
index_of p [] = none
index_of p (s ∷ ss) =
    let rest = index_of p ss in
    if p s then some 0 else elim rest [ none ↦ none | some i ↦ some (suc i) ]

unfoldable pub find_slot : BackendManager → ℕ → Option ℕ
unfolding index_of
find_slot bm id = index_of (holds id) bm.slots

abbrev pub backend_in : List Slot → ℕ → Backend
backend_in slots i = (get_or slots i zero_slot).backend

-- A write to `*b`, where `b` is the backend of slot `i`.
abbrev pub store_backend : BackendManager → ℕ → Backend → BackendManager
store_backend bm i b = record bm {
  slots = set bm.slots i (record (get_or bm.slots i zero_slot) { backend = b });
}

-- `notify`: the callback runs if one is set.
abbrev pub notify : BackendManager → Bool → Bool
notify bm changed = changed && bm.subscribed

-- The backend that `backend_manager_add` puts into the free slot.
abbrev pub fresh_backend : ℕ → ℕ → ℕ → Backend
fresh_backend id addr port = record zero_backend {
  id = id;
  addr = addr;
  port = port;
  mac_resolved = false;
  healthy = true;
  admin_state = enabled;
}

unfoldable pub backend_manager_add : BackendManager → ℕ → ℕ → BackendManager × ℕ × Bool
unfolding index_of
backend_manager_add bm addr port = elim (index_of (λ s. not s.used) bm.slots) [
  | none ↦ (bm, uint32_max, false)
  | some i ↦
      let id = bm.next_id in
      (
        record bm {
          slots = set bm.slots i (record { used = true; backend = fresh_backend id addr port });
          next_id = u32 (id + 1);
        },
        id,
        notify bm (not (id == uint32_max)),
      )
]

-- 0 is `true` here, and -1 is `false`.
unfoldable pub backend_manager_remove : BackendManager → ℕ → BackendManager × Bool × Bool
unfolding find_slot
backend_manager_remove bm id = elim (find_slot bm id) [
  | none ↦ (bm, false, false)
  | some i ↦ (
    record bm { slots = set bm.slots i (record (get_or bm.slots i zero_slot) { used = false }) },
    true,
    notify bm true,
  )
]

unfoldable pub backend_manager_set_health : BackendManager → ℕ → Bool → BackendManager × Bool × Bool
unfolding find_slot
backend_manager_set_health bm id healthy = elim (find_slot bm id) [
  | none ↦ (bm, false, false)
  | some i ↦
      let b = backend_in bm.slots i in
      if same_bool b.healthy healthy
      then (bm, false, false)
      else (store_backend bm i (record b { healthy = healthy }), true, notify bm true)
]

unfoldable pub backend_manager_set_admin_state :
    BackendManager → ℕ → AdminState → BackendManager × Bool × Bool
unfolding find_slot
backend_manager_set_admin_state bm id state = elim (find_slot bm id) [
  | none ↦ (bm, false, false)
  | some i ↦
      let b = backend_in bm.slots i in
      if same_state b.admin_state state
      then (bm, false, false)
      else (store_backend bm i (record b { admin_state = state }), true, notify bm true)
]

unfoldable pub backend_manager_set_mac : BackendManager → ℕ → List ℕ → BackendManager × Bool
unfolding find_slot
backend_manager_set_mac bm id mac = elim (find_slot bm id) [
  | none ↦ (bm, false)
  | some i ↦
      let b = backend_in bm.slots i in
      (store_backend bm i (record b { mac = mac; mac_resolved = true }), notify bm true)
]

unfoldable pub backend_manager_subscribe : BackendManager → BackendManager
backend_manager_subscribe bm = record bm { subscribed = true }

-- The loop of the three snapshots, `i < BACKEND_MAX && n < out_cap`.
unfoldable pub snapshot : (Backend → Bool) → ℕ → List Slot → List Backend
snapshot p zero slots = []
snapshot p (suc room) [] = []
snapshot p (suc room) (s ∷ ss) =
    let taken = s.backend ∷ snapshot p room ss in
    let skipped = snapshot p (suc room) ss in if s.used && p s.backend then taken else skipped

abbrev pub is_eligible : Backend → Bool
is_eligible b = same_state b.admin_state enabled && (b.healthy && b.mac_resolved)

abbrev pub is_routable : Backend → Bool
is_routable b = not (same_state b.admin_state disabled) && (b.healthy && b.mac_resolved)

unfoldable pub backend_manager_snapshot_eligible : BackendManager → ℕ → List Backend
unfolding snapshot
backend_manager_snapshot_eligible bm out_cap = snapshot is_eligible out_cap bm.slots

unfoldable pub backend_manager_snapshot_routable : BackendManager → ℕ → List Backend
unfolding snapshot
backend_manager_snapshot_routable bm out_cap = snapshot is_routable out_cap bm.slots

unfoldable pub backend_manager_snapshot_all : BackendManager → ℕ → List Backend
unfolding snapshot
backend_manager_snapshot_all bm out_cap = snapshot (λ b. true) out_cap bm.slots
