-- ===== src/Backend/Add.antt =====
-- `backend_manager_add`, and the life of a manager from its creation on.
use l4_maglev_lb.Common.{
  ℕ, suc, ◌+◌, ◌≤◌, ◌<◌, ◌≡◌, refl, sym, ◌∙◌, Bool, false, not, none, some, List, [], ◌∷◌, arith,
  ◌==◌, if◌then◌else◌, length, uint32_max, inl, inr, Bool-cases,
}
use l4_maglev_lb.Backend.State.{
  AdminState, Slot, backend_max, BackendManager, backend_manager_create,
}
use l4_maglev_lb.Backend.Manager.{
  index_of, fresh_backend, backend_manager_add, backend_manager_remove, backend_manager_set_health,
  backend_manager_set_admin_state, backend_manager_set_mac, backend_manager_subscribe,
}
use l4_maglev_lb.Backend.View.{view, live, view-add}
use l4_maglev_lb.Backend.Invariant.{
  IsValid, view_new, add-IsValid, remove-IsValid, set_health-IsValid, set_admin_state-IsValid,
  set_mac-IsValid,
}

free_exists :
    (slots : List Slot)
    → length (live slots) < length slots
    → (i : ℕ) × (index_of (λ s. not s.used) slots ≡ some i)
unfolding index_of
free_exists [] h = absurd (omega arith)
free_exists (s ∷ ss) h = elim (Bool-cases s.used) [
  | inl taken ↦ let (i, e) = free_exists ss (ground arith) in (suc i, ground arith)
  | inr free ↦ (0, ground arith)
]

pub length-live : (slots : List Slot) → length (live slots) ≤ length slots
length-live [] = omega arith
length-live (s ∷ ss) = ground (arith, length-live ss)

none_free :
    (slots : List Slot)
    → length (live slots) ≡ length slots
    → index_of (λ s. not s.used) slots ≡ none
unfolding index_of
none_free [] h = refl
none_free (s ∷ ss) h = ground (arith, none_free ss, length-live ss)

module _ (bm : BackendManager) (addr port : ℕ) (valid : IsValid bm) where
  -- In a valid table with a free slot and an id left, the id that `backend_manager_add` returns
  -- was not in use; under it stands one new backend, enabled, healthy and with no address
  -- resolved; all others are as before, and the subscriber, if there is one, is called.
  pub add-reads :
      length (live bm.slots) < backend_max
      → bm.next_id < uint32_max
      → (j : ℕ)
      → ((backend_manager_add bm addr port).1 ≡ bm.next_id)
        × (view bm bm.next_id ≡ none)
        × (view (backend_manager_add bm addr port).0 j
            ≡ (if j == bm.next_id then some (fresh_backend bm.next_id addr port) else view bm j))
        × ((backend_manager_add bm addr port).2 ≡ bm.subscribed)
  unfolding backend_manager_add
  add-reads some_free room j =
      let (i, free) = free_exists bm.slots (omega (arith, valid.size)) in
      let new = view_new bm valid in
      (
        ground arith,
        new,
        ground (arith, view-add bm.slots i (fresh_backend bm.next_id addr port) j free new),
        ground arith,
      )

  -- With all 64 slots of a valid table in use, `backend_manager_add` returns UINT32_MAX, changes
  -- nothing and calls nobody.
  pub add-full :
      length (live bm.slots) ≡ backend_max
      → backend_manager_add bm addr port ≡ (bm, uint32_max, false)
  unfolding backend_manager_add
  add-full full = rw (none_free bm.slots (full ∙ sym valid.size), backend_manager_add)

-- The calls that change the table.
pub data Op : Type 0 where
  add : ℕ → ℕ → Op
  remove : ℕ → Op
  set_health : ℕ → Bool → Op
  set_admin_state : ℕ → AdminState → Op
  set_mac : ℕ → List ℕ → Op
  subscribe : Op

unfoldable pub run_op : Op → BackendManager → BackendManager
unfolding backend_manager_add backend_manager_remove backend_manager_set_health
    backend_manager_set_admin_state backend_manager_set_mac backend_manager_subscribe
run_op (add addr port) bm = (backend_manager_add bm addr port).0
run_op (remove id) bm = (backend_manager_remove bm id).0
run_op (set_health id h) bm = (backend_manager_set_health bm id h).0
run_op (set_admin_state id a) bm = (backend_manager_set_admin_state bm id a).0
run_op (set_mac id mac) bm = (backend_manager_set_mac bm id mac).0
run_op subscribe bm = backend_manager_subscribe bm

unfoldable pub run_ops : List Op → BackendManager → BackendManager
unfolding run_op
run_ops [] bm = bm
run_ops (op ∷ ops) bm = run_ops ops (run_op op bm)

pub run_op-next_id :
    (op : Op) (bm : BackendManager)
    → bm.next_id < uint32_max
    → (run_op op bm).next_id ≤ bm.next_id + 1
unfolding run_op
run_op-next_id (add addr port) bm room = ground arith
run_op-next_id _ bm room = ground arith

pub run_op-IsValid :
    (op : Op) (bm : BackendManager) → bm.next_id < uint32_max → IsValid bm → IsValid (run_op op bm)
unfolding run_op
run_op-IsValid (add addr port) bm room v = add-IsValid bm v addr port room
run_op-IsValid (remove id) bm room v = remove-IsValid bm v id
run_op-IsValid (set_health id h) bm room v = set_health-IsValid bm v id h
run_op-IsValid (set_admin_state id a) bm room v = set_admin_state-IsValid bm v id a
run_op-IsValid (set_mac id mac) bm room v = set_mac-IsValid bm v id mac
run_op-IsValid subscribe bm room v = record {
  size = v.size;
  below = v.below;
  distinct = v.distinct;
  bounded = v.bounded;
}

run_ops-keeps :
    (ops : List Op) (bm : BackendManager)
    → bm.next_id + length ops ≤ uint32_max
    → IsValid bm
    → IsValid (run_ops ops bm)
unfolding run_ops
run_ops-keeps [] bm room v = v
run_ops-keeps (op ∷ ops) bm room v =
    run_ops-keeps ops (run_op op bm) (omega (arith, run_op-next_id op bm (omega arith)))
      (run_op-IsValid op bm (omega arith) v)

pub create-IsValid : IsValid backend_manager_create
unfolding backend_manager_create
create-IsValid = record {
  size = refl;
  below = tt;
  distinct = λ x. omega arith;
  bounded = omega arith;
}

-- Whatever calls are made from creation on, up to UINT32_MAX of them, the table has 64 slots, and
-- its live backends have distinct ids that are below the next one to be given out.
pub run_ops-IsValid :
    (ops : List Op) → length ops ≤ uint32_max → IsValid (run_ops ops backend_manager_create)
unfolding backend_manager_create
run_ops-IsValid ops few = run_ops-keeps ops backend_manager_create (omega arith) create-IsValid
