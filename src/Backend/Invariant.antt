-- ===== src/Backend/Invariant.antt =====
-- The invariant of the backend table, kept by every operation, and `backend_manager_add`.
use l4_maglev_lb.Common.{
  ℕ, zero, suc, ◌+◌, ◌≤◌, ◌<◌, ◌≡◌, refl, inl, inr, Bool, true, false, not, none, some, List, [],
  ◌∷◌, map, arith, ◌==◌, if◌then◌else◌, to_nat, length, get_or, set, count, All, All-map,
  Option-cases, Bool-cases, uint32_max, u32, length-set,
}
use l4_maglev_lb.Backend.State.{
  AdminState, same_bool, same_state, Backend, Slot, zero_slot, backend_max, BackendManager,
}
use l4_maglev_lb.Backend.Manager.{
  holds, index_of, backend_in, store_backend, fresh_backend, backend_manager_add,
  backend_manager_remove, backend_manager_set_health, backend_manager_set_admin_state,
  backend_manager_set_mac,
}
use l4_maglev_lb.Backend.View.{view, view_count, live, ids, index_of-Located}

-- 64 slots; live ids are distinct and below the next id, which is no more than UINT32_MAX.
pub record IsValid (bm : BackendManager) : Type 0 where
  pub size : length bm.slots ≡ backend_max
  pub below : All (λ b. b.id < bm.next_id) (live bm.slots)
  pub distinct : (x : ℕ) → count x (ids bm.slots) ≤ 1
  pub bounded : bm.next_id ≤ uint32_max

-- How often a slot counts for an id.
abbrev weight : ℕ → Slot → ℕ
weight x s = if s.used then to_nat (s.backend.id == x) else 0

ids-set :
    (x : ℕ) (slots : List Slot) (i : ℕ) (s : Slot)
    → i < length slots
    → count x (ids (set slots i s)) + weight x (get_or slots i zero_slot)
      ≡ count x (ids slots) + weight x s
ids-set x [] i s h = absurd (omega arith)
ids-set x (t ∷ ts) zero s h = ground arith
ids-set x (t ∷ ts) (suc i) s h = ground (arith, ids-set x ts i s)

abbrev Below : ℕ → List Slot → Type 0
Below n slots = All (λ b. b.id < n) (live slots)

live-set :
    (n : ℕ) (slots : List Slot) (i : ℕ) (s : Slot)
    → Below n slots
    → (s.used ≡ true → s.backend.id < n)
    → Below n (set slots i s)
live-set n [] i s h p = tt
live-set n (t ∷ ts) zero s h p = ground arith
live-set n (t ∷ ts) (suc i) s h p = ground (arith, live-set n ts i s)

Below-get :
    (n : ℕ) (slots : List Slot) (i : ℕ)
    → Below n slots
    → (get_or slots i zero_slot).used ≡ true
    → (get_or slots i zero_slot).backend.id < n
Below-get n [] i h u = cc
Below-get n (t ∷ ts) zero h u = ground arith
Below-get n (t ∷ ts) (suc i) h u = ground (arith, Below-get n ts i)

Below-mono : (n k : ℕ) (slots : List Slot) → n ≤ k → Below n slots → Below k slots
Below-mono n k slots le h =
    All-map (λ b. b.id < n) (λ b. b.id < k) (live slots) (λ b p. omega arith) h

not_below :
    (x n : ℕ) (bs : List Backend)
    → All (λ b. b.id < n) bs
    → n ≤ x
    → count x (map (λ b. b.id) bs) ≡ 0
not_below x n [] h le = refl
not_below x n (b ∷ bs) h le = ground (arith, not_below x n bs)

pub index_of-free :
    (slots : List Slot) (i : ℕ)
    → index_of (λ s. not s.used) slots ≡ some i
    → (i < length slots) × ((get_or slots i zero_slot).used ≡ false)
unfolding index_of
index_of-free [] i e = cc
index_of-free (s ∷ ss) zero e = ground arith
index_of-free (s ∷ ss) (suc i) e =
    let rest : index_of (λ t. not t.used) ss ≡ some i = ground arith in
    ground (arith, index_of-free ss i rest)

-- `view` is `none` at an id that was never given out.
pub view_new : (bm : BackendManager) → IsValid bm → view bm bm.next_id ≡ none
view_new bm v =
    view_count bm.slots bm.next_id
      (not_below bm.next_id bm.next_id (live bm.slots) v.below (omega arith))

-- Writing a slot keeps the invariant if it counts for no more ids than before.
set-IsValid :
    (bm : BackendManager) (i : ℕ) (s : Slot)
    → IsValid bm
    → i < length bm.slots
    → ((x : ℕ) → weight x s ≤ weight x (get_or bm.slots i zero_slot))
    → (s.used ≡ true → s.backend.id < bm.next_id)
    → IsValid (record bm { slots = set bm.slots i s })
set-IsValid bm i s v h fewer small = record {
  size = rw length-set v.size;
  below = live-set bm.next_id bm.slots i s v.below small;
  distinct = λ x. omega (arith, ids-set x bm.slots i s h, fewer x, v.distinct x);
  bounded = v.bounded;
}

-- So a located backend may be changed in anything but its id.
store-IsValid :
    (bm : BackendManager) (id i : ℕ) (b : Backend)
    → IsValid bm
    → index_of (holds id) bm.slots ≡ some i
    → b.id ≡ (backend_in bm.slots i).id
    → IsValid (store_backend bm i b)
store-IsValid bm id i b v found same =
    let l = index_of-Located id bm.slots i found in
    set-IsValid bm i (record (get_or bm.slots i zero_slot) { backend = b }) v l.inside
      (λ x. ground arith) (λ u. ground (arith, Below-get bm.next_id bm.slots i v.below l.used))

module _ (bm : BackendManager) (v : IsValid bm) where
  pub remove-IsValid : (id : ℕ) → IsValid (backend_manager_remove bm id).0
  unfolding backend_manager_remove
  remove-IsValid id = elim (Option-cases (index_of (holds id) bm.slots)) [
    | inl absent ↦ ground (arith, v)
    | inr (i, found) ↦
        let l = index_of-Located id bm.slots i found in
        let step =
          set-IsValid bm i (record (get_or bm.slots i zero_slot) { used = false }) v l.inside
            (λ x. ground arith) (λ u. cc) in
        rw (found, backend_manager_remove) step
  ]

  pub set_health-IsValid : (id : ℕ) (h : Bool) → IsValid (backend_manager_set_health bm id h).0
  unfolding backend_manager_set_health
  set_health-IsValid id h = elim (Option-cases (index_of (holds id) bm.slots)) [
    | inl absent ↦ rw (absent, backend_manager_set_health) v
    | inr (i, found) ↦
        let b = backend_in bm.slots i in
        let step = store-IsValid bm id i (record b { healthy = h }) v found refl in
        elim (Bool-cases (same_bool b.healthy h)) [
          | inl same ↦ rw (found, backend_manager_set_health, same) v
          | inr other ↦ rw (found, backend_manager_set_health, other) step
        ]
  ]

  pub set_admin_state-IsValid :
      (id : ℕ) (a : AdminState) → IsValid (backend_manager_set_admin_state bm id a).0
  unfolding backend_manager_set_admin_state
  set_admin_state-IsValid id a = elim (Option-cases (index_of (holds id) bm.slots)) [
    | inl absent ↦ rw (absent, backend_manager_set_admin_state) v
    | inr (i, found) ↦
        let b = backend_in bm.slots i in
        let step = store-IsValid bm id i (record b { admin_state = a }) v found refl in
        elim (Bool-cases (same_state b.admin_state a)) [
          | inl same ↦ rw (found, backend_manager_set_admin_state, same) v
          | inr other ↦ rw (found, backend_manager_set_admin_state, other) step
        ]
  ]

  pub set_mac-IsValid : (id : ℕ) (mac : List ℕ) → IsValid (backend_manager_set_mac bm id mac).0
  unfolding backend_manager_set_mac
  set_mac-IsValid id mac = elim (Option-cases (index_of (holds id) bm.slots)) [
    | inl absent ↦ rw (absent, backend_manager_set_mac) v
    | inr (i, found) ↦
        let b = backend_in bm.slots i in
        rw (found, backend_manager_set_mac)
          (store-IsValid bm id i (record b { mac = mac; mac_resolved = true }) v found refl)
  ]

  pub add-IsValid :
      (addr port : ℕ) → bm.next_id < uint32_max → IsValid (backend_manager_add bm addr port).0
  unfolding backend_manager_add
  add-IsValid addr port room = elim (Option-cases (index_of (λ s. not s.used) bm.slots)) [
    | inl full ↦ rw (full, backend_manager_add) v
    | inr (i, free) ↦
        let (inside, unused) = index_of-free bm.slots i free in
        let s : Slot = record { used = true; backend = fresh_backend bm.next_id addr port } in
        let wraps : u32 (bm.next_id + 1) ≡ bm.next_id + 1 = omega arith in
        let new : (x : ℕ) → count x (ids (set bm.slots i s)) ≤ 1 = λ x. ground (
          arith,
          ids-set x bm.slots i s inside,
          v.distinct x,
          not_below x bm.next_id (live bm.slots) v.below,
        ) in
        rw (free, backend_manager_add, wraps)
          (record {
            size = rw length-set v.size;
            below =
                live-set (bm.next_id + 1) bm.slots i s
                  (Below-mono bm.next_id (bm.next_id + 1) bm.slots (omega arith) v.below)
                  (λ u. omega arith);
            distinct = new;
            bounded = omega arith;
          })
  ]
