-- ===== src/Backend/Refines.antt =====
-- The operations of the backend manager against the partial map from ids to backends.
use l4_maglev_lb.Common.{
  ℕ, ◌≤◌, ◌≡◌, inl, inr, Bool, true, false, not, ◌&&◌, Option, none, some, List, arith, ◌==◌,
  if◌then◌else◌, count, Option-cases, ==_iff,
}
use l4_maglev_lb.Backend.State.{AdminState, same_state, same_bool, Backend, BackendManager}
use l4_maglev_lb.Backend.Manager.{
  holds, index_of, backend_in, backend_manager_remove, backend_manager_set_health,
  backend_manager_set_admin_state, backend_manager_set_mac,
}
use l4_maglev_lb.Backend.View.{view, ids, index_of-none, index_of-Located, view-store, view-free}

-- An update of the value under one id.
abbrev pub update_at : ℕ → (Backend → Backend) → (ℕ → Option Backend) → ℕ → Option Backend
update_at id f m j = if j == id then elim (m j) [ none ↦ none | some b ↦ some (f b) ] else m j

-- The value under one id, and whether it passes a test.
abbrev pub some_is : (Backend → Bool) → Option Backend → Bool
some_is p none = false
some_is p (some b) = p b

same_bool-eq : (a b : Bool) → same_bool a b ≡ true → a ≡ b
same_bool-eq a b h = ground arith

same_state-eq : (a b : AdminState) → same_state a b ≡ true → a ≡ b
same_state-eq a b h = ground arith

-- What a change of one backend does: the map is updated under the id, the result says whether
-- there was something to change, and the subscriber hears of exactly those calls.
pub record Changes (bm : BackendManager) (id : ℕ) (f : Backend → Backend) (changes : Backend → Bool)
    (r : BackendManager × Bool × Bool) : Type 0 where
  pub reads : (j : ℕ) → view r.0 j ≡ update_at id f (view bm) j
  pub returns : r.1 ≡ some_is changes (view bm id)
  pub notifies : r.2 ≡ r.1 && bm.subscribed

module _ (bm : BackendManager) (id : ℕ) where
  -- `backend_manager_set_health` sets the health of the backend under the id, if there is one, and
  -- leaves every other backend alone; it returns true, and calls the subscriber, exactly if that
  -- backend exists with another health.
  pub set_health-Changes :
      (h : Bool)
      → Changes bm id
          (λ b. record b { healthy = h })
          (λ b. not (same_bool b.healthy h))
          (backend_manager_set_health bm id h)
  unfolding backend_manager_set_health
  set_health-Changes h = elim (Option-cases (index_of (holds id) bm.slots)) [
    | inl absent ↦
        let nothing = index_of-none id bm.slots absent in
        record {
          reads = λ j. ground (arith, ==_iff j id);
          returns = ground arith;
          notifies = ground arith;
        }
    | inr (i, found) ↦
        let l = index_of-Located id bm.slots i found in
        let b = backend_in bm.slots i in
        record {
          reads = λ j. ground (
            arith,
            ==_iff j id,
            l.reads,
            view-store bm.slots id i (record b { healthy = h }) j found l.same,
            same_bool-eq b.healthy h,
          );
          returns = ground (arith, l.reads);
          notifies = ground arith;
        }
  ]

  -- `backend_manager_set_admin_state` sets the admin state of the backend under the id, if there is
  -- one, and leaves every other backend alone; it returns true, and calls the subscriber, exactly if
  -- that backend exists with another admin state.
  pub set_admin_state-Changes :
      (a : AdminState)
      → Changes bm id
          (λ b. record b { admin_state = a })
          (λ b. not (same_state b.admin_state a))
          (backend_manager_set_admin_state bm id a)
  unfolding backend_manager_set_admin_state
  set_admin_state-Changes a = elim (Option-cases (index_of (holds id) bm.slots)) [
    | inl absent ↦
        let nothing = index_of-none id bm.slots absent in
        record {
          reads = λ j. ground (arith, ==_iff j id);
          returns = ground arith;
          notifies = ground arith;
        }
    | inr (i, found) ↦
        let l = index_of-Located id bm.slots i found in
        let b = backend_in bm.slots i in
        record {
          reads = λ j. ground (
            arith,
            ==_iff j id,
            l.reads,
            view-store bm.slots id i (record b { admin_state = a }) j found l.same,
            same_state-eq b.admin_state a,
          );
          returns = ground (arith, l.reads);
          notifies = ground arith;
        }
  ]

  -- `backend_manager_set_mac` stores the address and marks it resolved under a known id, changes no
  -- other backend, and calls the subscriber exactly if the id is known.
  pub set_mac-reads :
      (mac : List ℕ) (j : ℕ)
      → (view (backend_manager_set_mac bm id mac).0 j
          ≡ update_at id (λ b. record b { mac = mac; mac_resolved = true }) (view bm) j)
        × ((backend_manager_set_mac bm id mac).1
            ≡ some_is (λ b. true) (view bm id) && bm.subscribed)
  unfolding backend_manager_set_mac
  set_mac-reads mac j = elim (Option-cases (index_of (holds id) bm.slots)) [
    | inl absent ↦
        let nothing = index_of-none id bm.slots absent in
        (ground (arith, ==_iff j id), ground arith)
    | inr (i, found) ↦
        let l = index_of-Located id bm.slots i found in
        let b = backend_in bm.slots i in
        (
          ground (
            arith,
            ==_iff j id,
            l.reads,
            view-store bm.slots id i (record b { mac = mac; mac_resolved = true }) j found l.same,
          ),
          ground (arith, l.reads),
        )
  ]

  -- If no two live backends share the id, `backend_manager_remove` takes it out of the map and
  -- leaves the rest; it succeeds, and calls the subscriber, exactly if the id was known.
  pub remove-reads :
      count id (ids bm.slots) ≤ 1
      → (j : ℕ)
      → (view (backend_manager_remove bm id).0 j ≡ (if j == id then none else view bm j))
        × ((backend_manager_remove bm id).1 ≡ some_is (λ b. true) (view bm id))
        × ((backend_manager_remove bm id).2 ≡ (backend_manager_remove bm id).1 && bm.subscribed)
  unfolding backend_manager_remove
  remove-reads once j = elim (Option-cases (index_of (holds id) bm.slots)) [
    | inl absent ↦
        let nothing = index_of-none id bm.slots absent in
        (ground (arith, ==_iff j id), ground arith, ground arith)
    | inr (i, found) ↦
        let l = index_of-Located id bm.slots i found in
        (
          ground (arith, l.reads, view-free bm.slots id i j found once),
          ground (arith, l.reads),
          ground arith,
        )
  ]
