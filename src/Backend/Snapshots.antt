-- ===== src/Backend/Snapshots.antt =====
-- The three snapshots of the backend manager, as selections from the partial map.
use l4_maglev_lb.Common.{
  not, ◌&&◌, ℕ, zero, suc, ◌≤◌, ◌<◌, ◌≡◌, refl, Bool, true, false, List, [], ◌∷◌, map, arith, ◌==◌,
  if◌then◌else◌, to_nat, length, ==_iff, count,
}
use l4_maglev_lb.Backend.State.{
  enabled, draining, disabled, same_state, Backend, Slot, backend_max, BackendManager,
}
use l4_maglev_lb.Backend.Manager.{
  is_eligible, is_routable, snapshot, backend_manager_snapshot_eligible,
  backend_manager_snapshot_routable, backend_manager_snapshot_all, backend_manager_set_admin_state,
}
use l4_maglev_lb.Backend.View.{view, view_slots, view_count, ids}
use l4_maglev_lb.Backend.Refines.{some_is, set_admin_state-Changes}
use l4_maglev_lb.Backend.Invariant.{IsValid, set_admin_state-IsValid}

abbrev pub ids_in : List Backend → List ℕ
ids_in = map (λ b. b.id)

-- With room for every slot, an id is listed once if its backend passes the test, and else not.
snapshot_count :
    (p : Backend → Bool) (room : ℕ) (slots : List Slot) (x : ℕ)
    → length slots ≤ room
    → count x (ids slots) ≤ 1
    → count x (ids_in (snapshot p room slots)) ≡ to_nat (some_is p (view_slots slots x))
unfolding snapshot view_slots
snapshot_count p zero [] x fits once = refl
snapshot_count p zero (s ∷ ss) x fits once = absurd (omega arith)
snapshot_count p (suc room) [] x fits once = refl
snapshot_count p (suc room) (s ∷ ss) x fits once =
    ground (arith, snapshot_count p room ss x, snapshot_count p (suc room) ss x, view_count ss x)

module _ (bm : BackendManager) (valid : IsValid bm) where
  selects :
      (p : Backend → Bool) (x : ℕ)
      → count x (ids_in (snapshot p backend_max bm.slots)) ≡ to_nat (some_is p (view bm x))
  selects p x =
      snapshot_count p backend_max bm.slots x (omega (arith, valid.size)) (valid.distinct x)

  -- In a valid table, with room for BACKEND_MAX: the snapshot of the candidates for new flows lists
  -- a backend once if it is enabled, healthy and its hardware address is known, and no other; the
  -- snapshot of those that may keep flows lists it once if it is not disabled, healthy and its
  -- address is known, and no other; and the third lists every backend once.
  pub snapshots_select :
      (x : ℕ)
      → (count x (ids_in (backend_manager_snapshot_eligible bm backend_max))
          ≡ to_nat (
              some_is
                (λ b. same_state b.admin_state enabled && (b.healthy && b.mac_resolved))
                (view bm x)))
        × (count x (ids_in (backend_manager_snapshot_routable bm backend_max))
            ≡ to_nat (
                some_is
                  (λ b. not (same_state b.admin_state disabled) && (b.healthy && b.mac_resolved))
                  (view bm x)))
        × (count x (ids_in (backend_manager_snapshot_all bm backend_max))
            ≡ to_nat (some_is (λ b. true) (view bm x)))
  unfolding backend_manager_snapshot_eligible backend_manager_snapshot_routable
      backend_manager_snapshot_all
  snapshots_select x = (selects is_eligible x, selects is_routable x, selects (λ b. true) x)

  -- What may get new flows may also keep old ones.
  pub eligible_routable :
      (x : ℕ)
      → 0 < count x (ids_in (backend_manager_snapshot_eligible bm backend_max))
      → 0 < count x (ids_in (backend_manager_snapshot_routable bm backend_max))
  eligible_routable x h = ground (arith, (snapshots_select x).0, (snapshots_select x).1)

-- In a valid table, draining a backend that is not disabled, or an unknown id, takes it out of the
-- candidates for new flows, and changes neither the other candidates nor who is routable.
pub drain_keeps_routable :
    (bm : BackendManager)
    → IsValid bm
    → (id x : ℕ) → some_is (λ b. same_state b.admin_state disabled) (view bm id) ≡ false
    → (count x (
          ids_in (
            backend_manager_snapshot_eligible
              (backend_manager_set_admin_state bm id draining).0
              backend_max))
        ≡ (if x == id
            then 0
            else count x (ids_in (backend_manager_snapshot_eligible bm backend_max))))
      × (count x (
            ids_in (
              backend_manager_snapshot_routable
                (backend_manager_set_admin_state bm id draining).0
                backend_max))
          ≡ count x (ids_in (backend_manager_snapshot_routable bm backend_max)))
drain_keeps_routable bm valid id x kept =
    let bm' = (backend_manager_set_admin_state bm id draining).0 in
    let before = snapshots_select bm valid x in
    let after = snapshots_select bm' (set_admin_state-IsValid bm valid id draining) x in
    let reads = (set_admin_state-Changes bm id draining).reads x in
    (
      ground (arith, before.0, after.0, reads, ==_iff x id),
      ground (arith, before.1, after.1, reads, kept, ==_iff x id),
    )
