-- ===== src/Ui/Eligible.antt =====
-- The number of eligible backends in the text of src/ui/metrics_http.c.
use l4_maglev_lb.Common.{
  ℕ, zero, suc, ◌≤◌, ◌≡◌, refl, sym, ap, ◌∙◌, Bool, true, ◌&&◌, List, [], ◌∷◌, arith, inl, inr,
  length, Bool-cases,
}
use l4_maglev_lb.Backend.State.{Backend, Slot, backend_max, enabled, same_state}
use l4_maglev_lb.Backend.Manager.{
  is_eligible, snapshot, backend_manager_snapshot_all, backend_manager_snapshot_eligible,
}
use l4_maglev_lb.Ui.Metrics.{MetricsHttp, all_backends, count_eligible}

eligible_test :
    (b : Backend)
    → (b.healthy && (b.mac_resolved && same_state b.admin_state enabled)) ≡ is_eligible b
eligible_test b = ground arith

snapshot-room :
    (p : Backend → Bool) (room : ℕ) (slots : List Slot)
    → length slots ≤ room
    → snapshot p (suc room) slots ≡ snapshot p room slots
unfolding snapshot
snapshot-room p zero [] fits = refl
snapshot-room p zero (s ∷ ss) fits = absurd (omega arith)
snapshot-room p (suc room) [] fits = refl
snapshot-room p (suc room) (s ∷ ss) fits = elim (Bool-cases (s.used && p s.backend)) [
  | inl taken ↦ rw taken (ap (λ bs. s.backend ∷ bs) (snapshot-room p room ss (omega (arith, fits))))
  | inr skipped ↦ rw skipped (snapshot-room p (suc room) ss (omega (arith, fits)))
]

counted :
    (room : ℕ) (slots : List Slot)
    → length slots ≤ room
    → count_eligible (snapshot (λ b. true) room slots) ≡ length (snapshot is_eligible room slots)
unfolding count_eligible snapshot
counted zero [] fits = refl
counted zero (s ∷ ss) fits = absurd (omega arith)
counted (suc room) [] fits = refl
counted (suc room) (s ∷ ss) fits = elim (Bool-cases s.used) [
  | inr unused ↦ let rest = counted (suc room) ss (omega (arith, fits)) in rw unused rest
  | inl used ↦ elim (Bool-cases (is_eligible s.backend)) [
    | inl good ↦
        let rest = counted room ss (omega (arith, fits)) in
        rw (used, good) (rw (eligible_test s.backend, good) (ap suc rest))
    | inr bad ↦
        let rest = counted room ss (omega (arith, fits)) in
        rw (used, bad)
          (rw (eligible_test s.backend, bad)
            (rest ∙ ap length (sym (snapshot-room is_eligible room ss (omega (arith, fits))))))
  ]
]

-- The number of eligible backends that is served is the number of candidates that a rebuild of the
-- table at that moment would have.
pub count_eligible-length :
    (m : MetricsHttp)
    → length m.bm.slots ≡ backend_max
    → count_eligible (all_backends m) ≡ length (backend_manager_snapshot_eligible m.bm backend_max)
unfolding all_backends backend_manager_snapshot_all backend_manager_snapshot_eligible
count_eligible-length m size = counted backend_max m.bm.slots (omega (arith, size))
