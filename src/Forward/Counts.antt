-- ===== src/Forward/Counts.antt =====
-- The flow counters of src/stats/stats_registry.c, and how the calls of the datapath change them.
use l4_maglev_lb.Common.{
  ℕ, ◌+◌, ◌^◌, ◌≤◌, ◌<◌, ◌≡◌, ◌≢◌, ◌⊎◌, refl, ap, ◌∙◌, true, inl, inr, arith, ltb, ◌==◌, to_nat,
  length, get_or, length-set, get_or-set_ne, get_or-set_eq, lt→ltb, Bool-cases,
}
use l4_maglev_lb.Maglev.Table.{is_negative}
use l4_maglev_lb.Stats.{
  PerBackend, LbStats, zero_per_backend, plus, minus_one, at_backend, stats_record_backend_packet,
  stats_backend_flow_opened, stats_backend_flow_closed,
}
use l4_maglev_lb.Forward.Datapath.{on_flow_evicted}

abbrev pub flows_of : LbStats → ℕ → ℕ
flows_of s id = (get_or s.backends id zero_per_backend).active_flows

-- Counters for `n` backends.
pub record IsSized (n : ℕ) (s : LbStats) : Type 0 where
  pub size : length s.backends ≡ n
  pub bound : s.max_backends ≡ n

abbrev one_packet : ℕ → PerBackend → PerBackend
one_packet bytes b = record b { packets = plus b.packets 1; bytes = plus b.bytes bytes }

abbrev one_more : PerBackend → PerBackend
one_more b = record b {
  active_flows = plus b.active_flows 1;
  flows_assigned = plus b.flows_assigned 1;
}

abbrev one_less : PerBackend → PerBackend
one_less b = record b { active_flows = minus_one b.active_flows }

at_backend-IsSized :
    (n : ℕ) (s : LbStats) (j : ℕ) (f : PerBackend → PerBackend)
    → IsSized n s
    → IsSized n (at_backend s j f)
at_backend-IsSized n s j f h = elim (Bool-cases (ltb j s.max_backends)) [
  | inl inside ↦ rw inside (record { size = length-set s.backends j _ ∙ h.size; bound = h.bound })
  | inr outside ↦ rw outside h
]

-- A change at one backend, read at one that is there.
at_backend-reads :
    (n : ℕ) (s : LbStats) (j id : ℕ) (f : PerBackend → PerBackend)
    → IsSized n s
    → id < n
    → ((j ≡ id)
        × (flows_of (at_backend s j f) id
            ≡ (f (get_or s.backends id zero_per_backend)).active_flows))
      ⊎ ((j ≢ id) × (flows_of (at_backend s j f) id ≡ flows_of s id))
at_backend-reads n s j id f h p = elim (native.Mathlib.Decide.ℕ_discrete j id) [
  | yes e ↦
      let inside : ltb j s.max_backends ≡ true =
        lt→ltb j s.max_backends (omega (arith, e, h.bound)) in
      inl (
        e,
        rw inside (
            ap (λ b. b.active_flows)
              (get_or-set_eq s.backends j id (f (get_or s.backends j zero_per_backend))
                  zero_per_backend e (omega (arith, e, h.size))
                ∙ ap (λ i. f (get_or s.backends i zero_per_backend)) e)),
      )
  | no ne ↦ inr (
    ne,
    elim (Bool-cases (ltb j s.max_backends)) [
      | inl inside ↦
          rw inside (ap (λ b. b.active_flows) (get_or-set_ne s.backends j id _ zero_per_backend ne))
      | inr outside ↦ rw outside refl
    ],
  )
]

module _ (n : ℕ) (s : LbStats) (h : IsSized n s) where
  -- A packet to a backend leaves its flows alone.
  pub record_packet-flows :
      (j bytes id : ℕ)
      → id < n
      → flows_of (stats_record_backend_packet s j bytes) id ≡ flows_of s id
  unfolding stats_record_backend_packet
  record_packet-flows j bytes id p = elim (at_backend-reads n s j id (one_packet bytes) h p) [
    | inl (e, reads) ↦ reads
    | inr (ne, reads) ↦ reads
  ]

  pub record_packet-IsSized : (j bytes : ℕ) → IsSized n (stats_record_backend_packet s j bytes)
  unfolding stats_record_backend_packet
  record_packet-IsSized j bytes = at_backend-IsSized n s j (one_packet bytes) h

  -- One more for the backend that is named, below 2^64.
  pub opened-flows :
      (j id : ℕ)
      → id < n
      → flows_of s id + 1 < 2 ^ 64
      → flows_of (stats_backend_flow_opened s j) id ≡ flows_of s id + to_nat (j == id)
  unfolding stats_backend_flow_opened
  opened-flows j id p room = elim (at_backend-reads n s j id one_more h p) [
    | inl (e, reads) ↦ ground (arith, e, reads)
    | inr (ne, reads) ↦ ground (arith, ne, reads)
  ]

  pub opened-IsSized : (j : ℕ) → IsSized n (stats_backend_flow_opened s j)
  unfolding stats_backend_flow_opened
  opened-IsSized j = at_backend-IsSized n s j one_more h

  -- One less for the backend that is named, where there is one.
  pub evicted-flows :
      (j id : ℕ)
      → id < n
      → n ≤ 2 ^ 31
      → to_nat (j == id) ≤ flows_of s id
      → flows_of s id < 2 ^ 64
      → flows_of (on_flow_evicted j s) id + to_nat (j == id) ≡ flows_of s id
  unfolding on_flow_evicted stats_backend_flow_closed
  evicted-flows j id p small some_flow fits = elim (Bool-cases (is_negative j)) [
    | inl negative ↦ ground (arith, negative)
    | inr candidate ↦ rw candidate (elim (at_backend-reads n s j id one_less h p) [
      | inl (e, reads) ↦ ground (arith, e, reads)
      | inr (ne, reads) ↦ ground (arith, ne, reads)
    ])
  ]

  pub evicted-IsSized : (j : ℕ) → IsSized n (on_flow_evicted j s)
  unfolding on_flow_evicted stats_backend_flow_closed
  evicted-IsSized j = elim (Bool-cases (is_negative j)) [
    | inl negative ↦ rw negative h
    | inr candidate ↦ rw candidate (at_backend-IsSized n s j one_less h)
  ]
