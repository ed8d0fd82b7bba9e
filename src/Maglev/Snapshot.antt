-- ===== src/Maglev/Snapshot.antt =====
-- The routing snapshot: what the table names can always be resolved in the snapshot's backends.
use native.Mathlib.Nat.{mod-lt}
use l4_maglev_lb.Common.{
  ℕ, ◌^◌, ◌<◌, ◌≡◌, refl, ap, ◌∙◌, inl, inr, some, List, [], ◌∷◌, true, arith, ◌==◌, length, find?,
  count, Bool-cases,
}
use l4_maglev_lb.Net.Key.{FlowKey}
use l4_maglev_lb.Maglev.Prime.{IsPrime}
use l4_maglev_lb.Maglev.Hash.{flow_hash}
use l4_maglev_lb.Maglev.Table.{
  BackendView, MaglevTable, RoutingSnapshot, Alloc, GivenSnapshot, ok, with_table,
  maglev_table_lookup, routing_snapshot_find_backend, routing_snapshot_create,
}
use l4_maglev_lb.Maglev.Sort.{ids_of}
use l4_maglev_lb.Maglev.Start.{ProperIds, IsFull}
use l4_maglev_lb.Maglev.Generate.{maglev_table_generate-IsFull}

-- Every candidate is routable, by id.
abbrev pub Covers : List BackendView → List BackendView → Type 0
Covers routable candidates =
    (x : ℕ) → 0 < count x (ids_of candidates) → 0 < count x (ids_of routable)

find?-id :
    (x : ℕ) (vs : List BackendView)
    → 0 < count x (ids_of vs)
    → (v : BackendView) × (find? (λ w. w.id == x) vs ≡ some v) × (v.id ≡ x)
find?-id x [] h = absurd (omega arith)
find?-id x (v ∷ vs) h = elim (Bool-cases (v.id == x)) [
  | inl here ↦ (v, rw here, ground arith)
  | inr there ↦ let (w, e, same) = find?-id x vs (ground arith) in (w, rw there e, same)
]

module _ (xxh64 : List ℕ → ℕ → ℕ) (m : ℕ) (prime : IsPrime m) (small : m < 2 ^ 32) where
  -- The table sends every flow to one of its candidates.
  lookup-candidate :
      (candidates : List BackendView) (t : MaglevTable) (key : FlowKey)
      → IsFull m candidates t
      → 0 < count (maglev_table_lookup xxh64 t key) (ids_of candidates)
  unfolding maglev_table_lookup
  lookup-candidate candidates t key full = full.assigned _ (
      omega (
        arith,
        full.size,
        prime.two-le,
        mod-lt (flow_hash xxh64 key) {m = m} (omega (arith, prime.two-le)),
      ))

  -- Over a prime table size below 2 ^ 32, with memory for it, a snapshot with at least one
  -- candidate, whose candidates have ids below 2 ^ 32 - 1 and are all routable, is created with
  -- the given generation, and sends every flow to a candidate that it can resolve: the lookup and
  -- `routing_snapshot_find_backend` succeed together.
  pub routing_snapshot_create-routes :
      (alloc : Alloc) (routable candidates : List BackendView) (generation : ℕ)
      → GivenSnapshot alloc
      → 0 < length candidates
      → ProperIds candidates
      → Covers routable candidates
      → (snap : RoutingSnapshot) × (routing_snapshot_create xxh64 alloc routable candidates m
            generation
          ≡ ok snap)
        × (snap.generation ≡ generation)
        × ((key : FlowKey)
            → (v : BackendView) × (routing_snapshot_find_backend snap
                  (maglev_table_lookup xxh64 snap.table key)
                ≡ some v)
              × (v.id ≡ maglev_table_lookup xxh64 snap.table key)
              × (0 < count (maglev_table_lookup xxh64 snap.table key) (ids_of candidates)))
  unfolding routing_snapshot_create routing_snapshot_find_backend
  routing_snapshot_create-routes alloc routable candidates generation given some_c proper covers =
      let (t, run, full) =
        maglev_table_generate-IsFull xxh64 m prime small alloc candidates given.0 some_c proper in
      (
        record { table = t; backends = routable; generation = generation },
        ap (with_table alloc routable generation) run
            ∙ copies alloc routable generation t given.1 given.2,
        refl,
        λ key.
            let candidate = lookup-candidate candidates t key full in
            let (v, found, same) = find?-id _ routable (covers _ candidate) in
            (v, found, same, candidate),
      )
    where
      copies :
          (alloc : Alloc) (routable : List BackendView) (generation : ℕ) (t : MaglevTable)
          → alloc.snapshot ≡ true
          → alloc.copy ≡ true
          → with_table alloc routable generation (ok t)
            ≡ ok (record { table = t; backends = routable; generation = generation })
      copies alloc [] generation t h k = rw h
      copies alloc (v ∷ vs) generation t h k = rw (h, k)
