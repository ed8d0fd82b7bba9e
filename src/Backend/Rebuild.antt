-- ===== src/Backend/Rebuild.antt =====
-- What a rebuild in src/backend/table_generator.c puts in force.
use l4_maglev_lb.Common.{
  ==_iff, All-map, false, ℕ, zero, suc, ◌+◌, ◌^◌, ◌≤◌, ◌<◌, ◌≡◌, refl, sym, ap, subst, Bool, true,
  ◌&&◌, Option, none, some, List, [], ◌∷◌, arith, length, All, count, u64, Bool-cases, &&_true, inl,
  inr, length-map, length-append,
}
use l4_maglev_lb.Net.Key.{FlowKey}
use l4_maglev_lb.Maglev.Prime.{IsPrime}
use l4_maglev_lb.Maglev.Sort.{ids_of}
use l4_maglev_lb.Maglev.Table.{
  BackendView, RoutingSnapshot, is_negative, Alloc, GivenSnapshot, ok, maglev_table_lookup,
  routing_snapshot_find_backend, vacant,
}
use l4_maglev_lb.Maglev.Snapshot.{routing_snapshot_create-routes}
use l4_maglev_lb.Backend.State.{Backend, Slot, BackendManager, backend_max}
use l4_maglev_lb.Backend.Manager.{
  is_eligible, snapshot, backend_manager_snapshot_eligible, backend_manager_snapshot_routable,
}
use l4_maglev_lb.Backend.View.{live}
use l4_maglev_lb.Backend.Invariant.{IsValid}
use l4_maglev_lb.Backend.Snapshots.{ids_in, eligible_routable}
use l4_maglev_lb.Backend.Generator.{
  TableGenerator, to_view, copy_views, retire, install, table_generator_rebuild_and_install,
}

ids_of-copy_views : (bs : List Backend) → ids_of (copy_views bs) ≡ ids_in bs
unfolding copy_views
ids_of-copy_views [] = refl
ids_of-copy_views (b ∷ bs) = ap (λ xs. b.id ∷ xs) (ids_of-copy_views bs)

live-head :
    (n : ℕ) (s : Slot) (ss : List Slot)
    → All (λ b. b.id < n) (live (s ∷ ss))
    → All (λ b. b.id < n) (live ss) × (s.used ≡ true → s.backend.id < n)
live-head n s ss h = ground arith

snapshot-below :
    (p : Backend → Bool) (n room : ℕ) (slots : List Slot)
    → All (λ b. b.id < n) (live slots)
    → All (λ v. v.id < n) (copy_views (snapshot p room slots))
unfolding snapshot copy_views
snapshot-below p n zero slots h = tt
snapshot-below p n (suc room) [] h = tt
snapshot-below p n (suc room) (s ∷ ss) h = elim (Bool-cases (s.used && p s.backend)) [
  | inl taken ↦ rw taken (
    (live-head n s ss h).1 (&&_true s.used (p s.backend) taken).0,
    snapshot-below p n room ss (live-head n s ss h).0,
  )
  | inr skipped ↦ rw skipped (snapshot-below p n (suc room) ss (live-head n s ss h).0)
]

counted-below :
    (n x : ℕ) (vs : List BackendView) → All (λ v. v.id < n) vs → 0 < count x (ids_of vs) → x < n
counted-below n x [] h some_x = absurd (omega arith)
counted-below n x (v ∷ vs) h some_x = ground (arith, counted-below n x vs, ==_iff v.id x)

-- Retiring a snapshot keeps the queue within its capacity, whether or not memory for more is given,
-- and changes neither the snapshot in force nor the generation.
pub retire-keeps :
    (given : Bool) (old : Option RoutingSnapshot) (tg : TableGenerator)
    → length tg.retired ≤ tg.retired_cap
    → (length (retire given old tg).retired ≤ (retire given old tg).retired_cap)
      × ((retire given old tg).active ≡ tg.active)
      × ((retire given old tg).generation ≡ tg.generation)
unfolding retire
retire-keeps given none tg h = (h, refl, refl)
retire-keeps given (some old) tg h = ground (arith, length-append tg.retired (old ∷ []))

retire-active :
    (given : Bool) (old : Option RoutingSnapshot) (tg : TableGenerator)
    → (retire given old tg).active ≡ tg.active
unfolding retire
retire-active given none tg = refl
retire-active given (some old) tg = ground arith

pub retire-generation :
    (given : Bool) (old : Option RoutingSnapshot) (tg : TableGenerator)
    → (retire given old tg).generation ≡ tg.generation
unfolding retire
retire-generation given none tg = refl
retire-generation given (some old) tg = ground arith

-- A flow goes to a backend that may get new flows, under an id that the datapath takes for one, and
-- the snapshot resolves it.
abbrev pub Reaches : (List ℕ → ℕ → ℕ) → BackendManager → RoutingSnapshot → FlowKey → Type 0
Reaches xxh64 bm snap key =
    let id = maglev_table_lookup xxh64 snap.table key in
    (v : BackendView) × (routing_snapshot_find_backend snap id ≡ some v)
    × (v.id ≡ id)
    × (is_negative id ≡ false)
    × (0 < count id (ids_in (backend_manager_snapshot_eligible bm backend_max)))

module _ (xxh64 : List ℕ → ℕ → ℕ) (alloc : Alloc) (given : Bool) (elapsed : ℕ) (bm : BackendManager)
    (tg : TableGenerator) where
  -- A candidate that is resolved has an id below those that have not been given.
  reaches :
      (snap : RoutingSnapshot) (key : FlowKey)
      → bm.next_id ≤ 2 ^ 31
      → All (λ v. v.id < bm.next_id) (copy_views (backend_manager_snapshot_eligible bm backend_max))
      → (v : BackendView) × (routing_snapshot_find_backend snap
            (maglev_table_lookup xxh64 snap.table key)
          ≡ some v)
        × (v.id ≡ maglev_table_lookup xxh64 snap.table key)
        × (0
            < count
                (maglev_table_lookup xxh64 snap.table key)
                (ids_of (copy_views (backend_manager_snapshot_eligible bm backend_max))))
      → Reaches xxh64 bm snap key
  reaches snap key few_ids below (v, found, named, candidate) =
      let eligible = backend_manager_snapshot_eligible bm backend_max in
      let id = maglev_table_lookup xxh64 snap.table key in
      let in_range = counted-below bm.next_id id (copy_views eligible) below candidate in
      (
        v,
        found,
        named,
        ground (arith, in_range, few_ids),
        subst (λ xs. 0 < count id xs) (ids_of-copy_views eligible) candidate,
      )

  -- With memory for it, a valid backend table with an eligible backend in which at most 2^31 ids have
  -- been given, and a prime table size below 2^32, a rebuild puts a snapshot in force that has the
  -- next generation, as the generator then has, and in which every flow is sent to an eligible
  -- backend that the snapshot resolves, under an id that is not negative as an int32_t.
  pub rebuild-routes :
      GivenSnapshot alloc
      → IsValid bm
      → bm.next_id ≤ 2 ^ 31
      → IsPrime tg.m
      → tg.m < 2 ^ 32
      → 0 < length (backend_manager_snapshot_eligible bm backend_max)
      → (snap : RoutingSnapshot) × (tg' : TableGenerator) × (table_generator_rebuild_and_install
            xxh64 alloc given elapsed bm tg
          ≡ ok tg')
        × (tg'.active ≡ some snap)
        × (tg'.generation ≡ u64 (tg.generation + 1))
        × (snap.generation ≡ u64 (tg.generation + 1))
        × ((key : FlowKey) → Reaches xxh64 bm snap key)
  unfolding table_generator_rebuild_and_install retire copy_views backend_manager_snapshot_eligible
  rebuild-routes memory valid few_ids prime small some_e =
      let eligible = backend_manager_snapshot_eligible bm backend_max in
      let routable = backend_manager_snapshot_routable bm backend_max in
      let new_generation = u64 (tg.generation + 1) in
      let below = snapshot-below is_eligible bm.next_id backend_max bm.slots valid.below in
      let (snap, built, same, routes) =
        routing_snapshot_create-routes xxh64 tg.m prime small alloc (copy_views routable)
          (copy_views eligible) new_generation memory (omega (arith, length-map to_view eligible))
          (All-map (λ v. v.id < bm.next_id) (λ v. v.id < vacant) (copy_views eligible)
            (λ v p. omega (arith, valid.bounded)) below)
          (λ x h.
            subst (λ xs. 0 < count x xs) (sym (ids_of-copy_views routable))
              (eligible_routable bm valid x
                (subst (λ xs. 0 < count x xs) (ids_of-copy_views eligible) h))) in
      let next : TableGenerator = record tg {
        active = some snap;
        generation = new_generation;
        last_regen_us = elapsed;
      } in
      (
        snap,
        retire given tg.active next,
        ap (install given elapsed new_generation tg) built,
        retire-active given tg.active next,
        retire-generation given tg.active next,
        same,
        λ key. reaches snap key few_ids below (routes key),
      )
