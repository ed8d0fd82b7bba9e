-- ===== src/Backend/Reclaim.antt =====
-- The life of the snapshots of src/backend/table_generator.c: the rebuilds of the health checker's
-- thread, and the calls of `table_generator_reclaim` by the reader's thread, in any order.
use mathlib.Core.List.{append_assoc, append-nil}
use l4_maglev_lb.Common.{
  ℕ, suc, ◌+◌, ◌^◌, ◌≤◌, ◌<◌, ◌≡◌, refl, sym, ◌∙◌, subst, Bool, true, false, Option, none, some,
  List, [], ◌∷◌, ◌++◌, arith, length, All, All-map, u64, ltb,
}
use l4_maglev_lb.Maglev.Table.{
  BackendView, RoutingSnapshot, MaglevTable, Alloc, Result, ok, null, stuck, with_table,
  routing_snapshot_create,
}
use l4_maglev_lb.Backend.State.{BackendManager}
use l4_maglev_lb.Backend.Rebuild.{retire-generation}
use l4_maglev_lb.Backend.Generator.{
  TableGenerator, grown_cap, retire, install, table_generator_create,
  table_generator_rebuild_and_install, table_generator_reclaim,
}

-- A call of either thread, with what its allocations and the clock give.
pub data GeneratorCall : Type 0 where
  rebuild : Alloc → Bool → ℕ → BackendManager → GeneratorCall
  reclaim : GeneratorCall

-- The generator, and what has been freed, in that order.
pub record Lives : Type 0 where
  pub tg : TableGenerator
  pub freed : List RoutingSnapshot

-- A rebuild that fails leaves the generator alone.
abbrev pub rebuilt : TableGenerator → Result TableGenerator → TableGenerator
rebuilt tg (ok tg') = tg'
rebuilt tg null = tg
rebuilt tg stuck = tg

module _ (xxh64 : List ℕ → ℕ → ℕ) where
  unfoldable pub call : GeneratorCall → Lives → Lives
  unfolding table_generator_reclaim table_generator_rebuild_and_install
  call (rebuild alloc given elapsed bm) s = record s {
    tg = rebuilt s.tg (table_generator_rebuild_and_install xxh64 alloc given elapsed bm s.tg);
  }
  call reclaim s =
      let (tg, released) = table_generator_reclaim s.tg in
      record { tg = tg; freed = s.freed ++ released }

  unfoldable pub call_all : List GeneratorCall → Lives → Lives
  unfolding call
  call_all [] s = s
  call_all (c ∷ cs) s = call_all cs (call c s)

-- The snapshots that readers can no longer get, in the order in which they were swapped out.
abbrev pub gone : Lives → List RoutingSnapshot
gone s = s.freed ++ s.tg.retired

abbrev pub Before : ℕ → List RoutingSnapshot → Type 0
Before g = All (λ s. s.generation < g)

abbrev pub Ascending : List RoutingSnapshot → Type 0
Ascending [] = Unit
Ascending (s ∷ ss) = All (λ t. s.generation < t.generation) ss × Ascending ss

-- The snapshot in force has the generator's generation, and all that are gone an earlier one.
abbrev pub InForce : Option RoutingSnapshot → ℕ → List RoutingSnapshot → Type 0
InForce none g old = Before (suc g) old
InForce (some s) g old = (s.generation ≡ g) × Before g old

-- No two snapshots that are freed or queued are the same, nor is one of them in force.
pub record Safe (s : Lives) : Type 0 where
  pub ascending : Ascending (gone s)
  pub in_force : InForce s.tg.active s.tg.generation (gone s)

Before-suc : (g : ℕ) (ss : List RoutingSnapshot) → Before g ss → Before (suc g) ss
Before-suc g ss h =
    All-map (λ s. s.generation < g) (λ s. s.generation < suc g) ss (λ s p. omega arith) h

Before-append :
    (g : ℕ) (ss : List RoutingSnapshot) (s : RoutingSnapshot)
    → Before g ss
    → s.generation < g
    → Before g (ss ++ s ∷ [])
Before-append g [] s h p = (p, tt)
Before-append g (t ∷ ss) s h p = (h.0, Before-append g ss s h.1 p)

after-append :
    (g : ℕ) (ss : List RoutingSnapshot) (s : RoutingSnapshot)
    → All (λ t. g < t.generation) ss
    → g < s.generation
    → All (λ t. g < t.generation) (ss ++ s ∷ [])
after-append g [] s h p = (p, tt)
after-append g (t ∷ ss) s h p = (h.0, after-append g ss s h.1 p)

Ascending-append :
    (ss : List RoutingSnapshot) (s : RoutingSnapshot)
    → Ascending ss
    → Before s.generation ss
    → Ascending (ss ++ s ∷ [])
Ascending-append [] s h b = (tt, tt)
Ascending-append (t ∷ ss) s h b =
    (after-append t.generation ss s h.0 b.0, Ascending-append ss s h.1 b.1)

-- A snapshot that is made has the generation that it is given.
with_table-generation :
    (alloc : Alloc) (routable : List BackendView) (g : ℕ) (r : Result MaglevTable)
    (snap : RoutingSnapshot)
    → with_table alloc routable g r ≡ ok snap
    → snap.generation ≡ g
with_table-generation alloc routable g null snap e = ground arith
with_table-generation alloc routable g stuck snap e = ground arith
with_table-generation alloc routable g (ok table) snap e = ground arith

-- A snapshot of the next generation goes in force.
module _ (s : Lives) (h : Safe s) (snap : RoutingSnapshot)
    (next : snap.generation ≡ suc s.tg.generation) where
  abbrev swapped : ℕ → TableGenerator
  swapped elapsed = record s.tg {
    active = some snap;
    generation = suc s.tg.generation;
    last_regen_us = elapsed;
  }

  retire-Safe :
      (given : Bool) (elapsed : ℕ)
      → Safe (record s { tg = retire given s.tg.active (swapped elapsed) })
  unfolding retire
  retire-Safe given elapsed = by_cases s.tg.active h.in_force
    where
      all_of : Option RoutingSnapshot → Lives
      all_of active = record s { tg = retire given active (swapped elapsed) }

      queued :
          (old : RoutingSnapshot) (room : Bool)
          → ltb (length s.tg.retired) (grown_cap given (swapped elapsed)) ≡ room
          → (old.generation ≡ s.tg.generation) × Before s.tg.generation (gone s)
          → Safe (all_of (some old))
      queued old true room (same, below) =
          let longer = append_assoc s.freed s.tg.retired (old ∷ []) in
          let ascending =
            Ascending-append (gone s) old h.ascending
              (subst (λ g. Before g (gone s)) (sym same) below) in
          let before =
            Before-append (suc s.tg.generation) (gone s) old
              (Before-suc s.tg.generation (gone s) below) (omega (arith, same)) in
          rw room (record {
            ascending = subst Ascending longer ascending;
            in_force = (next, subst (Before (suc s.tg.generation)) longer before);
          })
      queued old false room (same, below) = rw room (record {
        ascending = h.ascending;
        in_force = (next, Before-suc s.tg.generation (gone s) below);
      })

      by_cases :
          (active : Option RoutingSnapshot)
          → InForce active s.tg.generation (gone s)
          → Safe (all_of active)
      by_cases none below = record { ascending = h.ascending; in_force = (next, below) }
      by_cases (some old) below = queued old _ refl below

install-Safe :
    (given : Bool) (elapsed g : ℕ) (s : Lives) (r : Result RoutingSnapshot)
    → ((snap : RoutingSnapshot) → r ≡ ok snap → snap.generation ≡ g)
    → g ≡ suc s.tg.generation
    → Safe s
    → Safe (record s { tg = rebuilt s.tg (install given elapsed g s.tg r) })
install-Safe given elapsed g s null made e h = h
install-Safe given elapsed g s stuck made e h = h
install-Safe given elapsed g s (ok snap) made e h =
    rw e (retire-Safe s h snap (made snap refl ∙ e) given elapsed)

-- The counter of generations does not pass the number of rebuilds.
install-generation :
    (given : Bool) (elapsed g : ℕ) (tg : TableGenerator) (r : Result RoutingSnapshot)
    → g ≤ suc tg.generation
    → (rebuilt tg (install given elapsed g tg r)).generation ≤ suc tg.generation
install-generation given elapsed g tg null h = omega arith
install-generation given elapsed g tg stuck h = omega arith
install-generation given elapsed g tg (ok snap) h =
    rw
      (retire-generation given tg.active
        (record tg { active = some snap; generation = g; last_regen_us = elapsed }))
      h

module _ (xxh64 : List ℕ → ℕ → ℕ) where
  call-Safe :
      (c : GeneratorCall) (s : Lives)
      → suc s.tg.generation < 2 ^ 64
      → Safe s
      → Safe (call xxh64 c s)
  unfolding call table_generator_reclaim table_generator_rebuild_and_install routing_snapshot_create
  call-Safe (rebuild alloc given elapsed bm) s small h =
      install-Safe given elapsed (u64 (s.tg.generation + 1)) s _
        (λ snap. with_table-generation alloc _ (u64 (s.tg.generation + 1)) _ snap)
        (omega (arith, small)) h
  call-Safe reclaim s small h =
      let released = append-nil (gone s) in
      record {
        ascending = subst Ascending (sym released) h.ascending;
        in_force = subst (InForce s.tg.active s.tg.generation) (sym released) h.in_force;
      }

  call-generation :
      (c : GeneratorCall) (s : Lives) → (call xxh64 c s).tg.generation ≤ suc s.tg.generation
  unfolding call table_generator_reclaim table_generator_rebuild_and_install
  call-generation (rebuild alloc given elapsed bm) s =
      install-generation given elapsed (u64 (s.tg.generation + 1)) s.tg _ (omega arith)
  call-generation reclaim s = omega arith

  all-Safe :
      (cs : List GeneratorCall) (s : Lives)
      → s.tg.generation + length cs < 2 ^ 64
      → Safe s
      → Safe (call_all xxh64 cs s)
  unfolding call_all
  all-Safe [] s few h = h
  all-Safe (c ∷ cs) s few h =
      all-Safe cs (call xxh64 c s) (omega (arith, call-generation c s, few))
        (call-Safe c s (omega (arith, few)) h)

  -- From the creation on, over fewer than 2^64 rebuilds and reclaims in any order: no two of the
  -- snapshots that have been freed or are queued to be freed have the same generation, each was
  -- swapped out after the ones before it, and the one in force is later than all of them, so that
  -- none is freed twice and the one in force is never freed.
  pub call_all-Safe :
      (m : ℕ) (cs : List GeneratorCall)
      → length cs < 2 ^ 64
      → Safe (call_all xxh64 cs (record { tg = table_generator_create m; freed = [] }))
  unfolding table_generator_create
  call_all-Safe m cs few =
      all-Safe cs (record { tg = table_generator_create m; freed = [] }) (omega (arith, few))
        (record { ascending = tt; in_force = tt })
