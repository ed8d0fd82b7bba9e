-- ===== src/Maglev/Generate.antt =====
-- What `maglev_table_generate` returns: a full table over the candidates, evenly shared, the same
-- for every enumeration of them.
use mathlib.Core.List.{Perm, Permᴰ}
use mathlib.Core.Logic.{∥∥₁_elim}
use mathlib.Core.Path.{ap₂}
use l4_maglev_lb.Common.{
  ℕ, ◌^◌, ◌<◌, ◌≡◌, refl, ap, ◌∙◌, ◌≢◌, Bool, List, [], ◌∷◌, map, arith, length, if◌then◌else◌,
}
use l4_maglev_lb.Maglev.Prime.{IsPrime}
use l4_maglev_lb.Maglev.Table.{
  BackendView, MaglevTable, Populate, populate, sort_by_id, Result, ok, null, stuck, Alloc, Given,
  populate_start, entry_of, fill_table, maglev_table_generate, finish, empty_table, scratch_ok,
}
use l4_maglev_lb.Maglev.Fills.{populate-Fills}
use l4_maglev_lb.Maglev.Sort.{DistinctIds, sort-permᴰ, DistinctIds-perm}
use l4_maglev_lb.Maglev.Start.{
  ProperIds, IsFull, IsEven, table_of, start-Inv, final-IsFull, final-IsEven,
}

-- With candidates, a prime size and the memory it asks for, generation ends with a full table.
module _ (xxh64 : List ℕ → ℕ → ℕ) (m : ℕ) (prime : IsPrime m) (small : m < 2 ^ 32) where
  fill_table-ends :
      (v : BackendView) (vs : List BackendView)
      → ProperIds (v ∷ vs)
      → (t : MaglevTable) × (fill_table xxh64 m (v ∷ vs) ≡ ok t)
        × IsFull m (v ∷ vs) t
        × (DistinctIds (v ∷ vs) → IsEven m (v ∷ vs) t)
  unfolding fill_table
  fill_table-ends v vs proper =
      let inv = start-Inv xxh64 m prime v vs proper in
      let (s, run, f) =
        populate-Fills m prime small m (populate_start xxh64 m (v ∷ vs)) inv (omega arith) in
      (
        table_of m s,
        ap (finish m) run,
        final-IsFull xxh64 m prime v vs proper s f,
        final-IsEven xxh64 m prime v vs proper s f,
      )

  generate-ends :
      (alloc : Alloc) (candidates : List BackendView)
      → Given alloc
      → 0 < length candidates
      → ProperIds candidates
      → (t : MaglevTable) × (maglev_table_generate xxh64 alloc candidates m ≡ ok t)
        × IsFull m candidates t
        × (DistinctIds candidates → IsEven m candidates t)
  unfolding maglev_table_generate
  generate-ends alloc [] given some_candidate proper = absurd (omega arith)
  generate-ends alloc (v ∷ vs) given some_candidate proper =
      let (t, run, full, even) = fill_table-ends v vs proper in
      (t, rw (given.0, given.1, given.2) run, full, even)

  -- Over a prime table size below 2 ^ 32, with at least one candidate, ids below 2 ^ 32 - 1 and
  -- the memory given, `maglev_table_generate` ends with a table of that size in which every slot
  -- holds the id of a candidate.
  pub maglev_table_generate-IsFull :
      (alloc : Alloc) (candidates : List BackendView)
      → Given alloc
      → 0 < length candidates
      → ProperIds candidates
      → (t : MaglevTable) × (maglev_table_generate xxh64 alloc candidates m ≡ ok t)
        × IsFull m candidates t
  maglev_table_generate-IsFull alloc candidates given some_candidate proper =
      let (t, run, full, even) = generate-ends alloc candidates given some_candidate proper in
      (t, run, full)

  -- Over a prime table size below 2 ^ 32, with at least one candidate, distinct ids below 2 ^ 32 -
  -- 1 and the memory given, generation ends with a table in which each of the n candidates holds m
  -- / n slots, rounded down or up.
  pub maglev_table_generate-IsEven :
      (alloc : Alloc) (candidates : List BackendView)
      → Given alloc
      → 0 < length candidates
      → ProperIds candidates
      → DistinctIds candidates
      → (t : MaglevTable) × (maglev_table_generate xxh64 alloc candidates m ≡ ok t)
        × IsEven m candidates t
  maglev_table_generate-IsEven alloc candidates given some_candidate proper distinct =
      let (t, run, full, even) = generate-ends alloc candidates given some_candidate proper in
      (t, run, even distinct)

  fill_table-ne-stuck :
      (candidates : List BackendView) → ProperIds candidates → fill_table xxh64 m candidates ≢ stuck
  fill_table-ne-stuck [] proper e = (unfold fill_table in cc e)
  fill_table-ne-stuck (v ∷ vs) proper e =
      let (t, run, full, even) = fill_table-ends v vs proper in cc (run, e)

  -- Over a prime table size below 2 ^ 32 and ids below 2 ^ 32 - 1, whatever memory is given, both
  -- loops end: generation returns a table or NULL.
  pub maglev_table_generate-ne-stuck :
      (alloc : Alloc) (candidates : List BackendView)
      → ProperIds candidates
      → maglev_table_generate xxh64 alloc candidates m ≢ stuck
  unfolding maglev_table_generate
  maglev_table_generate-ne-stuck alloc candidates proper =
      ground (arith, fill_table-ne-stuck candidates proper)

populate_start-sorted :
    (xxh64 : List ℕ → ℕ → ℕ) (m : ℕ) (vs ws : List BackendView)
    → sort_by_id vs ≡ sort_by_id ws
    → populate_start xxh64 m vs ≡ populate_start xxh64 m ws
unfolding populate_start
populate_start-sorted xxh64 m vs ws e =
    ap
      (λ (l : List BackendView).
        let s : Populate = record {
          lookup = empty_table m;
          entries = map (entry_of xxh64 m) l;
          filled = 0;
          round_robin = 0;
        } in
        s)
      e

fill_table-permᴰ :
    (xxh64 : List ℕ → ℕ → ℕ) (m : ℕ) {vs ws : List BackendView}
    → Permᴰ vs ws
    → DistinctIds vs
    → fill_table xxh64 m vs ≡ fill_table xxh64 m ws
unfolding fill_table
fill_table-permᴰ xxh64 m Permᴰ.nil d = refl
fill_table-permᴰ xxh64 m (Permᴰ.cons {a = a} {b = b} {l₁ = k} {l₂ = l} e p) d =
    ap (λ (s : Populate). finish m (populate m m s))
      (populate_start-sorted xxh64 m (a ∷ k) (b ∷ l) (sort-permᴰ (Permᴰ.cons e p) d))
fill_table-permᴰ xxh64 m (Permᴰ.swap {a = a} {b = b} {a' = a'} {b' = b'} {l = l} e f) d =
    ap (λ (s : Populate). finish m (populate m m s))
      (populate_start-sorted xxh64 m (a ∷ b ∷ l) (a' ∷ b' ∷ l) (sort-permᴰ (Permᴰ.swap e f) d))
fill_table-permᴰ xxh64 m (Permᴰ.trans p q) d =
    fill_table-permᴰ xxh64 m p d ∙ fill_table-permᴰ xxh64 m q (DistinctIds-perm p d)

scratch_ok-permᴰ :
    (alloc : Alloc) {vs ws : List BackendView}
    → Permᴰ vs ws
    → scratch_ok alloc vs ≡ scratch_ok alloc ws
scratch_ok-permᴰ alloc Permᴰ.nil = refl
scratch_ok-permᴰ alloc (Permᴰ.cons e p) = refl
scratch_ok-permᴰ alloc (Permᴰ.swap e f) = refl
scratch_ok-permᴰ alloc (Permᴰ.trans p q) = scratch_ok-permᴰ alloc p ∙ scratch_ok-permᴰ alloc q

Result-set : IsSet (Result MaglevTable)
Result-set = hlevel

-- The table is the same however the caller enumerated the backends, as long as their ids are
-- distinct: instances that see the same set compute the same table.
pub maglev_table_generate-perm :
    (xxh64 : List ℕ → ℕ → ℕ) (alloc : Alloc) (m : ℕ) {vs ws : List BackendView}
    → Perm vs ws
    → DistinctIds vs
    → maglev_table_generate xxh64 alloc vs m ≡ maglev_table_generate xxh64 alloc ws m
unfolding maglev_table_generate
maglev_table_generate-perm xxh64 alloc m p d = ∥∥₁_elim p (Result-set _ _) (λ q.
    ap₂
      (λ (b : Bool) (r : Result MaglevTable).
        if alloc.table then (if alloc.lookup then (if b then r else null) else null) else null)
      (scratch_ok-permᴰ alloc q) (fill_table-permᴰ xxh64 m q d))
