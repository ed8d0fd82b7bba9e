-- ===== src/Maglev/Start.antt =====
-- The state before and after the populate loop of `maglev_table_generate`, in terms of the
-- candidates that it was given.
use native.Mathlib.Nat.{mod-lt}
use l4_maglev_lb.Common.{
  ℕ, ◌+◌, ◌-◌, ◌/◌, ◌≤◌, ◌<◌, ◌≡◌, refl, sym, ap, ◌∙◌, subst, List, [], ◌∷◌, map, arith, length,
  get_or, count, count-replicate, get_or-replicate, length-replicate, length-map, All, All-get,
  get_or-All, count_nowhere, count_unique, count_pos, count_index, get_or-map, count-replicate_ne,
}
use l4_maglev_lb.Maglev.Prime.{IsPrime}
use l4_maglev_lb.Maglev.Hash.{maglev_hash_skip, backend_name}
use l4_maglev_lb.Maglev.Table.{
  BackendView, MaglevTable, Entry, no_entry, vacant, empty_table, Populate, sort_by_id, entry_of,
  populate_start,
}
use l4_maglev_lb.Maglev.Populate.{Inv, EntryOk, entry_at}
use l4_maglev_lb.Maglev.Fills.{Fills, Distinct, Balanced}
use l4_maglev_lb.Maglev.Shares.{share, share-zero, share_bounds}
use l4_maglev_lb.Maglev.Sort.{ids_of, DistinctIds, count-sort, length-sort, All-sort}

-- Ids that the int32_t table can tell from -1.
abbrev pub ProperIds : List BackendView → Type 0
ProperIds = All (λ v. v.id < vacant)

-- The table has `m` slots, every one with the id of a candidate.
pub record IsFull (m : ℕ) (candidates : List BackendView) (t : MaglevTable) : Type 0 where
  pub size : t.m ≡ m
  pub width : length t.lookup ≡ m
  pub assigned : (c : ℕ) → c < m → 0 < count (get_or t.lookup c vacant) (ids_of candidates)

-- Each candidate's id stands in the m / n-th part of the slots, rounded down or up.
abbrev pub IsEven : ℕ → List BackendView → MaglevTable → Type 0
IsEven m candidates t =
    All
      (λ v.
        (m / length candidates ≤ count v.id t.lookup)
        × (count v.id t.lookup ≤ m / length candidates + 1))
      candidates

-- The table that is returned once the loop has ended.
abbrev pub table_of : ℕ → Populate → MaglevTable
table_of m s = record { m = m; lookup = s.lookup }

abbrev pub no_view : BackendView
no_view = record { id = 0; addr = 0; port = 0; mac = [] }

module _ (xxh64 : List ℕ → ℕ → ℕ) (m : ℕ) (prime : IsPrime m) where
  entry_of-EntryOk :
      (v : BackendView) → v.id < vacant → EntryOk m (empty_table m) (entry_of xxh64 m v)
  unfolding entry_of
  entry_of-EntryOk v h = record {
    offset = mod-lt _ (omega (arith, prime.two-le));
    skip_pos = omega arith;
    skip = omega (
      arith,
      prime.two-le,
      mod-lt (maglev_hash_skip xxh64 (backend_name v.addr v.port)) {m = m - 1}
          (omega (arith, prime.two-le)),
    );
    named = ground arith;
    next = omega arith;
    taken = λ k p. absurd (omega arith);
  }

  entries-All :
      (vs : List BackendView)
      → ProperIds vs
      → All (EntryOk m (empty_table m)) (map (entry_of xxh64 m) vs)
  entries-All [] h = tt
  entries-All (v ∷ vs) h = (entry_of-EntryOk v h.0, entries-All vs h.1)

  module _ (v : BackendView) (vs : List BackendView) (proper : ProperIds (v ∷ vs)) where
    abbrev pub start : Populate
    unfolding populate_start
    start = populate_start xxh64 m (v ∷ vs)

    length-start : length start.entries ≡ length (v ∷ vs)
    unfolding populate_start
    length-start = length-map _ (sort_by_id (v ∷ vs)) ∙ length-sort (v ∷ vs)

    pub start-Inv : Inv m start
    unfolding populate_start
    start-Inv = record {
      width = length-replicate m vacant;
      some_entry = omega (arith, length-start);
      entries = λ b h.
          All-get (EntryOk m (empty_table m)) start.entries no_entry b
            (entries-All _ (All-sort (λ w. w.id < vacant) (v ∷ vs) proper)) h;
      filled = omega (arith, count-replicate vacant m);
      owned = λ c busy. absurd (busy (get_or-replicate m vacant c));
    }

    -- The id at a position of the scratch arrays is the id at that position of the sorted list.
    start-ids :
        (b : ℕ)
        → b < length start.entries
        → (entry_at start b).id ≡ get_or (ids_of (sort_by_id (v ∷ vs))) b 0
    unfolding populate_start entry_of
    start-ids b h =
        let sorted = sort_by_id (v ∷ vs) in
        let inside : b < length sorted = omega (arith, length-map (entry_of xxh64 m) sorted) in
        ap (λ (e : Entry). e.id) (get_or-map (entry_of xxh64 m) sorted b no_view no_entry inside)
        ∙ sym (get_or-map (λ w. w.id) sorted b no_view 0 inside)

    length-ids : length (ids_of (sort_by_id (v ∷ vs))) ≡ length start.entries
    length-ids = length-map _ (sort_by_id (v ∷ vs)) ∙ length-sort (v ∷ vs) ∙ sym length-start

    start-Distinct : DistinctIds (v ∷ vs) → Distinct start
    start-Distinct d a b ha hb same =
        let sorted = ids_of (sort_by_id (v ∷ vs)) in
        let x = get_or sorted a 0 in
        count_unique x sorted a b 0 (omega (arith, count-sort x (v ∷ vs), d x))
          (omega (arith, length-ids)) (omega (arith, length-ids)) refl
          (sym (start-ids b hb) ∙ sym same ∙ start-ids a ha)

    start-Balanced : Balanced start
    unfolding populate_start
    start-Balanced b h =
        count-replicate_ne vacant (entry_at start b).id m
          (λ e. (start-Inv.entries b h).named (sym e))
        ∙ sym (share-zero (length start.entries) b h)

    module _ (s : Populate) (f : Fills m start s) where
      final_owner : (c : ℕ) → c < m → 0 < count (get_or s.lookup c vacant) (ids_of (v ∷ vs))
      final_owner c h =
          let none_vacant : count vacant s.lookup ≡ 0 = omega (arith, f.full, f.inv.filled) in
          let busy =
            count_nowhere vacant s.lookup c vacant none_vacant (omega (arith, f.inv.width)) in
          let (b, inside, e) = f.inv.owned c busy in
          let x = get_or s.lookup c vacant in
          let h' : b < length start.entries = omega (arith, f.size) in
          omega (
            arith,
            count-sort x (v ∷ vs),
            count_pos x (ids_of (sort_by_id (v ∷ vs))) b 0 (omega (arith, length-ids))
                (sym (start-ids b h') ∙ sym (f.ids b) ∙ e),
          )

      final_rounds : s.round_robin ≡ m
      unfolding populate_start
      final_rounds = omega (arith, f.rounds)

      final_share :
          DistinctIds (v ∷ vs)
          → (i : ℕ) → i < length (v ∷ vs)
          → (m / length (v ∷ vs) ≤ count (get_or (v ∷ vs) i no_view).id s.lookup)
            × (count (get_or (v ∷ vs) i no_view).id s.lookup ≤ m / length (v ∷ vs) + 1)
      final_share d i h =
          let x = (get_or (v ∷ vs) i no_view).id in
          let listed =
            count_pos x (ids_of (v ∷ vs)) i 0 (rw length-map h)
              (get_or-map (λ w. w.id) (v ∷ vs) i no_view 0 h) in
          let (b, inside, e) =
            count_index x (ids_of (sort_by_id (v ∷ vs))) 0 (omega (arith, count-sort x (v ∷ vs))) in
          let n = length s.entries in
          let h' : b < length start.entries = omega (arith, length-ids) in
          let inside' : b < n = omega (arith, f.size) in
          let named : (entry_at s b).id ≡ x = f.ids b ∙ start-ids b h' ∙ e in
          let turns = f.balanced (start-Distinct d) start-Balanced b inside' in
          let rounds : s.round_robin ≡ m = final_rounds in
          let counted : count x s.lookup ≡ share n b m =
            ap (λ (y : ℕ). count y s.lookup) (sym named) ∙ turns ∙ ap (share n b) rounds in
          let whole : (m / n ≤ count x s.lookup) × (count x s.lookup ≤ m / n + 1) =
            rw counted (share_bounds n b m inside') in
          subst (λ (k : ℕ). (m / k ≤ count x s.lookup) × (count x s.lookup ≤ m / k + 1))
            (f.size ∙ length-start) whole

      pub final-IsFull : IsFull m (v ∷ vs) (table_of m s)
      final-IsFull = record { size = refl; width = f.inv.width; assigned = final_owner }

      pub final-IsEven : DistinctIds (v ∷ vs) → IsEven m (v ∷ vs) (table_of m s)
      final-IsEven d =
          get_or-All
            (λ w.
              (m / length (v ∷ vs) ≤ count w.id s.lookup)
              × (count w.id s.lookup ≤ m / length (v ∷ vs) + 1))
            (v ∷ vs) no_view (final_share d)
