-- ===== src/Tools/Rows.antt =====
-- The rows that tools/maglev_remap_report.c prints.
use l4_maglev_lb.Common.{
  ℕ, zero, suc, ◌+◌, ◌-◌, ◌≤◌, ◌≡◌, subst, true, ◌&&◌, &&_true, Option, none, some, List, inl, inr,
  arith, All, Bool-cases,
}
use l4_maglev_lb.Config.Parse.{Long, pos, negsuc}
use l4_maglev_lb.Maglev.Table.{
  BackendView, MaglevTable, Result, ok, null, stuck, maglev_table_generate,
}
use l4_maglev_lb.Tools.Remap.{
  RemapResult, no_slots, count_slots, compare_tables, Memory, Args, long_ge, to_nat_long, Row,
  Report, remap_sets, compute_remap, one_row, sweep_row, sweep, report,
}
use l4_maglev_lb.Tools.Slots.{InBounds, slots-InBounds}

-- Neither remainder of the row is by zero, and the counts are in bounds.
pub record RowOk (m : ℕ) (row : Row) : Type 0 where
  pub some_before : 2 ≤ row.n_before
  pub some_after : 1 ≤ row.n_after
  pub bounds : InBounds m row.counts

-- Of a result, where there is one.
abbrev ResultOk : ℕ → Result RemapResult → Type 0
ResultOk m (ok r) = InBounds m r
ResultOk m null = Unit
ResultOk m stuck = Unit

module _ (m n_before n_after : ℕ) where
  compare-ResultOk : (a b : Result MaglevTable) → ResultOk m (compare_tables m n_before n_after a b)
  compare-ResultOk stuck b = tt
  compare-ResultOk null stuck = tt
  compare-ResultOk null null = tt
  compare-ResultOk null (ok t) = tt
  compare-ResultOk (ok s) stuck = tt
  compare-ResultOk (ok s) null = tt
  compare-ResultOk (ok s) (ok t) =
      let e : 0 + m ≡ m = omega arith in
      subst (λ b. InBounds b (count_slots s t n_before n_after 0 m no_slots)) e
        (slots-InBounds s t n_before n_after m 0 0 no_slots
          (record { considered_le = omega arith; maglev_le = omega arith; naive_le = omega arith }))

  sets-ResultOk :
      (xxh64 : List ℕ → ℕ → ℕ) (mem : Memory) (a b : Option (List BackendView))
      → ResultOk m (remap_sets xxh64 mem m n_before n_after a b)
  sets-ResultOk xxh64 mem none b = tt
  sets-ResultOk xxh64 mem (some vs) none = tt
  sets-ResultOk xxh64 mem (some vs) (some ws) =
      compare-ResultOk (maglev_table_generate xxh64 mem.table_before vs m)
        (maglev_table_generate xxh64 mem.table_after ws m)

  compute-ResultOk :
      (xxh64 : List ℕ → ℕ → ℕ) (mem : Memory)
      → ResultOk m (compute_remap xxh64 mem m n_before n_after)
  unfolding compute_remap
  compute-ResultOk xxh64 mem = sets-ResultOk xxh64 mem _ _

module _ (xxh64 : List ℕ → ℕ → ℕ) (strtol : List ℕ → Long) (strtoul : List ℕ → ℕ)
    (memory : ℕ → Memory) where
  one_row-RowOk :
      (m n_before n_after : ℕ) (r : Result RemapResult)
      → 2 ≤ n_before
      → 1 ≤ n_after
      → ResultOk m r
      → All (RowOk m) (one_row xxh64 strtol strtoul memory n_before n_after r).rows
  one_row-RowOk m n_before n_after (ok r) p q h =
      (record { some_before = p; some_after = q; bounds = h }, tt)
  one_row-RowOk m n_before n_after null p q h = tt
  one_row-RowOk m n_before n_after stuck p q h = tt

  sweep_row-RowOk :
      (m n : ℕ) (r : Result RemapResult) (rest : Report)
      → 2 ≤ n
      → ResultOk m r
      → All (RowOk m) rest.rows
      → All (RowOk m) (sweep_row xxh64 strtol strtoul memory n r rest).rows
  sweep_row-RowOk m n (ok r) rest p h hs =
      (record { some_before = p; some_after = omega arith; bounds = h }, hs)
  sweep_row-RowOk m n null rest p h hs = tt
  sweep_row-RowOk m n stuck rest p h hs = tt

  sweep-RowOk :
      (m i n k : ℕ) → 2 ≤ n → All (RowOk m) (sweep xxh64 strtol strtoul memory m i n k).rows
  unfolding sweep
  sweep-RowOk m i n zero p = tt
  sweep-RowOk m i n (suc k) p =
      sweep_row-RowOk m n (compute_remap xxh64 (memory i) m n (n - 1)) _ p
        (compute-ResultOk m n (n - 1) xxh64 (memory i))
        (sweep-RowOk m (i + 1) (n + 1) k (omega arith))

  long_ge-le : (n : ℕ) (l : Long) → long_ge n l ≡ true → n ≤ to_nat_long l
  long_ge-le n (pos x) h = ground (arith, h)
  long_ge-le n (negsuc x) h = absurd (ground (arith, h))

  -- Whatever the arguments are, each row that is printed compares at least two backends with at
  -- least one, so that no slot's remainder is by zero; the slots counted as unchanged, for Maglev
  -- and for the plain remainder, are among those considered, and these are at most the table's size.
  pub report-RowOk :
      (args : Args) → All (RowOk args.m) (report xxh64 strtol strtoul memory args).rows
  report-RowOk args = elim (Bool-cases (long_ge 2 args.before && long_ge 1 args.after)) [
    | inl pair ↦
        let (p, q) = &&_true (long_ge 2 args.before) (long_ge 1 args.after) pair in
        rw pair (
          one_row-RowOk args.m (to_nat_long args.before) (to_nat_long args.after) _
            (long_ge-le 2 args.before p) (long_ge-le 1 args.after q)
            (compute-ResultOk args.m (to_nat_long args.before) (to_nat_long args.after) xxh64
              (memory 0)))
    | inr no_pair ↦
        rw no_pair
          (elim (Bool-cases
            (long_ge 2 args.sweep_min && long_ge (to_nat_long args.sweep_min) args.sweep_max)) [
              | inl range ↦ rw range (
                  sweep-RowOk args.m 0 (to_nat_long args.sweep_min) _
                    (long_ge-le 2 args.sweep_min (&&_true (long_ge 2 args.sweep_min) _ range).0))
              | inr no_range ↦ rw no_range tt
            ])
  ]
