-- ===== src/Tools/Tests.antt =====
-- The theorems on tools/maglev_remap_report.c at small tables.
use l4_maglev_lb.Common.{ℕ, ◌≡◌, refl, true, some, List, [], ◌∷◌, All, arith, codes, get_or}
use l4_maglev_lb.Config.Parse.{pos}
use l4_maglev_lb.Maglev.Table.{Alloc, ok}
use l4_maglev_lb.Maglev.Tests.{sum_hash, seven-IsPrime}
use l4_maglev_lb.Tools.Remap.{
  RemapResult, Memory, Args, default_args, compute_remap, parse_args, report,
}
use l4_maglev_lb.Tools.Slots.{InBounds, GivenMemory, compute_remap-grows}
use l4_maglev_lb.Tools.Rows.{RowOk, report-RowOk}

abbrev all_given : Alloc
all_given = record { table = true; lookup = true; scratch = true; snapshot = true; copy = true }

abbrev sample_memory : Memory
sample_memory = record {
  before = true;
  after = true;
  table_before = all_given;
  table_after = all_given;
}

sample_given : GivenMemory sample_memory
sample_given = record {
  before = refl;
  after = refl;
  table_before = (refl, refl, refl);
  table_after = (refl, refl, refl);
}

compute_remap-grows_example :
    (r : RemapResult) × (compute_remap sum_hash sample_memory 7 2 3 ≡ ok r)
    × InBounds 7 r
    × (r.considered ≡ 7)
compute_remap-grows_example =
    compute_remap-grows sum_hash 7 seven-IsPrime (omega arith) sample_memory sample_given 2 3
      (omega arith) (omega arith) (omega arith)

abbrev first_digit : List ℕ → ℕ
first_digit s = get_or s 0 0

abbrev sample_args : Args
sample_args = record default_args { m = 7; sweep_min = pos 2; sweep_max = pos 3 }

report-RowOk_example :
    All
      (RowOk 7)
      (report sum_hash (λ s. pos (first_digit s)) first_digit (λ i. sample_memory) sample_args).rows
report-RowOk_example =
    report-RowOk sum_hash (λ s. pos (first_digit s)) first_digit (λ i. sample_memory) sample_args

parsed :
    parse_args sum_hash
      (λ s. pos (first_digit s))
      first_digit
      (λ i. sample_memory)
      (codes "--m" ∷ (7 ∷ []) ∷ codes "--sweep" ∷ (2 ∷ []) ∷ (3 ∷ []) ∷ [])
      default_args
    ≡ some sample_args
unfolding parse_args
parsed = refl
