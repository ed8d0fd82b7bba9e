-- ===== src/Tools/Remap.antt =====
-- tools/maglev_remap_report.c: the tables of two sets of backends, slot by slot. Memory that is not
-- given is an argument; the percentages, which are computed in double, and the text of the rows are
-- not modelled.
use l4_maglev_lb.Common.{
  ℕ, zero, suc, ◌+◌, ◌-◌, ◌*◌, ◌/◌, ◌%◌, ◌^◌, Bool, true, false, ◌&&◌, Option, none, some, List, [],
  ◌∷◌, if◌then◌else◌, ltb, leb, ◌==◌, get_or, u32, codes,
}
use l4_maglev_lb.Config.Parse.{Long, pos, negsuc}
use l4_maglev_lb.Backend.Admin.{same_text}
use l4_maglev_lb.Maglev.Table.{
  BackendView, MaglevTable, Alloc, Result, ok, null, stuck, is_negative, vacant,
  maglev_table_generate,
}

-- The address `10.0.o3.o4` and the port of backend `i`.
abbrev pub backend_number : ℕ → BackendView
backend_number i = record {
  id = u32 i;
  addr = 10 + i / 256 % 256 * 2 ^ 16 + i % 256 * 2 ^ 24;
  port = 9000;
  mac = 0 ∷ 0 ∷ 0 ∷ 0 ∷ 0 ∷ 0 ∷ [];
}

-- The loop of `make_backends`, from `i` on.
abbrev pub backends_from : ℕ → ℕ → List BackendView
backends_from i zero = []
backends_from i (suc n) = backend_number i ∷ backends_from (i + 1) n

unfoldable pub make_backends : Bool → ℕ → Option (List BackendView)
make_backends false n = none
make_backends true n = some (backends_from 0 n)

pub record RemapResult : Type 0 where
  pub considered : ℕ
  pub maglev_unchanged : ℕ
  pub naive_unchanged : ℕ

abbrev pub no_slots : RemapResult
no_slots = record { considered = 0; maglev_unchanged = 0; naive_unchanged = 0 }

-- An int32_t as size_t.
abbrev pub to_size : ℕ → ℕ
to_size w = if is_negative w then w + 2 ^ 64 - 2 ^ 32 else w

abbrev pub bump_if : Bool → ℕ → ℕ
bump_if true n = n + 1
bump_if false n = n

-- One slot `i`.
abbrev pub count_slot : MaglevTable → MaglevTable → ℕ → ℕ → ℕ → RemapResult → RemapResult
count_slot t_before t_after n_before n_after i out =
    let mag_before = get_or t_before.lookup i vacant in
    if ltb (to_size mag_before) n_after
    then record {
      considered = out.considered + 1;
      maglev_unchanged =
          bump_if (get_or t_after.lookup i vacant == mag_before) out.maglev_unchanged;
      naive_unchanged = bump_if (u32 (i % n_after) == u32 (i % n_before)) out.naive_unchanged;
    }
    else out

-- The slots `i`, ..., `i + k - 1`.
abbrev pub count_slots : MaglevTable → MaglevTable → ℕ → ℕ → ℕ → ℕ → RemapResult → RemapResult
count_slots t_before t_after n_before n_after i zero out = out
count_slots t_before t_after n_before n_after i (suc k) out =
    count_slots t_before t_after n_before n_after (i + 1) k
      (count_slot t_before t_after n_before n_after i out)

abbrev pub compare_tables : ℕ → ℕ → ℕ → Result MaglevTable → Result MaglevTable → Result RemapResult
compare_tables m n_before n_after stuck r = stuck
compare_tables m n_before n_after r stuck = stuck
compare_tables m n_before n_after (ok t_before) (ok t_after) =
    ok (count_slots t_before t_after n_before n_after 0 m no_slots)
compare_tables m n_before n_after (ok t_before) null = null
compare_tables m n_before n_after null r = null

-- Which allocations succeed, for the one set and the other.
pub record Memory : Type 0 where
  pub before : Bool
  pub after : Bool
  pub table_before : Alloc
  pub table_after : Alloc

-- The arguments of the program.
pub record Args : Type 0 where
  pub m : ℕ
  pub before : Long
  pub after : Long
  pub sweep_min : Long
  pub sweep_max : Long

pub data Flag : Type 0 where
  before_flag after_flag sweep_flag m_flag other_flag : Flag

abbrev pub flag_of : List ℕ → Flag
flag_of a =
    if same_text a (codes "--before")
    then before_flag
    else if same_text a (codes "--after")
    then after_flag
    else if same_text a (codes "--sweep")
    then sweep_flag
    else if same_text a (codes "--m")
    then m_flag
    else other_flag

-- `a > 1` and the like.
abbrev pub long_ge : ℕ → Long → Bool
long_ge n (pos x) = leb n x
long_ge n (negsuc x) = false

abbrev pub to_nat_long : Long → ℕ
to_nat_long (pos x) = x
to_nat_long (negsuc x) = 0

abbrev pub default_args : Args
default_args = record {
  m = 65537;
  before = negsuc 0;
  after = negsuc 0;
  sweep_min = negsuc 0;
  sweep_max = negsuc 0;
}

-- A row of the report: the numbers of backends and the counts.
pub record Row : Type 0 where
  pub n_before : ℕ
  pub n_after : ℕ
  pub counts : RemapResult

-- The exit code, and the rows printed before it; a loop that does not end gives no code.
pub record Report : Type 0 where
  pub code : Option ℕ
  pub rows : List Row

abbrev pub usage : Report
usage = record { code = some 1; rows = [] }

module _ (xxh64 : List ℕ → ℕ → ℕ) where
  abbrev pub remap_sets :
      Memory
      → ℕ
      → ℕ
      → ℕ
      → Option (List BackendView)
      → Option (List BackendView)
      → Result RemapResult
  remap_sets mem m n_before n_after none after = null
  remap_sets mem m n_before n_after (some before) none = null
  remap_sets mem m n_before n_after (some before) (some after) =
      compare_tables m n_before n_after (maglev_table_generate xxh64 mem.table_before before m)
        (maglev_table_generate xxh64 mem.table_after after m)

  unfoldable pub compute_remap : Memory → ℕ → ℕ → ℕ → Result RemapResult
  unfolding make_backends maglev_table_generate
  compute_remap mem m n_before n_after =
      remap_sets mem m n_before n_after (make_backends mem.before n_before)
        (make_backends mem.after n_after)

  module _ (strtol : List ℕ → Long) (strtoul : List ℕ → ℕ) (memory : ℕ → Memory) where
    -- The loop over the arguments: `none` is the usage text.
    unfoldable pub parse_args : List (List ℕ) → Args → Option Args
    parse_args [] args = some args
    parse_args (a ∷ []) args = none
    parse_args (a ∷ v ∷ []) args = elim (flag_of a) [
      | before_flag ↦ some (record args { before = strtol v })
      | after_flag ↦ some (record args { after = strtol v })
      | m_flag ↦ some (record args { m = u32 (strtoul v) })
      | _ ↦ none
    ]
    parse_args (a ∷ v ∷ w ∷ rest) args = elim (flag_of a) [
      | before_flag ↦ parse_args (w ∷ rest) (record args { before = strtol v })
      | after_flag ↦ parse_args (w ∷ rest) (record args { after = strtol v })
      | m_flag ↦ parse_args (w ∷ rest) (record args { m = u32 (strtoul v) })
      | sweep_flag ↦ parse_args rest (record args { sweep_min = strtol v; sweep_max = strtol w })
      | other_flag ↦ none
    ]

    abbrev pub one_row : ℕ → ℕ → Result RemapResult → Report
    one_row n_before n_after (ok r) = record {
      code = some 0;
      rows = record { n_before = n_before; n_after = n_after; counts = r } ∷ [];
    }
    one_row n_before n_after null = record { code = some 1; rows = [] }
    one_row n_before n_after stuck = record { code = none; rows = [] }

    -- A row of the sweep, before those of the rest.
    abbrev pub sweep_row : ℕ → Result RemapResult → Report → Report
    sweep_row n (ok r) rest = record rest {
      rows = record { n_before = n; n_after = n - 1; counts = r } ∷ rest.rows;
    }
    sweep_row n null rest = record { code = some 1; rows = [] }
    sweep_row n stuck rest = record { code = none; rows = [] }

    -- The `k` rows from `n` on; the `i`-th call of `compute_remap` has the memory of `memory i`.
    unfoldable pub sweep : ℕ → ℕ → ℕ → ℕ → Report
    unfolding compute_remap
    sweep m i n zero = record { code = some 0; rows = [] }
    sweep m i n (suc k) =
        let rest = sweep m (i + 1) (n + 1) k in
        sweep_row n (compute_remap (memory i) m n (n - 1)) rest

    abbrev pub report : Args → Report
    report args =
        let n_before = to_nat_long args.before in
        let n_after = to_nat_long args.after in
        let lo = to_nat_long args.sweep_min in
        let hi = to_nat_long args.sweep_max in
        if long_ge 2 args.before && long_ge 1 args.after
        then one_row n_before n_after (compute_remap (memory 0) args.m n_before n_after)
        else if long_ge 2 args.sweep_min && long_ge lo args.sweep_max
        then sweep args.m 0 lo (hi + 1 - lo)
        else usage

    unfoldable pub remap_main : List (List ℕ) → Report
    unfolding parse_args sweep compute_remap
    remap_main argv = elim (parse_args argv default_args) [ none ↦ usage | some args ↦ report args ]
