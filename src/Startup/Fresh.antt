-- ===== src/Startup/Fresh.antt =====
-- What the creation of the components gives src/main.c, and what the run of the datapath makes of it.
use l4_maglev_lb.Common.{
  ℕ, zero, suc, ◌^◌, ◌≤◌, ◌<◌, ◌≡◌, refl, sym, ap, subst, ◌∙◌, Bool, true, false, Option, none,
  some, List, arith, ltb, lt→ltb, length-replicate, get_or-replicate, if◌then◌else◌,
}
use l4_maglev_lb.Maglev.Table.{Result, ok, null}
use l4_maglev_lb.Conntrack.Table.{
  ConntrackTable, TableAlloc, desired_buckets, empty_conntrack, with_buckets, slab_ok,
  conntrack_create,
}
use l4_maglev_lb.Conntrack.Tally.{tally-replicate}
use l4_maglev_lb.Conntrack.Life.{next_pow2-finds, indices_start}
use l4_maglev_lb.Stats.{LbStats, zero_per_backend, stats_registry_init}
use l4_maglev_lb.Forward.Datapath.{DatapathConfig, Datapath}
use l4_maglev_lb.Forward.Loop.{Run, Setup, Wake, setup_epoll, set_up, datapath_run}
use l4_maglev_lb.Forward.Counts.{flows_of, IsSized}
use l4_maglev_lb.Forward.Flows.{of_backend, Agrees, AgreesIn}
use l4_maglev_lb.Forward.Agreement.{run_loop-Agrees}

if_ok :
    (t : Bool) (r : Result ConntrackTable) (ct : ConntrackTable)
    → (if t then r else null) ≡ ok ct
    → r ≡ ok ct
if_ok true r ct h = h
if_ok false r ct h = absurd (ground (arith, h))

with_buckets-ok :
    (alloc : TableAlloc) (max_flows b : ℕ) (ct : ConntrackTable)
    → with_buckets alloc max_flows (some b) ≡ ok ct
    → empty_conntrack max_flows b ≡ ct
with_buckets-ok alloc max_flows b ct h =
    ok_eq (if_ok (slab_ok alloc max_flows) _ ct (if_ok alloc.buckets _ ct h))
  where
    ok_eq : {x y : ConntrackTable} → ok x ≡ ok y → x ≡ y
    ok_eq e = cc

-- A table that is created is empty.
pub conntrack_create-fresh :
    (alloc : TableAlloc) (max_flows : ℕ) (ct : ConntrackTable)
    → max_flows < 2 ^ 49
    → conntrack_create alloc max_flows ≡ ok ct
    → (b : ℕ) × (0 < b) × (empty_conntrack max_flows b ≡ ct)
unfolding conntrack_create
conntrack_create-fresh alloc max_flows ct small e =
    let (j, run, above) = next_pow2-finds (desired_buckets max_flows) (omega arith) in
    (
      2 ^ j,
      omega arith,
      with_buckets-ok alloc max_flows (2 ^ j) ct
          (ap (with_buckets alloc max_flows) (sym run) ∙ if_ok alloc.table _ ct e),
    )

-- The counters of `n` backends, all of no flow.
abbrev pub Fresh : ℕ → LbStats → Type 0
Fresh n s = IsSized n s × ((id : ℕ) → flows_of s id ≡ 0)

some_eq : {x y : LbStats} → some x ≡ some y → x ≡ y
some_eq e = cc

taken :
    (b : Bool) (o o' : Option LbStats) (s : LbStats)
    → b ≡ true
    → (if b then o else o') ≡ some s
    → o ≡ some s
taken true o o' s e h = h
taken false o o' s e h = absurd (ground (arith, e))

pub stats_registry_init-Fresh :
    (given : Bool) (n : ℕ) (s : LbStats) → stats_registry_init given n ≡ some s → Fresh n s
unfolding stats_registry_init
stats_registry_init-Fresh given zero s e =
    subst (Fresh 0) (some_eq e) (record { size = refl; bound = refl }, λ id. refl)
stats_registry_init-Fresh false (suc n) s e = absurd (ground (arith, e))
stats_registry_init-Fresh true (suc n) s e =
    subst (Fresh (suc n)) (some_eq (taken (ltb 0 (suc n)) _ _ s (lt→ltb 0 (suc n) (omega arith)) e))
      (
        record { size = length-replicate (suc n) zero_per_backend; bound = refl },
        λ id. ap (λ b. b.active_flows) (get_or-replicate (suc n) zero_per_backend id),
      )

pub fresh-Agrees :
    (n max_flows b : ℕ) (s : LbStats)
    → 0 < b
    → IsSized n s
    → ((id : ℕ) → flows_of s id ≡ 0)
    → Agrees n max_flows (empty_conntrack max_flows b) s
fresh-Agrees n max_flows b s some_b sized zeros = record {
  valid = indices_start max_flows b some_b;
  sized = sized;
  flows = λ id p. zeros id ∙ sym (tally-replicate (of_backend id) b);
}

module _ (n max_flows : ℕ) (fits : max_flows < 2 ^ 64) (small : n ≤ 2 ^ 31) (send : List ℕ → ℕ)
    (xxh64 : List ℕ → ℕ → ℕ) where
  abbrev pub In : Datapath → Type 0
  In = AgreesIn n max_flows fits small

  loop_if :
      (b : Bool) (r r' : Run)
      → In r.dp
      → In r'.dp
      → In (elim b as (λ x. Run) [ false ↦ r | true ↦ r' ]).dp
  loop_if false r r' a a' = a
  loop_if true r r' a a' = a'

  set_up-Agrees :
      (cfg : DatapathConfig) (s : Setup) (wakes : List Wake) (dp : Datapath) (mac : Option (List ℕ))
      → In dp
      → In (set_up send xxh64 cfg s wakes dp mac).dp
  set_up-Agrees cfg s wakes dp none a = a
  set_up-Agrees cfg s wakes dp (some mac) a = loop_if s.reaper_timer _ _ a (
      loop_if s.signal_mask _ _ a (
        loop_if s.signal_fd _ _ a (
          loop_if (setup_epoll s) _ _ a (
            run_loop-Agrees n max_flows fits small send xxh64 (record cfg { own_mac = mac }) wakes
              dp a))))

  pub datapath_run-Agrees :
      (cfg : DatapathConfig) (s : Setup) (wakes : List Wake) (dp : Datapath)
      → In dp
      → In (datapath_run send xxh64 cfg s wakes dp).dp
  unfolding datapath_run
  datapath_run-Agrees cfg s wakes dp a =
      loop_if s.raw_socket _ _ a (set_up-Agrees cfg s wakes dp s.own_mac a)
