-- ===== src/Backend/Tests.antt =====
-- The theorems on src/backend/ at a table with one backend.
use l4_maglev_lb.Maglev.Cycle.{slot_of}
use l4_maglev_lb.Common.{
  bytes32, ltb, leb, ℕ, zero, suc, subst, ◌+◌, ◌<◌, ◌≡◌, refl, true, false, not, ◌&&◌, none, some,
  Option, List, [], ◌∷◌, ◌++◌, arith, ◌==◌, to_nat, if◌then◌else◌, length, count, replicate, u64,
}
use l4_maglev_lb.Net.Key.{FlowKey}
use l4_maglev_lb.Maglev.Table.{RoutingSnapshot, ok}
use l4_maglev_lb.Maglev.Tests.{sum_hash, all_given, seven-IsPrime}
use l4_maglev_lb.Backend.State.{
  enabled, draining, disabled, same_state, same_bool, Backend, BackendManager, backend_max,
  zero_slot, backend_manager_create,
}
use l4_maglev_lb.Backend.Manager.{
  backend_manager_set_health, fresh_backend, backend_manager_set_admin_state,
  backend_manager_snapshot_eligible, backend_manager_snapshot_routable,
  backend_manager_snapshot_all,
}
use l4_maglev_lb.Backend.View.{view, view_slots, live}
use l4_maglev_lb.Backend.Refines.{Changes, some_is, set_health-Changes, set_admin_state-Changes}
use l4_maglev_lb.Backend.Invariant.{IsValid}
use l4_maglev_lb.Backend.Add.{Op, add, set_mac, subscribe, run_ops, run_ops-IsValid}
use l4_maglev_lb.Backend.Snapshots.{
  ids_in, snapshots_select, eligible_routable, drain_keeps_routable,
}
use l4_maglev_lb.Backend.Generator.{
  table_generator_create, TableGenerator, table_generator_rebuild_and_install,
}
use l4_maglev_lb.Backend.Reclaim.{GeneratorCall, rebuild, reclaim, Safe, call_all, call_all-Safe}
use l4_maglev_lb.Backend.Rebuild.{Reaches, rebuild-routes}
use l4_maglev_lb.Backend.Admin.{handle_admin_line, process_admin_fifo}
use l4_maglev_lb.Backend.Health.{zero_state, HealthChecker, scan, record_results}
use l4_maglev_lb.Backend.Round.{
  Probe, Wait, interrupted, events, admin, resolved, start_probes, run_probe_round,
}
use l4_maglev_lb.Backend.Counted.{recorded_for}
use l4_maglev_lb.Backend.Once.{AllNamed, known, started, run_probe_round-once}
use l4_maglev_lb.Backend.Probes.{IsTracked, record_results-fall}
use l4_maglev_lb.Backend.Lines.{IsLine, process-line, process-overlong}

abbrev sample_ops : List Op
sample_ops = subscribe ∷ add 0x0200000a 80 ∷ set_mac 0 (2 ∷ 0 ∷ 0 ∷ 0 ∷ 0 ∷ 7 ∷ []) ∷ []

-- Backend 0 is enabled, healthy and resolved.
abbrev sample_backend : Backend
sample_backend = record (fresh_backend 0 0x0200000a 80) {
  mac = 2 ∷ 0 ∷ 0 ∷ 0 ∷ 0 ∷ 7 ∷ [];
  mac_resolved = true;
}

abbrev one_backend : BackendManager
one_backend = record {
  slots = record { used = true; backend = sample_backend } ∷ replicate 63 zero_slot;
  next_id = 1;
  subscribed = true;
}

sample_run : run_ops sample_ops backend_manager_create ≡ one_backend
unfolding run_ops backend_manager_create
sample_run = refl

run_ops-IsValid_example : IsValid (run_ops sample_ops backend_manager_create)
run_ops-IsValid_example = run_ops-IsValid sample_ops (omega arith)

one_backend-IsValid : IsValid one_backend
one_backend-IsValid = subst IsValid sample_run (run_ops-IsValid sample_ops (omega arith))

set_health-Changes_example :
    Changes one_backend 0
      (λ b. record b { healthy = false })
      (λ b. not (same_bool b.healthy false))
      (backend_manager_set_health one_backend 0 false)
set_health-Changes_example = set_health-Changes one_backend 0 false

set_admin_state-Changes_example :
    Changes one_backend 0
      (λ b. record b { admin_state = draining })
      (λ b. not (same_state b.admin_state draining))
      (backend_manager_set_admin_state one_backend 0 draining)
set_admin_state-Changes_example = set_admin_state-Changes one_backend 0 draining

-- Sixty-four additions.
abbrev many : ℕ → List Op
many zero = []
many (suc n) = add 1 80 ∷ many n

abbrev full_table : BackendManager
full_table = run_ops (many 64) backend_manager_create

full-IsValid : IsValid full_table
full-IsValid = run_ops-IsValid (many 64) (omega arith)

full_count : length (live full_table.slots) ≡ backend_max
unfolding run_ops backend_manager_create
full_count = refl

snapshots_select_example :
    (count 0 (ids_in (backend_manager_snapshot_eligible one_backend backend_max))
      ≡ to_nat (
          some_is
            (λ b. same_state b.admin_state enabled && (b.healthy && b.mac_resolved))
            (view one_backend 0)))
    × (count 0 (ids_in (backend_manager_snapshot_routable one_backend backend_max))
        ≡ to_nat (
            some_is
              (λ b. not (same_state b.admin_state disabled) && (b.healthy && b.mac_resolved))
              (view one_backend 0)))
    × (count 0 (ids_in (backend_manager_snapshot_all one_backend backend_max))
        ≡ to_nat (some_is (λ b. true) (view one_backend 0)))
snapshots_select_example = snapshots_select one_backend one_backend-IsValid 0

eligible_zero : 0 < count 0 (ids_in (backend_manager_snapshot_eligible one_backend backend_max))
unfolding backend_manager_snapshot_eligible
eligible_zero = omega arith

eligible_routable_sample :
    0 < count 0 (ids_in (backend_manager_snapshot_routable one_backend backend_max))
eligible_routable_sample = eligible_routable one_backend one_backend-IsValid 0 eligible_zero

not_disabled : some_is (λ b. same_state b.admin_state disabled) (view one_backend 0) ≡ false
unfolding view_slots
not_disabled = refl

drain_keeps_routable_example :
    (count 0 (
        ids_in (
          backend_manager_snapshot_eligible
            (backend_manager_set_admin_state one_backend 0 draining).0
            backend_max))
      ≡ (if 0 == 0
          then 0
          else count 0 (ids_in (backend_manager_snapshot_eligible one_backend backend_max))))
    × (count 0 (
          ids_in (
            backend_manager_snapshot_routable
              (backend_manager_set_admin_state one_backend 0 draining).0
              backend_max))
        ≡ count 0 (ids_in (backend_manager_snapshot_routable one_backend backend_max)))
drain_keeps_routable_example = drain_keeps_routable one_backend one_backend-IsValid 0 0 not_disabled

abbrev seven_slots : TableGenerator
seven_slots = record {
  m = 7;
  active = none;
  generation = 4;
  last_regen_us = 0;
  retired = [];
  retired_cap = 0;
}

some_eligible : 0 < length (backend_manager_snapshot_eligible one_backend backend_max)
unfolding backend_manager_snapshot_eligible
some_eligible = omega arith

rebuild-routes_example :
    (snap : RoutingSnapshot) × (tg' : TableGenerator) × (table_generator_rebuild_and_install
        sum_hash all_given true 12 one_backend seven_slots
      ≡ ok tg')
    × (tg'.active ≡ some snap)
    × (tg'.generation ≡ u64 (seven_slots.generation + 1))
    × (snap.generation ≡ u64 (seven_slots.generation + 1))
    × ((key : FlowKey) → Reaches sum_hash one_backend snap key)
rebuild-routes_example =
    rebuild-routes sum_hash all_given true 12 one_backend seven_slots
      ((refl, refl, refl), refl, refl) one_backend-IsValid (omega arith) seven-IsPrime (omega arith)
      some_eligible

abbrev old_snapshot : RoutingSnapshot
old_snapshot = record {
  table = record { m = 7; lookup = replicate 7 0 };
  backends = [];
  generation = 3;
}

abbrev sample_scan : List ℕ → Option (List ℕ × ℕ)
sample_scan line = some (line, 0)

abbrev drain_line : List ℕ
drain_line = 68 ∷ 82 ∷ 65 ∷ 73 ∷ 78 ∷ []

drain-IsLine : IsLine drain_line
drain-IsLine = ground arith

process-line_example :
    process_admin_fifo sample_scan
      (record { bm = one_backend; admin_buf = [] })
      (drain_line ++ 10 ∷ [])
    ≡ process_admin_fifo sample_scan
        (record { bm = handle_admin_line sample_scan one_backend drain_line; admin_buf = [] })
        []
process-line_example =
    process-line sample_scan drain_line [] one_backend drain-IsLine (omega arith) (omega arith)

plain : (n : ℕ) → IsLine (replicate n 65)
plain zero = tt
plain (suc n) = (λ e. absurd (omega (arith, e)), plain n)

process-overlong_example :
    process_admin_fifo sample_scan
      (record { bm = one_backend; admin_buf = [] })
      (replicate 127 65 ++ 65 ∷ (drain_line ++ 10 ∷ []))
    ≡ process_admin_fifo sample_scan
        (record { bm = handle_admin_line sample_scan one_backend drain_line; admin_buf = [] })
        []
process-overlong_example =
    process-overlong sample_scan (replicate 127 65) 65 drain_line [] one_backend (plain 127) refl
      (λ e. absurd (omega (arith, e))) drain-IsLine (omega arith) (omega arith)

-- Backend 0 has failed once; the threshold is three.
abbrev sample_checker : HealthChecker
sample_checker = record {
  bm = one_backend;
  rise = 2;
  fall = 3;
  stats = none;
  states =
      record { backend_id = 0; consecutive_ok = 0; consecutive_fail = 1; in_use = true }
      ∷ replicate 63 zero_state;
}

zero-IsTracked : IsTracked sample_checker.states 0 0
unfolding scan
zero-IsTracked = refl

record_results-fall_example : (record_results sample_checker (replicate 2 (0, false))).bm ≡ (
    if ltb 1 3 && leb 3 (1 + 2)
    then (backend_manager_set_health one_backend 0 false).0
    else one_backend)
record_results-fall_example = record_results-fall 2 sample_checker 0 0 1 zero-IsTracked refl

abbrev no_scan : List ℕ → Option (List ℕ × ℕ)
no_scan line = none

-- The connection is made, and there is a byte in the FIFO before.
abbrev sample_probes : List Probe
sample_probes = record { opened = true; connecting = true; registered = true } ∷ []

abbrev sample_waits : List Wait
sample_waits = interrupted ∷ events (admin (65 ∷ []) ∷ resolved 0 true ∷ []) ∷ []

sample_named :
    AllNamed (started no_scan sample_probes sample_waits sample_checker []).done sample_waits
unfolding start_probes backend_manager_snapshot_all
sample_named = ((omega arith, refl, tt), tt)

sample_whole : (run_probe_round no_scan sample_probes sample_waits sample_checker []).1 ≡ false
unfolding run_probe_round
sample_whole = refl

run_probe_round-once_example :
    recorded_for 0 (run_probe_round no_scan sample_probes sample_waits sample_checker []).0.calls
    ≡ count 0 (ids_in (known no_scan sample_probes sample_waits sample_checker []))
run_probe_round-once_example =
    run_probe_round-once no_scan sample_probes sample_waits sample_checker [] 0 sample_named
      sample_whole

-- Two rebuilds, so that one snapshot waits, and a reclaim that frees it.
abbrev two_rebuilds : List GeneratorCall
two_rebuilds =
    rebuild all_given true 12 one_backend ∷ rebuild all_given true 12 one_backend ∷ reclaim ∷ []

call_all-Safe_example :
    Safe (call_all sum_hash two_rebuilds (record { tg = table_generator_create 7; freed = [] }))
call_all-Safe_example = call_all-Safe sum_hash 7 two_rebuilds (omega arith)

once_freed :
    length
      (call_all sum_hash two_rebuilds (record { tg = table_generator_create 7; freed = [] })).freed
    ≡ 1
unfolding call_all table_generator_create slot_of bytes32
once_freed = refl
