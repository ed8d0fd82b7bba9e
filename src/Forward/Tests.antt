-- ===== src/Forward/Tests.antt =====
-- The theorems on src/forward/datapath.c at a concrete packet, pinned and not.
use l4_maglev_lb.Common.{
  ℕ, zero, suc, ◌≡◌, to_nat, get_or-replicate, refl, ap, false, some, none, List, [], ◌∷◌, arith,
  length, replicate, bytes16, bytes32,
}
use l4_maglev_lb.Net.Key.{key_bytes}
use l4_maglev_lb.Net.Encap.{Carries}
use l4_maglev_lb.Net.Tests.{sample_frame, sample_flow, sample_extracted}
use l4_maglev_lb.Maglev.Table.{
  BackendView, RoutingSnapshot, is_negative, maglev_table_lookup, routing_snapshot_find_backend,
}
use l4_maglev_lb.Maglev.Tests.{sum_hash}
use l4_maglev_lb.Conntrack.Lookup.{backend_of, pinned}
use l4_maglev_lb.Conntrack.Tests.{
  sample_key, fresh_table, fresh-IsValid, one_flow, one_flow-IsValid, one_flow-pinned,
}
use l4_maglev_lb.Stats.{LbStats, zero_counters, zero_per_backend}
use l4_maglev_lb.Forward.Datapath.{DatapathConfig, Datapath, handle_packet}
use l4_maglev_lb.Conntrack.Tally.{tally}
use l4_maglev_lb.Forward.Loop.{Wake, ready, timer, frame, run_loop}
use l4_maglev_lb.Forward.Handled.{handled, run_ready, run_loop-handled}
use l4_maglev_lb.Forward.Expiry.{timer_count, Later, unseen, run_loop-clears}
use l4_maglev_lb.Forward.Flows.{Agrees}
use l4_maglev_lb.Forward.Agreement.{run_loop-Agrees}
use l4_maglev_lb.Forward.Sticky.{Keeps, handle_packet-Keeps}
use l4_maglev_lb.Forward.Delivers.{inner_packet, handle_packet-pinned, handle_packet-assigns}

abbrev sample_cfg : DatapathConfig
sample_cfg = record {
  vip = 0x0100000a;
  director_ip = 0x0500000a;
  ttl = 64;
  own_mac = 2 ∷ 0 ∷ 0 ∷ 0 ∷ 0 ∷ 1 ∷ [];
  tcp_timeout_ns = 1000;
  udp_timeout_ns = 60;
}

abbrev sample_stats : LbStats
sample_stats = record {
  counters = zero_counters;
  backends = replicate 2 zero_per_backend;
  max_backends = 2;
}

abbrev view_one : BackendView
view_one = record { id = 1; addr = 0x0200000a; port = 80; mac = 2 ∷ 0 ∷ 0 ∷ 0 ∷ 0 ∷ 7 ∷ [] }

abbrev sample_snapshot : RoutingSnapshot
sample_snapshot = record {
  table = record { m = 7; lookup = replicate 7 1 };
  backends = view_one ∷ [];
  generation = 1;
}

abbrev pinned_dp : Datapath
pinned_dp = record { table = one_flow; stats = sample_stats }

abbrev fresh_dp : Datapath
fresh_dp = record { table = fresh_table; stats = sample_stats }

pinned_to_one : backend_of (pinned sum_hash one_flow sample_key) ≡ some 1
pinned_to_one = ap backend_of one_flow-pinned

not_pinned : backend_of (pinned sum_hash fresh_table sample_key) ≡ none
unfolding pinned key_bytes bytes32 bytes16
not_pinned = refl

resolved : routing_snapshot_find_backend sample_snapshot 1 ≡ some view_one
unfolding routing_snapshot_find_backend
resolved = refl

named : is_negative (maglev_table_lookup sum_hash sample_snapshot.table sample_key) ≡ false
unfolding maglev_table_lookup key_bytes bytes32 bytes16
named = refl

resolved_new :
    routing_snapshot_find_backend sample_snapshot
      (maglev_table_lookup sum_hash sample_snapshot.table sample_key)
    ≡ some view_one
unfolding routing_snapshot_find_backend maglev_table_lookup key_bytes bytes32 bytes16
resolved_new = refl

handle_packet-Keeps_example :
    Keeps sample_cfg length sum_hash 120 2
      (omega arith)
      one_flow
      (handle_packet sample_cfg length sum_hash 120
        (some sample_snapshot)
        sample_frame
        pinned_dp).0.table
handle_packet-Keeps_example =
    handle_packet-Keeps sample_cfg length sum_hash 120 2 (omega arith) (some sample_snapshot)
      sample_frame pinned_dp one_flow-IsValid

handle_packet-pinned_example :
    (frame : List ℕ) × ((handle_packet sample_cfg length sum_hash 120
        (some sample_snapshot)
        sample_frame
        pinned_dp).1
      ≡ some frame)
    × Carries view_one.mac sample_cfg.own_mac sample_cfg.director_ip view_one.addr
        (inner_packet sample_frame sample_flow)
        frame
handle_packet-pinned_example =
    handle_packet-pinned sample_cfg length sum_hash 120 (omega arith, omega arith) 2 (omega arith)
      pinned_dp one_flow-IsValid sample_snapshot sample_frame sample_flow 1 view_one
      sample_extracted refl (omega arith) (omega arith) pinned_to_one resolved

handle_packet-assigns_example :
    (frame : List ℕ) × ((handle_packet sample_cfg length sum_hash 120
        (some sample_snapshot)
        sample_frame
        fresh_dp).1
      ≡ some frame)
    × Carries view_one.mac sample_cfg.own_mac sample_cfg.director_ip view_one.addr
        (inner_packet sample_frame sample_flow)
        frame
    × (backend_of (
          pinned sum_hash
            (handle_packet sample_cfg length sum_hash 120
              (some sample_snapshot)
              sample_frame
              fresh_dp).0.table
            sample_flow.key)
        ≡ some (maglev_table_lookup sum_hash sample_snapshot.table sample_flow.key))
handle_packet-assigns_example =
    handle_packet-assigns sample_cfg length sum_hash 120 (omega arith, omega arith) 2 (omega arith)
      fresh_dp fresh-IsValid sample_snapshot sample_frame sample_flow view_one sample_extracted refl
      (omega arith) (omega arith) not_pinned (omega arith) named resolved_new

abbrev ticks : ℕ → List Wake
ticks zero = []
ticks (suc n) = ready (timer 2000 ∷ []) ∷ ticks n

ticks-Later : (n : ℕ) → Later sample_cfg 100 (handled (ticks n))
ticks-Later zero = tt
ticks-Later (suc n) = (omega arith, omega arith, omega arith, ticks-Later n)

timer_count-ticks : (n : ℕ) → timer_count (handled (ticks n)) ≡ n
timer_count-ticks zero = refl
timer_count-ticks (suc n) = ap suc (timer_count-ticks n)

-- A packet, and then half a minute.
abbrev sample_wakes : List Wake
sample_wakes = ready (frame (some sample_snapshot) sample_frame 101 ∷ []) ∷ ticks 60

run_loop-clears_example :
    tally
      (λ e. to_nat (unseen 100 e))
      (run_loop length sum_hash sample_cfg sample_wakes pinned_dp).dp.table.buckets
    ≡ 0
run_loop-clears_example =
    run_loop-clears length sum_hash sample_cfg 100 2 sample_wakes pinned_dp one_flow-IsValid
      (omega arith, ticks-Later 60) (omega (arith, timer_count-ticks 60))

run_loop-handled_example :
    (run_loop length sum_hash sample_cfg sample_wakes pinned_dp).dp
    ≡ run_ready length sum_hash sample_cfg (handled sample_wakes) pinned_dp
run_loop-handled_example = run_loop-handled length sum_hash sample_cfg sample_wakes pinned_dp

fresh-Agrees : Agrees 2 2 fresh_table sample_stats
fresh-Agrees = record {
  valid = fresh-IsValid;
  sized = record { size = refl; bound = refl };
  flows = λ id p. ap (λ b. b.active_flows) (get_or-replicate 2 zero_per_backend id);
}

run_loop-Agrees_example :
    Agrees 2 2
      (run_loop length sum_hash sample_cfg sample_wakes fresh_dp).dp.table
      (run_loop length sum_hash sample_cfg sample_wakes fresh_dp).dp.stats
run_loop-Agrees_example =
    run_loop-Agrees 2 2 (omega arith) (omega arith) length sum_hash sample_cfg sample_wakes fresh_dp
      fresh-Agrees
