-- ===== src/Stats.antt =====
-- src/stats/stats_registry.c: the counters of the balancer and of each backend. Every counter is
-- an atomic uint64_t; each operation is one step.
use l4_maglev_lb.Common.{
  ℕ, ◌+◌, ◌-◌, ◌^◌, Bool, Option, none, some, List, ltb, if◌then◌else◌, get_or, set, replicate, u64,
}

pub record PerBackend : Type 0 where
  pub packets : ℕ
  pub bytes : ℕ
  pub active_flows : ℕ
  pub flows_assigned : ℕ
  pub health_check_failures : ℕ

abbrev pub zero_per_backend : PerBackend
zero_per_backend = record {
  packets = 0;
  bytes = 0;
  active_flows = 0;
  flows_assigned = 0;
  health_check_failures = 0;
}

-- The counters that `stats_registry_snapshot` copies out.
pub record Counters : Type 0 where
  pub rx_packets : ℕ
  pub rx_bytes : ℕ
  pub tx_packets : ℕ
  pub tx_bytes : ℕ
  pub drops_parse_error : ℕ
  pub drops_no_backend : ℕ
  pub drops_backend_unhealthy : ℕ
  pub drops_conntrack_full : ℕ
  pub conntrack_hits : ℕ
  pub conntrack_misses : ℕ
  pub conntrack_evictions : ℕ

abbrev pub zero_counters : Counters
zero_counters = record {
  rx_packets = 0;
  rx_bytes = 0;
  tx_packets = 0;
  tx_bytes = 0;
  drops_parse_error = 0;
  drops_no_backend = 0;
  drops_backend_unhealthy = 0;
  drops_conntrack_full = 0;
  conntrack_hits = 0;
  conntrack_misses = 0;
  conntrack_evictions = 0;
}

pub record LbStats : Type 0 where
  pub counters : Counters
  pub backends : List PerBackend
  pub max_backends : ℕ

-- `atomic_fetch_add` and `atomic_fetch_sub` on uint64_t.
abbrev pub plus : ℕ → ℕ → ℕ
plus x n = u64 (x + n)

abbrev pub minus_one : ℕ → ℕ
minus_one x = u64 (x + 2 ^ 64 - 1)

-- `none` is -1; the counters are asked for only where there are to be backends.
unfoldable pub stats_registry_init : Bool → ℕ → Option LbStats
stats_registry_init given max_backends =
    if ltb 0 max_backends
    then if given
      then some (record {
        counters = zero_counters;
        backends = replicate max_backends zero_per_backend;
        max_backends = max_backends;
      })
      else none
    else some (record { counters = zero_counters; backends = List.[]; max_backends = 0 })

-- The change of one backend's counters, behind the guard that each of the recorders has.
abbrev pub at_backend : LbStats → ℕ → (PerBackend → PerBackend) → LbStats
at_backend s id f =
    if ltb id s.max_backends
    then record s { backends = set s.backends id (f (get_or s.backends id zero_per_backend)) }
    else s

unfoldable pub stats_record_backend_packet : LbStats → ℕ → ℕ → LbStats
stats_record_backend_packet s id n =
    at_backend s id (λ b. record b { packets = plus b.packets 1; bytes = plus b.bytes n })

unfoldable pub stats_backend_flow_opened : LbStats → ℕ → LbStats
stats_backend_flow_opened s id = at_backend s id (λ b. record b {
  active_flows = plus b.active_flows 1;
  flows_assigned = plus b.flows_assigned 1;
})

unfoldable pub stats_backend_flow_closed : LbStats → ℕ → LbStats
stats_backend_flow_closed s id =
    at_backend s id (λ b. record b { active_flows = minus_one b.active_flows })

unfoldable pub stats_backend_health_check_failed : LbStats → ℕ → LbStats
stats_backend_health_check_failed s id =
    at_backend s id (λ b. record b { health_check_failures = plus b.health_check_failures 1 })

unfoldable pub stats_registry_snapshot : LbStats → Counters
stats_registry_snapshot s = s.counters

unfoldable pub stats_registry_snapshot_backend : LbStats → ℕ → PerBackend
stats_registry_snapshot_backend s id =
    if ltb id s.max_backends then get_or s.backends id zero_per_backend else zero_per_backend
