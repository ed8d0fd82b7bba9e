-- ===== src/Ui/Metrics.antt =====
-- src/ui/metrics_http.c: the text that is served, and the fixed buffer that it is written to.
--
-- The calls of `mb_appendf` are a list, in their order. What `build_metrics_body` reads while other
-- threads write is taken at one moment.
use Prim.Native.String.{String}
use l4_maglev_lb.Common.{
  ℕ, suc, ◌-◌, ◌&&◌, List, [], ◌∷◌, ◌++◌, map, to_nat, ltb, leb, if◌then◌else◌, length, take, codes,
}
use l4_maglev_lb.Maglev.Hash.{decimal, decimal_u64}
use l4_maglev_lb.Net.Headers.{ipv4_format}
use l4_maglev_lb.Backend.State.{Backend, BackendManager, backend_max, enabled, draining, same_state}
use l4_maglev_lb.Backend.Manager.{backend_manager_snapshot_all}
use l4_maglev_lb.Backend.Generator.{
  TableGenerator, table_generator_generation, table_generator_last_regen_us,
}
use l4_maglev_lb.Conntrack.Table.{ConntrackTable}
use l4_maglev_lb.Stats.{LbStats, stats_registry_snapshot, stats_registry_snapshot_backend}

-- 128 KiB.
abbrev pub metrics_body_cap : ℕ
metrics_body_cap = 131072

-- `data` is what has been written, `len` bytes of it.
pub record MetricsBuf : Type 0 where
  pub data_ : List ℕ
  pub cap : ℕ

-- With `text` what `vsnprintf` formats: where it does not fit, all of it but the last byte of the
-- room, which is the terminator, and the length runs up to the capacity.
unfoldable pub mb_appendf : MetricsBuf → List ℕ → MetricsBuf
mb_appendf b text =
    let room = b.cap - length b.data_ in
    if leb b.cap (length b.data_)
    then b
    else if ltb (length text) room
    then record b { data_ = b.data_ ++ text }
    else record b { data_ = b.data_ ++ (take (room - 1) text ++ 0 ∷ []) }

unfoldable pub mb_append_all : List (List ℕ) → MetricsBuf → MetricsBuf
unfolding mb_appendf
mb_append_all [] b = b
mb_append_all (text ∷ texts) b = mb_append_all texts (mb_appendf b text)

pub record MetricsHttp : Type 0 where
  pub start_time : ℕ
  pub table_size : ℕ
  pub configured_backends : ℕ
  pub bm : BackendManager
  pub tg : TableGenerator
  pub ct : ConntrackTable
  pub stats : LbStats

-- A fixed text; one with a number at its end; one for each backend.
pub data Append : Type 0 where
  text : String → Append
  value : String → ℕ → Append
  each : String → (Backend → ℕ) → Append

-- "%s{backend_id=\"%u\",backend_addr=\"%s:%u\"} %llu\n"
abbrev pub labelled : String → Backend → ℕ → List ℕ
labelled name b n =
    codes name
    ++ (codes "{backend_id=\""
        ++ (decimal b.id
            ++ (codes "\",backend_addr=\""
                ++ (ipv4_format b.addr 16
                    ++ (codes ":"
                        ++ (decimal b.port ++ (codes "\"} " ++ (decimal_u64 n ++ codes "\n"))))))))

-- The texts of a call, or of the loop around it.
abbrev pub rendered : List Backend → Append → List (List ℕ)
rendered bs (text s) = codes s ∷ []
rendered bs (value s n) = (codes s ++ (decimal_u64 n ++ codes "\n")) ∷ []
rendered bs (each s f) = map (λ b. labelled s b (f b)) bs

abbrev pub all_rendered : List Backend → List Append → List (List ℕ)
all_rendered bs [] = []
all_rendered bs (a ∷ rest) = rendered bs a ++ all_rendered bs rest

unfoldable pub all_backends : MetricsHttp → List Backend
unfolding backend_manager_snapshot_all
all_backends m = backend_manager_snapshot_all m.bm backend_max

-- The loop that counts the eligible backends.
unfoldable pub count_eligible : List Backend → ℕ
count_eligible [] = 0
count_eligible (b ∷ bs) =
    let rest = count_eligible bs in
    if b.healthy && (b.mac_resolved && same_state b.admin_state enabled) then suc rest else rest

abbrev pub counter_lines : MetricsHttp → List Append
counter_lines m =
    text "# HELP maglev_lb_start_time_seconds Unix time the process started.\n"
    ∷ text "# TYPE maglev_lb_start_time_seconds gauge\n"
    ∷ value "maglev_lb_start_time_seconds " (m.start_time)
    ∷ text "# HELP maglev_lb_table_size Configured Maglev lookup table size (M).\n"
    ∷ text "# TYPE maglev_lb_table_size gauge\n"
    ∷ value "maglev_lb_table_size " (m.table_size)
    ∷ text
        "# HELP maglev_lb_rx_packets_total Packets received on the ingestion raw socket (clients -> LB).\n"
    ∷ text "# TYPE maglev_lb_rx_packets_total counter\n"
    ∷ value "maglev_lb_rx_packets_total " ((stats_registry_snapshot m.stats).rx_packets)
    ∷ text "# HELP maglev_lb_rx_bytes_total Bytes received on the ingestion raw socket.\n"
    ∷ text "# TYPE maglev_lb_rx_bytes_total counter\n"
    ∷ value "maglev_lb_rx_bytes_total " ((stats_registry_snapshot m.stats).rx_bytes)
    ∷ text
        "# HELP maglev_lb_tx_packets_total GRE-encapsulated packets forwarded to backends (LB -> backends).\n"
    ∷ text "# TYPE maglev_lb_tx_packets_total counter\n"
    ∷ value "maglev_lb_tx_packets_total " ((stats_registry_snapshot m.stats).tx_packets)
    ∷ text
        "# HELP maglev_lb_tx_bytes_total Bytes forwarded to backends, including the GRE+IP+Ethernet wrapper.\n"
    ∷ text "# TYPE maglev_lb_tx_bytes_total counter\n"
    ∷ value "maglev_lb_tx_bytes_total " ((stats_registry_snapshot m.stats).tx_bytes)
    ∷ text "# HELP maglev_lb_drops_total Packets the datapath dropped, by reason.\n"
    ∷ text "# TYPE maglev_lb_drops_total counter\n"
    ∷ value "maglev_lb_drops_total{reason=\"parse_error\"} "
        ((stats_registry_snapshot m.stats).drops_parse_error)
    ∷ value "maglev_lb_drops_total{reason=\"no_backend\"} "
        ((stats_registry_snapshot m.stats).drops_no_backend)
    ∷ value "maglev_lb_drops_total{reason=\"backend_unhealthy\"} "
        ((stats_registry_snapshot m.stats).drops_backend_unhealthy)
    ∷ value "maglev_lb_drops_total{reason=\"conntrack_full\"} "
        ((stats_registry_snapshot m.stats).drops_conntrack_full)
    ∷ text "# HELP maglev_lb_conntrack_lookups_total Conntrack lookups, by result.\n"
    ∷ text "# TYPE maglev_lb_conntrack_lookups_total counter\n"
    ∷ value "maglev_lb_conntrack_lookups_total{result=\"hit\"} "
        ((stats_registry_snapshot m.stats).conntrack_hits)
    ∷ value "maglev_lb_conntrack_lookups_total{result=\"miss\"} "
        ((stats_registry_snapshot m.stats).conntrack_misses)
    ∷ text
        "# HELP maglev_lb_conntrack_evictions_total Conntrack entries reaped for being idle past their timeout.\n"
    ∷ text "# TYPE maglev_lb_conntrack_evictions_total counter\n"
    ∷ value "maglev_lb_conntrack_evictions_total "
        ((stats_registry_snapshot m.stats).conntrack_evictions)
    ∷ text
        "# HELP maglev_lb_conntrack_active_flows Flows currently pinned in the conntrack table.\n"
    ∷ text "# TYPE maglev_lb_conntrack_active_flows gauge\n"
    ∷ value "maglev_lb_conntrack_active_flows " (m.ct.active)
    ∷ []

abbrev pub table_lines : MetricsHttp → List Append
table_lines m =
    text
      "# HELP maglev_lb_table_generation Number of times the Maglev lookup table has been (re)generated, including the initial build.\n"
    ∷ text "# TYPE maglev_lb_table_generation counter\n"
    ∷ value "maglev_lb_table_generation " (table_generator_generation m.tg)
    ∷ text
        "# HELP maglev_lb_table_regen_last_microseconds Wall-clock duration of the most recent table regeneration.\n"
    ∷ text "# TYPE maglev_lb_table_regen_last_microseconds gauge\n"
    ∷ value "maglev_lb_table_regen_last_microseconds " (table_generator_last_regen_us m.tg)
    ∷ []

abbrev pub backend_lines : MetricsHttp → List Append
backend_lines m =
    text "# HELP maglev_lb_backends_configured Backends configured at startup via --backend.\n"
    ∷ text "# TYPE maglev_lb_backends_configured gauge\n"
    ∷ value "maglev_lb_backends_configured " (m.configured_backends)
    ∷ text
        "# HELP maglev_lb_backends_eligible Backends currently eligible for new flows (healthy, admin-enabled, MAC resolved).\n"
    ∷ text "# TYPE maglev_lb_backends_eligible gauge\n"
    ∷ value "maglev_lb_backends_eligible " (count_eligible (all_backends m))
    ∷ text
        "# HELP maglev_lb_backend_up Whether the backend is currently healthy (1) or not (0), as last determined by the health checker.\n"
    ∷ text "# TYPE maglev_lb_backend_up gauge\n"
    ∷ each "maglev_lb_backend_up" (λ b. to_nat b.healthy)
    ∷ text
        "# HELP maglev_lb_backend_admin_enabled Whether the backend's admin state is ENABLED (1) rather than DRAINING/DISABLED (0).\n"
    ∷ text "# TYPE maglev_lb_backend_admin_enabled gauge\n"
    ∷ each "maglev_lb_backend_admin_enabled" (λ b. to_nat (same_state b.admin_state enabled))
    ∷ text
        "# HELP maglev_lb_backend_draining Whether the backend is currently DRAINING (1): no new flows, but flows already pinned to it via conntrack keep being forwarded until they finish naturally.\n"
    ∷ text "# TYPE maglev_lb_backend_draining gauge\n"
    ∷ each "maglev_lb_backend_draining" (λ b. to_nat (same_state b.admin_state draining))
    ∷ []

abbrev pub traffic_lines : MetricsHttp → List Append
traffic_lines m =
    text
      "# HELP maglev_lb_backend_packets_total GRE-encapsulated packets forwarded to this specific backend.\n"
    ∷ text "# TYPE maglev_lb_backend_packets_total counter\n"
    ∷ each "maglev_lb_backend_packets_total"
        (λ b. (stats_registry_snapshot_backend m.stats b.id).packets)
    ∷ text
        "# HELP maglev_lb_backend_bytes_total Bytes forwarded to this specific backend (GRE-encapsulated, including the wrapper).\n"
    ∷ text "# TYPE maglev_lb_backend_bytes_total counter\n"
    ∷ each "maglev_lb_backend_bytes_total"
        (λ b. (stats_registry_snapshot_backend m.stats b.id).bytes)
    ∷ text
        "# HELP maglev_lb_backend_active_flows Flows in the conntrack table currently pinned to this backend.\n"
    ∷ text "# TYPE maglev_lb_backend_active_flows gauge\n"
    ∷ each "maglev_lb_backend_active_flows"
        (λ b. (stats_registry_snapshot_backend m.stats b.id).active_flows)
    ∷ text
        "# HELP maglev_lb_backend_flows_assigned_total New flows the datapath has pinned to this backend (conntrack inserts). A packet reusing an already-pinned 5-tuple is not counted.\n"
    ∷ text "# TYPE maglev_lb_backend_flows_assigned_total counter\n"
    ∷ each "maglev_lb_backend_flows_assigned_total"
        (λ b. (stats_registry_snapshot_backend m.stats b.id).flows_assigned)
    ∷ text
        "# HELP maglev_lb_backend_health_check_failures_total Failed health-check probes against this backend (every failure, not just threshold-crossing ones).\n"
    ∷ text "# TYPE maglev_lb_backend_health_check_failures_total counter\n"
    ∷ each "maglev_lb_backend_health_check_failures_total"
        (λ b. (stats_registry_snapshot_backend m.stats b.id).health_check_failures)
    ∷ []

abbrev pub metrics_lines : MetricsHttp → List Append
metrics_lines m = counter_lines m ++ (table_lines m ++ (backend_lines m ++ traffic_lines m))

unfoldable pub build_metrics_body : MetricsHttp → MetricsBuf → MetricsBuf
unfolding mb_append_all all_backends count_eligible
build_metrics_body m b = mb_append_all (all_rendered (all_backends m) (metrics_lines m)) b
