-- ===== src/Forward/Datapath.antt =====
-- `handle_packet`, `on_flow_evicted` and the events of `datapath_run` of src/forward/datapath.c.
--
-- The socket is an argument: the frame received, and a function that says how many bytes of a
-- frame are sent (0 where `raw_socket_send` fails). The clock and the active snapshot are
-- arguments, too, read at the place where the code reads them.
use l4_maglev_lb.Common.{
  ℕ, ◌+◌, ◌/◌, Bool, Option, none, some, List, [], ◌∷◌, ltb, ◌==◌, if◌then◌else◌, length, take,
  drop, true, false,
}
use l4_maglev_lb.Net.Headers.{gre_encap_build}
use l4_maglev_lb.Net.Flow.{
  FlowExtractResult, ParseStatus, parse_ok, parse_truncated, parse_unsupported, packet_extract_flow,
}
use l4_maglev_lb.Maglev.Table.{
  BackendView, RoutingSnapshot, is_negative, maglev_table_lookup, routing_snapshot_find_backend,
}
use l4_maglev_lb.Conntrack.Table.{
  ConntrackTable, Clock, conntrack_lookup, conntrack_insert, conntrack_reap_slice,
}
use l4_maglev_lb.Stats.{
  Counters, LbStats, plus, stats_record_backend_packet, stats_backend_flow_opened,
  stats_backend_flow_closed,
}

abbrev pub tx_buf_len : ℕ
tx_buf_len = 2048

pub record DatapathConfig : Type 0 where
  pub vip : ℕ
  pub director_ip : ℕ
  pub ttl : ℕ
  pub own_mac : List ℕ
  pub tcp_timeout_ns : ℕ
  pub udp_timeout_ns : ℕ

-- The state that a packet changes, and the frame that was handed to the socket, if one was.
pub record Datapath : Type 0 where
  pub table : ConntrackTable
  pub stats : LbStats

abbrev pub tally : Datapath → (Counters → Counters) → Datapath
tally dp f = record dp { stats = record dp.stats { counters = f dp.stats.counters } }

abbrev pub drop_parse_error : Counters → Counters
drop_parse_error c = record c { drops_parse_error = plus c.drops_parse_error 1 }

abbrev pub drop_no_backend : Counters → Counters
drop_no_backend c = record c { drops_no_backend = plus c.drops_no_backend 1 }

abbrev pub drop_backend_unhealthy : Counters → Counters
drop_backend_unhealthy c = record c { drops_backend_unhealthy = plus c.drops_backend_unhealthy 1 }

abbrev pub drop_conntrack_full : Counters → Counters
drop_conntrack_full c = record c { drops_conntrack_full = plus c.drops_conntrack_full 1 }

abbrev pub count_rx : ℕ → Counters → Counters
count_rx n c = record c { rx_packets = plus c.rx_packets 1; rx_bytes = plus c.rx_bytes n }

abbrev pub count_tx : ℕ → Counters → Counters
count_tx n c = record c { tx_packets = plus c.tx_packets 1; tx_bytes = plus c.tx_bytes n }

abbrev pub count_lookup : Bool → Counters → Counters
count_lookup true c = record c { conntrack_hits = plus c.conntrack_hits 1 }
count_lookup false c = record c { conntrack_misses = plus c.conntrack_misses 1 }

abbrev pub is_hit : Option ℕ → Bool
is_hit none = false
is_hit (some id) = true

module _ (cfg : DatapathConfig) (send : List ℕ → ℕ) where
  -- After `gre_encap_build`.
  abbrev pub transmit : ℕ → Option (List ℕ) → Datapath → Datapath × Option (List ℕ)
  transmit id none dp = (tally dp drop_parse_error, none)
  transmit id (some frame) dp =
      let sent = send frame in
      (
        if ltb 0 sent
            then record (tally dp (count_tx sent)) {
              stats = stats_record_backend_packet (tally dp (count_tx sent)).stats id sent;
            }
            else dp,
        some frame,
      )

  -- After `routing_snapshot_find_backend`.
  abbrev pub encapsulate :
      List ℕ → FlowExtractResult → ℕ → Option BackendView → Datapath → Datapath × Option (List ℕ)
  encapsulate rx fx id none dp = (tally dp drop_backend_unhealthy, none)
  encapsulate rx fx id (some backend) dp =
      let inner_packet = take fx.ip_total_len (drop fx.ip_offset rx) in
      transmit id
        (gre_encap_build tx_buf_len backend.mac cfg.own_mac cfg.director_ip backend.addr cfg.ttl
          inner_packet)
        dp

  abbrev pub forward :
      List ℕ → FlowExtractResult → RoutingSnapshot → ℕ → Datapath → Datapath × Option (List ℕ)
  forward rx fx snap id dp = encapsulate rx fx id (routing_snapshot_find_backend snap id) dp

  module _ (xxh64 : List ℕ → ℕ → ℕ) (now : ℕ) where
    -- A miss, after `conntrack_insert`.
    abbrev pub inserted :
        List ℕ
        → FlowExtractResult
        → RoutingSnapshot
        → ℕ
        → Option ConntrackTable
        → Datapath
        → Datapath × Option (List ℕ)
    inserted rx fx snap id none dp = (tally dp drop_conntrack_full, none)
    inserted rx fx snap id (some table) dp =
        forward rx fx snap id
          (record { table = table; stats = stats_backend_flow_opened dp.stats id })

    abbrev pub miss :
        List ℕ → FlowExtractResult → RoutingSnapshot → Datapath → Datapath × Option (List ℕ)
    miss rx fx snap dp =
        let id = maglev_table_lookup xxh64 snap.table fx.key in
        if is_negative id
        then (tally dp drop_no_backend, none)
        else inserted rx fx snap id (conntrack_insert xxh64 dp.table fx.key id now) dp

    -- After the lookup, whose result is counted before the snapshot is read.
    abbrev pub routed :
        List ℕ
        → FlowExtractResult
        → Option RoutingSnapshot
        → Option ℕ
        → Datapath
        → Datapath × Option (List ℕ)
    routed rx fx none hit dp = (tally dp drop_no_backend, none)
    routed rx fx (some snap) none dp = miss rx fx snap dp
    routed rx fx (some snap) (some id) dp = forward rx fx snap id dp

    abbrev pub looked_up :
        List ℕ
        → FlowExtractResult
        → Option RoutingSnapshot
        → Datapath
        → Option ℕ × ConntrackTable
        → Datapath × Option (List ℕ)
    looked_up rx fx active dp (hit, table) =
        routed rx fx active hit (tally (record dp { table = table }) (count_lookup (is_hit hit)))

    abbrev pub parsed :
        List ℕ → Option RoutingSnapshot → ParseStatus → Datapath → Datapath × Option (List ℕ)
    parsed rx active parse_truncated dp = (tally dp drop_parse_error, none)
    parsed rx active parse_unsupported dp = (dp, none)
    parsed rx active (parse_ok fx) dp =
        if fx.key.dst_ip == cfg.vip
        then looked_up rx fx active dp (conntrack_lookup xxh64 dp.table fx.key now)
        else (dp, none)

    -- An empty frame is an error of the socket or nothing received.
    unfoldable pub handle_packet :
        Option RoutingSnapshot → List ℕ → Datapath → Datapath × Option (List ℕ)
    unfolding packet_extract_flow conntrack_lookup conntrack_insert maglev_table_lookup
        routing_snapshot_find_backend gre_encap_build
    handle_packet active [] dp = (dp, none)
    handle_packet active (b ∷ bs) dp =
        parsed (b ∷ bs) active (packet_extract_flow (b ∷ bs))
          (tally dp (count_rx (length (b ∷ bs))))

-- The backend id is the pattern of an int32_t.
unfoldable pub on_flow_evicted : ℕ → LbStats → LbStats
unfolding stats_backend_flow_closed
on_flow_evicted id stats = if is_negative id then stats else stats_backend_flow_closed stats id

-- `conntrack_bucket_count(ct) / 60 + 1`
abbrev pub buckets_per_tick : ConntrackTable → ℕ
buckets_per_tick ct = ct.bucket_count / 60 + 1

-- The timer's event; the generator's reclaim that follows is its own step.
unfoldable pub on_timer : DatapathConfig → ℕ → Datapath → Datapath
unfolding conntrack_reap_slice on_flow_evicted
on_timer cfg now dp =
    let c : Clock = record {
      now_ns = now;
      tcp_timeout_ns = cfg.tcp_timeout_ns;
      udp_timeout_ns = cfg.udp_timeout_ns;
    } in
    let s = conntrack_reap_slice on_flow_evicted c dp.table (buckets_per_tick dp.table) dp.stats in
    tally (record { table = s.table; stats = s.ctx })
      (λ c'. record c' { conntrack_evictions = plus c'.conntrack_evictions s.reaped })
