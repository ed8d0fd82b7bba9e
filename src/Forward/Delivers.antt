-- ===== src/Forward/Delivers.antt =====
-- Where src/forward/datapath.c sends a packet, and what the backend receives.
use l4_maglev_lb.Common.{
  ℕ, ◌+◌, ◌^◌, ◌≤◌, ◌<◌, ◌≡◌, refl, ap, ◌∙◌, false, Option, none, some, List, [], ◌∷◌, inl, inr,
  arith, if◌then◌else◌, length, take, drop, length-take, length-drop, List-cases, get_or, ==_iff,
}
use l4_maglev_lb.Net.Flow.{
  FlowExtractResult, parse_ok, packet_extract_flow, packet_extract_flow-Extracts,
}
use l4_maglev_lb.Net.Encap.{Carries, gre_encap_build-Carries}
use l4_maglev_lb.Maglev.Table.{
  BackendView, RoutingSnapshot, is_negative, maglev_table_lookup, routing_snapshot_find_backend,
}
use l4_maglev_lb.Net.Key.{FlowKey, same_key_refl}
use l4_maglev_lb.Stats.{stats_backend_flow_opened}
use l4_maglev_lb.Forward.Sticky.{forward-table}
use l4_maglev_lb.Conntrack.Table.{
  ConntrackTable, Entry, refresh, after_walk, bucket_of, pin, conntrack_lookup, conntrack_insert,
}
use l4_maglev_lb.Conntrack.Invariant.{IsValid, active-free, lookup-IsValid}
use l4_maglev_lb.Conntrack.Lookup.{
  backend_of, pinned, conntrack_lookup-answers, conntrack_insert-pins,
}
use l4_maglev_lb.Forward.Datapath.{
  DatapathConfig, Datapath, tally, drop_no_backend, count_rx, count_lookup, is_hit, transmit,
  encapsulate, inserted, routed, looked_up, parsed, handle_packet, tx_buf_len,
}

-- The packet inside a received frame.
abbrev pub inner_packet : List ℕ → FlowExtractResult → List ℕ
inner_packet rx fx = take fx.ip_total_len (drop fx.ip_offset rx)

length-inner_packet :
    (rx : List ℕ) (fx : FlowExtractResult)
    → packet_extract_flow rx ≡ parse_ok fx
    → length (inner_packet rx fx) ≡ fx.ip_total_len
length-inner_packet rx fx ok = omega (
  arith,
  (packet_extract_flow-Extracts rx fx ok).inside,
  length-take fx.ip_total_len (drop fx.ip_offset rx),
  length-drop fx.ip_offset rx,
)

module _ (cfg : DatapathConfig) (send : List ℕ → ℕ) (xxh64 : List ℕ → ℕ → ℕ) (now : ℕ)
    (addresses : (cfg.director_ip < 2 ^ 32) × (cfg.ttl < 2 ^ 8)) where
  encapsulate-Carries :
      (rx : List ℕ) (fx : FlowExtractResult) (id : ℕ) (v : BackendView) (dp : Datapath)
      → packet_extract_flow rx ≡ parse_ok fx
      → fx.ip_total_len + 38 ≤ tx_buf_len
      → v.addr < 2 ^ 32
      → (frame : List ℕ) × ((encapsulate cfg send rx fx id (some v) dp).1 ≡ some frame)
        × Carries v.mac cfg.own_mac cfg.director_ip v.addr (inner_packet rx fx) frame
  encapsulate-Carries rx fx id v dp ok room addr =
      let size = length-inner_packet rx fx ok in
      let (frame, built, carries) =
        gre_encap_build-Carries v.mac cfg.own_mac cfg.director_ip v.addr cfg.ttl
          (inner_packet rx fx) addresses.0 addr addresses.1 (omega (arith, size)) tx_buf_len
          (omega (arith, size)) in
      (frame, ap (λ o. (transmit cfg send id o dp).1) built, carries)

  -- A packet of a flow that is pinned to a backend which the active snapshot still resolves goes to
  -- that backend: the frame handed to the socket has its link and network address, and carries the
  -- packet byte for byte. The packet must fit the buffer with its new headers, the addresses 32 bits
  -- and the time to live 8, and the flow table is valid.
  pub handle_packet-pinned :
      (max_flows : ℕ) (fits : max_flows < 2 ^ 64) (dp : Datapath)
      (valid : IsValid max_flows dp.table) (snap : RoutingSnapshot) (rx : List ℕ)
      (fx : FlowExtractResult) (id : ℕ) (v : BackendView)
      → packet_extract_flow rx ≡ parse_ok fx
      → fx.key.dst_ip ≡ cfg.vip
      → fx.ip_total_len + 38 ≤ tx_buf_len
      → v.addr < 2 ^ 32
      → backend_of (pinned xxh64 dp.table fx.key) ≡ some id
      → routing_snapshot_find_backend snap id ≡ some v
      → (frame : List ℕ) × ((handle_packet cfg send xxh64 now (some snap) rx dp).1 ≡ some frame)
        × Carries v.mac cfg.own_mac cfg.director_ip v.addr (inner_packet rx fx) frame
  unfolding handle_packet
  handle_packet-pinned max_flows fits dp valid snap [] fx id v ok ours room addr pin found =
      let e = packet_extract_flow-Extracts [] fx ok in absurd (omega (arith, e.inside, e.header))
  handle_packet-pinned max_flows fits dp valid snap (b ∷ bs) fx id v ok ours room addr pin found =
      let rx = b ∷ bs in
      let r = conntrack_lookup xxh64 dp.table fx.key now in
      let answer =
        (conntrack_lookup-answers xxh64 max_flows fits dp.table valid fx.key fx.key now).0 in
      let dp' = tally dp (count_rx (length rx)) in
      let looked : Option ℕ → Datapath =
        λ h. tally (record dp' { table = r.1 }) (count_lookup (is_hit h)) in
      let (frame, sent, carries) = encapsulate-Carries rx fx id v (looked (some id)) ok room addr in
      (
        frame,
        ap (λ ps. (parsed cfg send xxh64 now rx (some snap) ps dp').1) ok
            ∙ (ap
                  (λ t.
                    (if t
                      then looked_up cfg send xxh64 now rx fx (some snap) dp' r
                      else (dp', none)).1)
                  ((==_iff fx.key.dst_ip cfg.vip).1 ours)
                ∙ (ap (λ h. (routed cfg send xxh64 now rx fx (some snap) h (looked h)).1)
                      (answer ∙ pin)
                    ∙ (ap (λ o. (encapsulate cfg send rx fx id o (looked (some id))).1) found
                        ∙ sent))),
        carries,
      )

  lookup-frame :
      (ct : ConntrackTable) (key : FlowKey)
      → ((conntrack_lookup xxh64 ct key now).1.free_list ≡ ct.free_list)
        × ((conntrack_lookup xxh64 ct key now).1.active ≡ ct.active)
  unfolding conntrack_lookup
  lookup-frame ct key = walked (refresh key now (get_or ct.buckets (bucket_of xxh64 ct key) []))
    where
      walked :
          (r : Option (ℕ × List Entry))
          → ((after_walk ct (bucket_of xxh64 ct key) r).1.free_list ≡ ct.free_list)
            × ((after_walk ct (bucket_of xxh64 ct key) r).1.active ≡ ct.active)
      walked none = (refl, refl)
      walked (some (id, c)) = (refl, refl)

  insert_exists :
      (max_flows : ℕ) (fits : max_flows < 2 ^ 64) (ct : ConntrackTable)
      (valid : IsValid max_flows ct) (key : FlowKey) (id : ℕ)
      → ct.active < max_flows
      → (t : ConntrackTable) × (conntrack_insert xxh64 ct key id now ≡ some t)
  unfolding conntrack_insert
  insert_exists max_flows fits ct valid key id room = elim (List-cases ct.free_list) [
    | inl empty ↦ absurd (ground (arith, active-free max_flows fits ct valid, empty))
    | inr (slot, free, e) ↦ (pin xxh64 ct slot free key id now, ground arith)
  ]

  -- A packet of a flow that is not pinned, in a table with a free entry, pins the flow to the backend
  -- that the active snapshot's table names, if it names one that the snapshot resolves; and it goes
  -- to that backend, carried byte for byte. The packet must fit the buffer with its new headers, the
  -- addresses 32 bits and the time to live 8, and the flow table is valid.
  pub handle_packet-assigns :
      (max_flows : ℕ) (fits : max_flows < 2 ^ 64) (dp : Datapath)
      (valid : IsValid max_flows dp.table) (snap : RoutingSnapshot) (rx : List ℕ)
      (fx : FlowExtractResult) (v : BackendView)
      → packet_extract_flow rx ≡ parse_ok fx
      → fx.key.dst_ip ≡ cfg.vip
      → fx.ip_total_len + 38 ≤ tx_buf_len
      → v.addr < 2 ^ 32
      → backend_of (pinned xxh64 dp.table fx.key) ≡ none
      → dp.table.active < max_flows
      → is_negative (maglev_table_lookup xxh64 snap.table fx.key) ≡ false
      → routing_snapshot_find_backend snap (maglev_table_lookup xxh64 snap.table fx.key) ≡ some v
      → (frame : List ℕ) × ((handle_packet cfg send xxh64 now (some snap) rx dp).1 ≡ some frame)
        × Carries v.mac cfg.own_mac cfg.director_ip v.addr (inner_packet rx fx) frame
        × (backend_of
              (pinned xxh64 (handle_packet cfg send xxh64 now (some snap) rx dp).0.table fx.key)
            ≡ some (maglev_table_lookup xxh64 snap.table fx.key))
  unfolding handle_packet
  handle_packet-assigns max_flows fits dp valid snap [] fx v ok ours room addr new free named
        found =
      let e = packet_extract_flow-Extracts [] fx ok in absurd (omega (arith, e.inside, e.header))
  handle_packet-assigns max_flows fits dp valid snap (b ∷ bs) fx v ok ours room addr new free named
        found =
      let rx = b ∷ bs in
      let id = maglev_table_lookup xxh64 snap.table fx.key in
      let r = conntrack_lookup xxh64 dp.table fx.key now in
      let answer =
        (conntrack_lookup-answers xxh64 max_flows fits dp.table valid fx.key fx.key now).0 in
      let valid' = lookup-IsValid max_flows fits dp.table valid xxh64 fx.key now in
      let (t, done) =
        insert_exists max_flows fits r.1 valid' fx.key id
          (omega (arith, (lookup-frame dp.table fx.key).1)) in
      let dp' = tally dp (count_rx (length rx)) in
      let looked : Option ℕ → Datapath =
        λ h. tally (record dp' { table = r.1 }) (count_lookup (is_hit h)) in
      let opened : Datapath = record {
        table = t;
        stats = stats_backend_flow_opened (looked none).stats id;
      } in
      let (frame, sent, carries) = encapsulate-Carries rx fx id v opened ok room addr in
      let run : handle_packet cfg send xxh64 now (some snap) rx dp
          ≡ encapsulate cfg send rx fx id (some v) opened =
        ap (λ ps. parsed cfg send xxh64 now rx (some snap) ps dp') ok
        ∙ (ap (λ c. if c then looked_up cfg send xxh64 now rx fx (some snap) dp' r else (dp', none))
              ((==_iff fx.key.dst_ip cfg.vip).1 ours)
            ∙ (ap (λ h. routed cfg send xxh64 now rx fx (some snap) h (looked h)) (answer ∙ new)
                ∙ (ap
                      (λ c.
                        if c
                        then (tally (looked none) drop_no_backend, none)
                        else inserted cfg send xxh64 now rx fx snap id
                            (conntrack_insert xxh64 r.1 fx.key id now) (looked none))
                      named
                    ∙ (ap (λ o. inserted cfg send xxh64 now rx fx snap id o (looked none)) done
                        ∙ ap (λ o. encapsulate cfg send rx fx id o opened) found)))) in
      (
        frame,
        ap (λ x. x.1) run ∙ sent,
        carries,
        ap (λ x. backend_of (pinned xxh64 x.0.table fx.key)) run
            ∙ (ap (λ x. backend_of (pinned xxh64 x fx.key))
                  (forward-table cfg send xxh64 now max_flows fits rx fx id (some v) opened)
                ∙ (conntrack_insert-pins xxh64 max_flows fits r.1 valid' fx.key fx.key id now t done
                    ∙ rw (same_key_refl fx.key) refl)),
      )
