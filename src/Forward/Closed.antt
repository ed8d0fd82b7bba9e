-- ===== src/Forward/Closed.antt =====
-- What holds of the state of src/forward/datapath.c through a packet: enough that each of the
-- calls which change the state keeps it.
use l4_maglev_lb.Common.{
  ℕ, ◌≡◌, refl, Option, none, some, List, [], ◌∷◌, inl, inr, length, ◌==◌, ltb, Bool-cases,
}
use l4_maglev_lb.Net.Key.{FlowKey}
use l4_maglev_lb.Net.Flow.{
  FlowExtractResult, ParseStatus, parse_ok, parse_truncated, parse_unsupported,
}
use l4_maglev_lb.Maglev.Table.{BackendView, RoutingSnapshot, is_negative, maglev_table_lookup}
use l4_maglev_lb.Conntrack.Table.{ConntrackTable, conntrack_lookup, conntrack_insert}
use l4_maglev_lb.Stats.{Counters, stats_record_backend_packet, stats_backend_flow_opened}
use l4_maglev_lb.Forward.Datapath.{
  DatapathConfig, Datapath, tally, count_rx, drop_parse_error, drop_no_backend,
  drop_backend_unhealthy, drop_conntrack_full, count_tx, count_lookup, is_hit, transmit,
  encapsulate, inserted, routed, parsed, handle_packet,
}

module _ (xxh64 : List ℕ → ℕ → ℕ) (now : ℕ) where
  -- The calls of `handle_packet` that write to the table or to the counters.
  pub record IsClosed (P : Datapath → Type 0) : Type 0 where
    pub counted : (f : Counters → Counters) (dp : Datapath) → P dp → P (tally dp f)
    pub recorded :
        (id n : ℕ) (dp : Datapath)
        → P dp
        → P (record dp { stats = stats_record_backend_packet dp.stats id n })
    pub looked :
        (key : FlowKey) (dp : Datapath)
        → P dp
        → P (record dp { table = (conntrack_lookup xxh64 dp.table key now).1 })
    pub opened :
        (key : FlowKey) (id : ℕ) (table : ConntrackTable) (dp : Datapath)
        → conntrack_insert xxh64 dp.table key id now ≡ some table
        → P dp
        → P (record { table = table; stats = stats_backend_flow_opened dp.stats id })

module _ (cfg : DatapathConfig) (send : List ℕ → ℕ) (xxh64 : List ℕ → ℕ → ℕ) (now : ℕ)
    (P : Datapath → Type 0) (c : IsClosed xxh64 now P) where
  transmit-keeps :
      (id : ℕ) (o : Option (List ℕ)) (dp : Datapath) → P dp → P (transmit cfg send id o dp).0
  transmit-keeps id none dp p = c.counted drop_parse_error dp p
  transmit-keeps id (some frame) dp p = elim (Bool-cases (ltb 0 (send frame))) [
    | inl sent ↦ rw sent (c.recorded id (send frame) _ (c.counted (count_tx (send frame)) dp p))
    | inr failed ↦ rw failed p
  ]

  encapsulate-keeps :
      (rx : List ℕ) (fx : FlowExtractResult) (id : ℕ) (o : Option BackendView) (dp : Datapath)
      → P dp
      → P (encapsulate cfg send rx fx id o dp).0
  encapsulate-keeps rx fx id none dp p = c.counted drop_backend_unhealthy dp p
  encapsulate-keeps rx fx id (some v) dp p = transmit-keeps id _ dp p

  inserted-keeps :
      (rx : List ℕ) (fx : FlowExtractResult) (snap : RoutingSnapshot) (id : ℕ)
      (o : Option ConntrackTable) (dp : Datapath)
      → conntrack_insert xxh64 dp.table fx.key id now ≡ o
      → P dp
      → P (inserted cfg send xxh64 now rx fx snap id o dp).0
  inserted-keeps rx fx snap id none dp e p = c.counted drop_conntrack_full dp p
  inserted-keeps rx fx snap id (some t) dp e p =
      encapsulate-keeps rx fx id _ _ (c.opened fx.key id t dp e p)

  routed-keeps :
      (rx : List ℕ) (fx : FlowExtractResult) (active : Option RoutingSnapshot) (hit : Option ℕ)
      (dp : Datapath)
      → P dp
      → P (routed cfg send xxh64 now rx fx active hit dp).0
  routed-keeps rx fx none hit dp p = c.counted drop_no_backend dp p
  routed-keeps rx fx (some snap) (some id) dp p = encapsulate-keeps rx fx id _ dp p
  routed-keeps rx fx (some snap) none dp p =
      elim (Bool-cases (is_negative (maglev_table_lookup xxh64 snap.table fx.key))) [
        | inl negative ↦ rw negative (c.counted drop_no_backend dp p)
        | inr candidate ↦ rw candidate (inserted-keeps rx fx snap _ _ dp refl p)
      ]

  parsed-keeps :
      (rx : List ℕ) (active : Option RoutingSnapshot) (ps : ParseStatus) (dp : Datapath)
      → P dp
      → P (parsed cfg send xxh64 now rx active ps dp).0
  parsed-keeps rx active parse_truncated dp p = c.counted drop_parse_error dp p
  parsed-keeps rx active parse_unsupported dp p = p
  parsed-keeps rx active (parse_ok fx) dp p = elim (Bool-cases (fx.key.dst_ip == cfg.vip)) [
    | inr other ↦ rw other p
    | inl ours ↦ rw ours (
        routed-keeps rx fx active _ _ (
          c.counted (count_lookup (is_hit (conntrack_lookup xxh64 dp.table fx.key now).0)) _
            (c.looked fx.key dp p)))
  ]

  pub handle_packet-keeps :
      (active : Option RoutingSnapshot) (rx : List ℕ) (dp : Datapath)
      → P dp
      → P (handle_packet cfg send xxh64 now active rx dp).0
  unfolding handle_packet
  handle_packet-keeps active [] dp p = p
  handle_packet-keeps active (b ∷ bs) dp p =
      parsed-keeps (b ∷ bs) active _ _ (c.counted (count_rx (length (b ∷ bs))) dp p)
