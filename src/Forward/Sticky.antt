-- ===== src/Forward/Sticky.antt =====
-- What src/forward/datapath.c promises a flow: once pinned it stays with its backend, and its
-- packets reach that backend unchanged.
use l4_maglev_lb.Common.{
  ℕ, ◌^◌, ◌<◌, ◌≡◌, refl, sym, ap, subst, ◌∙◌, Option, none, some, List, [], ◌∷◌, inl, inr, arith,
  ◌==◌, Bool-cases,
}
use l4_maglev_lb.Net.Key.{FlowKey, same_key, same_key-eq}
use l4_maglev_lb.Net.Flow.{
  FlowExtractResult, ParseStatus, parse_ok, parse_truncated, parse_unsupported,
}
use l4_maglev_lb.Maglev.Table.{BackendView, RoutingSnapshot, is_negative, maglev_table_lookup}
use l4_maglev_lb.Conntrack.Table.{ConntrackTable, conntrack_lookup, conntrack_insert}
use l4_maglev_lb.Conntrack.Invariant.{IsValid, lookup-IsValid, insert-IsValid}
use l4_maglev_lb.Conntrack.Lookup.{
  backend_of, pinned, conntrack_lookup-answers, conntrack_insert-pins,
}
use l4_maglev_lb.Forward.Datapath.{
  DatapathConfig, Datapath, tally, count_lookup, is_hit, transmit, encapsulate, inserted, routed,
  looked_up, parsed, handle_packet,
}

module _ (cfg : DatapathConfig) (send : List ℕ → ℕ) (xxh64 : List ℕ → ℕ → ℕ) (now : ℕ)
    (max_flows : ℕ) (fits : max_flows < 2 ^ 64) where
  -- The table is still valid, and no flow that was pinned has moved.
  pub record Keeps (ct ct' : ConntrackTable) : Type 0 where
    pub valid : IsValid max_flows ct'
    pub pins :
        (k : FlowKey) (id : ℕ)
        → backend_of (pinned xxh64 ct k) ≡ some id
        → backend_of (pinned xxh64 ct' k) ≡ some id

  transmit-table :
      (id : ℕ) (o : Option (List ℕ)) (dp : Datapath)
      → (transmit cfg send id o dp).0.table ≡ dp.table
  transmit-table id none dp = refl
  transmit-table id (some frame) dp = ground arith

  pub forward-table :
      (rx : List ℕ) (fx : FlowExtractResult) (id : ℕ) (o : Option BackendView) (dp : Datapath)
      → (encapsulate cfg send rx fx id o dp).0.table ≡ dp.table
  forward-table rx fx id none dp = refl
  forward-table rx fx id (some v) dp = transmit-table id _ dp

  inserted-Keeps :
      (rx : List ℕ) (fx : FlowExtractResult) (snap : RoutingSnapshot) (id : ℕ)
      (o : Option ConntrackTable) (dp : Datapath)
      → IsValid max_flows dp.table
      → backend_of (pinned xxh64 dp.table fx.key) ≡ none
      → conntrack_insert xxh64 dp.table fx.key id now ≡ o
      → Keeps dp.table (inserted cfg send xxh64 now rx fx snap id o dp).0.table
  inserted-Keeps rx fx snap id none dp v new e = record { valid = v; pins = λ k i h. h }
  inserted-Keeps rx fx snap id (some t) dp v new e =
      subst (Keeps dp.table) (sym (forward-table rx fx id _ _)) (record {
        valid = insert-IsValid max_flows fits dp.table v xxh64 fx.key id now t e;
        pins = λ k i h. elim (Bool-cases (same_key fx.key k)) [
          | inl same ↦ absurd (
              clash i (
                sym new
                ∙ ap (λ x. backend_of (pinned xxh64 dp.table x)) (same_key-eq fx.key k same)
                ∙ h))
          | inr other ↦
              conntrack_insert-pins xxh64 max_flows fits dp.table v fx.key k id now t e ∙ rw other h
        ];
      })
    where
      clash : (i : ℕ) → none ≡ some i → ⊥
      clash i e = ground arith

  routed-Keeps :
      (rx : List ℕ) (fx : FlowExtractResult) (active : Option RoutingSnapshot) (hit : Option ℕ)
      (dp : Datapath)
      → IsValid max_flows dp.table
      → backend_of (pinned xxh64 dp.table fx.key) ≡ hit
      → Keeps dp.table (routed cfg send xxh64 now rx fx active hit dp).0.table
  routed-Keeps rx fx none hit dp v e = record { valid = v; pins = λ k i h. h }
  routed-Keeps rx fx (some snap) (some id) dp v e =
      subst (Keeps dp.table) (sym (forward-table rx fx id _ dp))
        (record { valid = v; pins = λ k i h. h })
  routed-Keeps rx fx (some snap) none dp v e =
      elim (Bool-cases (is_negative (maglev_table_lookup xxh64 snap.table fx.key))) [
        | inl negative ↦
            subst (Keeps dp.table) (ground (arith, negative))
              (record { valid = v; pins = λ k i h. h })
        | inr candidate ↦ rw candidate (inserted-Keeps rx fx snap _ _ dp v e refl)
      ]

  looked_up-Keeps :
      (rx : List ℕ) (active : Option RoutingSnapshot) (fx : FlowExtractResult) (dp : Datapath)
      → IsValid max_flows dp.table
      → Keeps dp.table
          (looked_up cfg send xxh64 now rx fx active dp
            (conntrack_lookup xxh64 dp.table fx.key now)).0.table
  looked_up-Keeps rx active fx dp v =
      let r = conntrack_lookup xxh64 dp.table fx.key now in
      let a = conntrack_lookup-answers xxh64 max_flows fits dp.table v fx.key in
      let rest =
        routed-Keeps rx fx active r.0
          (tally (record dp { table = r.1 }) (count_lookup (is_hit r.0)))
          (lookup-IsValid max_flows fits dp.table v xxh64 fx.key now)
          ((a fx.key now).1 ∙ sym (a fx.key now).0) in
      record { valid = rest.valid; pins = λ k i h. rest.pins k i ((a k now).1 ∙ h) }

  parsed-Keeps :
      (rx : List ℕ) (active : Option RoutingSnapshot) (ps : ParseStatus) (dp : Datapath)
      → IsValid max_flows dp.table
      → Keeps dp.table (parsed cfg send xxh64 now rx active ps dp).0.table
  parsed-Keeps rx active parse_truncated dp v = record { valid = v; pins = λ k i h. h }
  parsed-Keeps rx active parse_unsupported dp v = record { valid = v; pins = λ k i h. h }
  parsed-Keeps rx active (parse_ok fx) dp v = elim (Bool-cases (fx.key.dst_ip == cfg.vip)) [
    | inr other ↦ rw other (record { valid = v; pins = λ k i h. h })
    | inl ours ↦ rw ours (looked_up-Keeps rx active fx dp v)
  ]

  -- From a valid flow table of fewer than 2^64 flows, whatever a packet is and however the snapshot
  -- has changed, handling it leaves the table valid and every pinned flow with its backend.
  pub handle_packet-Keeps :
      (active : Option RoutingSnapshot) (rx : List ℕ) (dp : Datapath)
      → IsValid max_flows dp.table
      → Keeps dp.table (handle_packet cfg send xxh64 now active rx dp).0.table
  unfolding handle_packet
  handle_packet-Keeps active [] dp v = record { valid = v; pins = λ k i h. h }
  handle_packet-Keeps active (b ∷ bs) dp v = parsed-Keeps (b ∷ bs) active _ _ v
