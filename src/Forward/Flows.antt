-- ===== src/Forward/Flows.antt =====
-- The agreement between the flow table of src/conntrack/conntrack.c and the flow counters of
-- src/stats/stats_registry.c, through a packet of src/forward/datapath.c.
use l4_maglev_lb.Common.{
  ℕ, ◌^◌, ◌≤◌, ◌<◌, ◌≡◌, refl, sym, subst, ◌∙◌, Option, none, some, List, [], ◌∷◌, inl, inr, arith,
  ◌==◌, to_nat, get_or, List-cases,
}
use l4_maglev_lb.Net.Key.{FlowKey}
use l4_maglev_lb.Conntrack.Table.{
  Entry, ConntrackTable, refresh, bucket_of, pin, after_walk, conntrack_lookup, conntrack_insert,
}
use l4_maglev_lb.Conntrack.Tally.{chain_tally, tally, tally-set, refresh-tally}
use l4_maglev_lb.Conntrack.Invariant.{
  IsValid, active-free, bucket_of-lt, lookup-IsValid, pin-IsValid,
}
use l4_maglev_lb.Stats.{LbStats, stats_backend_flow_opened}
use l4_maglev_lb.Forward.Datapath.{DatapathConfig, Datapath, handle_packet}
use l4_maglev_lb.Maglev.Table.{RoutingSnapshot}
use l4_maglev_lb.Forward.Closed.{handle_packet-keeps}
use l4_maglev_lb.Forward.Counts.{
  flows_of, IsSized, record_packet-flows, record_packet-IsSized, opened-flows, opened-IsSized,
}

-- One for each entry of the backend.
abbrev pub of_backend : ℕ → Entry → ℕ
of_backend id e = to_nat (e.backend_id == id)

chain_tally-le :
    (id : ℕ) (es : List Entry) → chain_tally (of_backend id) es ≤ chain_tally (λ e. 1) es
chain_tally-le id [] = omega arith
chain_tally-le id (e ∷ es) = ground (arith, chain_tally-le id es)

tally-le : (id : ℕ) (cs : List (List Entry)) → tally (of_backend id) cs ≤ tally (λ e. 1) cs
tally-le id [] = omega arith
tally-le id (c ∷ cs) = omega (arith, chain_tally-le id c, tally-le id cs)

-- The table is valid, and the flow counter of each of the `n` backends is the number of the
-- entries of that backend in the table.
pub record Agrees (n max_flows : ℕ) (ct : ConntrackTable) (s : LbStats) : Type 0 where
  pub valid : IsValid max_flows ct
  pub sized : IsSized n s
  pub flows : (id : ℕ) → id < n → flows_of s id ≡ tally (of_backend id) ct.buckets

-- A counter is at most the number of flows.
pub flows-lt :
    (n max_flows : ℕ) (fits : max_flows < 2 ^ 64) (ct : ConntrackTable) (s : LbStats) (id : ℕ)
    → Agrees n max_flows ct s
    → tally (of_backend id) ct.buckets < 2 ^ 64
flows-lt n max_flows fits ct s id a =
    omega (arith, tally-le id ct.buckets, a.valid.entries, active-free max_flows fits ct a.valid)

module _ (n max_flows : ℕ) (fits : max_flows < 2 ^ 64) (small : n ≤ 2 ^ 31) where
  module _ (xxh64 : List ℕ → ℕ → ℕ) (now : ℕ) (key : FlowKey) (ct : ConntrackTable) (s : LbStats)
      (a : Agrees n max_flows ct s) where
    pub lookup-Agrees : Agrees n max_flows (conntrack_lookup xxh64 ct key now).1 s
    unfolding conntrack_lookup
    lookup-Agrees = record {
      valid = lookup-IsValid max_flows fits ct a.valid xxh64 key now;
      sized = a.sized;
      flows = λ id p. a.flows id p ∙ sym (walked id (refresh key now chain) refl);
    }
      where
        chain : List Entry
        chain = get_or ct.buckets (bucket_of xxh64 ct key) []

        walked :
            (id : ℕ) (r : Option (ℕ × List Entry))
            → refresh key now chain ≡ r
            → tally (of_backend id) (after_walk ct (bucket_of xxh64 ct key) r).1.buckets
              ≡ tally (of_backend id) ct.buckets
        walked id none e = refl
        walked id (some (j, c)) e = omega (
          arith,
          refresh-tally (of_backend id) key now chain c j (λ x. refl) e,
          tally-set (of_backend id) ct.buckets (bucket_of xxh64 ct key) c
              (bucket_of-lt max_flows fits ct a.valid xxh64 key),
        )

    pin-Agrees :
        (slot : ℕ) (free : List ℕ) (backend_id : ℕ)
        → ct.free_list ≡ slot ∷ free
        → Agrees n max_flows
            (pin xxh64 ct slot free key backend_id now)
            (stats_backend_flow_opened s backend_id)
    unfolding pin
    pin-Agrees slot free backend_id e =
        let idx = bucket_of xxh64 ct key in
        let x : Entry = record {
          slot = slot;
          key = key;
          backend_id = backend_id;
          last_seen_ns = now;
        } in
        let pinned = pin-IsValid max_flows fits ct a.valid xxh64 key slot free backend_id now e in
        let ct' = pin xxh64 ct slot free key backend_id now in
        let total = active-free max_flows fits ct' pinned.0 in
        record {
          valid = pinned.0;
          sized = opened-IsSized n s a.sized backend_id;
          flows = λ id p. omega (
            arith,
            a.flows id p,
            total,
            pinned.1,
            a.valid.entries,
            tally-le id ct.buckets,
            tally-set (of_backend id) ct.buckets idx (x ∷ get_or ct.buckets idx [])
                (bucket_of-lt max_flows fits ct a.valid xxh64 key),
            opened-flows n s a.sized backend_id id p (
                omega
                  (arith, a.flows id p, total, pinned.1, a.valid.entries, tally-le id ct.buckets)),
          );
        }

    pub insert-Agrees :
        (backend_id : ℕ) (ct' : ConntrackTable)
        → conntrack_insert xxh64 ct key backend_id now ≡ some ct'
        → Agrees n max_flows ct' (stats_backend_flow_opened s backend_id)
    unfolding conntrack_insert
    insert-Agrees backend_id ct' done = elim (List-cases ct.free_list) [
      | inl empty ↦ absurd (ground (arith, empty))
      | inr (slot, free, e) ↦
          subst (λ t. Agrees n max_flows t (stats_backend_flow_opened s backend_id)) (ground arith)
            (pin-Agrees slot free backend_id e)
    ]

  abbrev pub AgreesIn : Datapath → Type 0
  AgreesIn dp = Agrees n max_flows dp.table dp.stats

  -- For fewer than 2^64 flows and at most 2^31 backends: where the flow table is valid and the flow
  -- counter of every backend is the number of the entries pinned to it, so they are after a packet.
  pub handle_packet-Agrees :
      (cfg : DatapathConfig) (send : List ℕ → ℕ) (xxh64 : List ℕ → ℕ → ℕ) (now : ℕ)
      (active : Option RoutingSnapshot) (rx : List ℕ) (dp : Datapath)
      → AgreesIn dp
      → AgreesIn (handle_packet cfg send xxh64 now active rx dp).0
  handle_packet-Agrees cfg send xxh64 now =
      handle_packet-keeps cfg send xxh64 now AgreesIn (record {
        counted = λ f d a. record {
          valid = a.valid;
          sized = record { size = a.sized.size; bound = a.sized.bound };
          flows = a.flows;
        };
        recorded = λ j bytes d a. record {
          valid = a.valid;
          sized = record_packet-IsSized n d.stats a.sized j bytes;
          flows = λ id p. record_packet-flows n d.stats a.sized j bytes id p ∙ a.flows id p;
        };
        looked = λ key d a. lookup-Agrees xxh64 now key d.table d.stats a;
        opened = λ key j t d e a. insert-Agrees xxh64 now key d.table d.stats a j t e;
      })
