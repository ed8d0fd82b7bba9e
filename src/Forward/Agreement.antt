-- ===== src/Forward/Agreement.antt =====
-- The agreement between the flow table of src/conntrack/conntrack.c and the flow counters of
-- src/stats/stats_registry.c, through the reaper's ticks and the whole run of the event loop of src/forward/datapath.c.
use l4_maglev_lb.Common.{
  ℕ, zero, suc, ◌+◌, ◌%◌, ◌^◌, ◌≤◌, ◌<◌, ◌≡◌, refl, sym, ap, subst, List, [], ◌∷◌, inl, inr, arith,
  get_or, set, min, Bool-cases,
}
use l4_maglev_lb.Conntrack.Table.{
  Entry, Clock, Sweep, is_expired, evict, reap_chain, reap_bucket, reap_loop, conntrack_reap_slice,
}
use l4_maglev_lb.Conntrack.Tally.{chain_tally, tally, tally-set, tally-get}
use l4_maglev_lb.Conntrack.Stock.{reap_chain-frame}
use l4_maglev_lb.Conntrack.Invariant.{reap_bucket-IsValid}
use l4_maglev_lb.Stats.{LbStats}
use l4_maglev_lb.Forward.Datapath.{
  DatapathConfig, Datapath, on_flow_evicted, handle_packet, buckets_per_tick, on_timer,
}
use l4_maglev_lb.Forward.Loop.{Ready, signal, timer, frame, Wake, on_ready, run_loop}
use l4_maglev_lb.Forward.Handled.{handled, run_ready, run_loop-handled}
use l4_maglev_lb.Forward.Expiry.{clock_at}
use l4_maglev_lb.Forward.Flows.{of_backend, Agrees, AgreesIn, flows-lt, handle_packet-Agrees}
use l4_maglev_lb.Forward.Counts.{flows_of, IsSized, evicted-flows, evicted-IsSized}

module _ (n max_flows : ℕ) (fits : max_flows < 2 ^ 64) (small : n ≤ 2 ^ 31) where
  -- What a walk takes out of a chain, it takes off the counters.
  reap_chain-flows :
      (c : Clock) (es : List Entry) (w : Sweep LbStats) (id : ℕ)
      → IsSized n w.ctx
      → id < n
      → chain_tally (of_backend id) es ≤ flows_of w.ctx id
      → flows_of w.ctx id < 2 ^ 64
      → (flows_of (reap_chain on_flow_evicted c es w).1.ctx id + chain_tally (of_backend id) es
          ≡ flows_of w.ctx id + chain_tally (of_backend id) (reap_chain on_flow_evicted c es w).0)
  unfolding reap_chain evict
  reap_chain-flows c [] w id h p some_flow room = refl
  reap_chain-flows c (e ∷ es) w id h p some_flow room = elim (Bool-cases (is_expired c e)) [
    | inr live ↦
        let rest = reap_chain-flows c es w id h p (omega (arith, some_flow)) room in
        rw live (omega (arith, rest))
    | inl old ↦
        let gone =
          evicted-flows n w.ctx h e.backend_id id p small (omega (arith, some_flow)) room in
        let rest =
          reap_chain-flows c es (evict on_flow_evicted c e w) id
            (evicted-IsSized n w.ctx h e.backend_id) p (omega (arith, some_flow, gone))
            (omega (arith, gone, room)) in
        rw old (omega (arith, rest, gone))
  ]

  module _ (c : Clock) where
    abbrev AgreesAt : Sweep LbStats → Type 0
    AgreesAt w = Agrees n max_flows w.table w.ctx

    reap_chain-IsSized :
        (es : List Entry) (w : Sweep LbStats)
        → IsSized n w.ctx
        → IsSized n (reap_chain on_flow_evicted c es w).1.ctx
    unfolding reap_chain evict
    reap_chain-IsSized [] w h = h
    reap_chain-IsSized (e ∷ es) w h = elim (Bool-cases (is_expired c e)) [
      | inr live ↦ rw live (reap_chain-IsSized es w h)
      | inl old ↦ rw old (
          reap_chain-IsSized es (evict on_flow_evicted c e w)
            (evicted-IsSized n w.ctx h e.backend_id))
    ]

    reap_bucket-Agrees :
        (w : Sweep LbStats) → AgreesAt w → AgreesAt (reap_bucket on_flow_evicted c w)
    unfolding reap_bucket
    reap_bucket-Agrees w a =
        let i = w.table.sweep_cursor in
        let es = get_or w.table.buckets i [] in
        let moved : Sweep LbStats = record w {
          table = record w.table { sweep_cursor = (i + 1) % w.table.bucket_count };
        } in
        let kept = (reap_chain on_flow_evicted c es moved).0 in
        let frame = reap_chain-frame on_flow_evicted c es moved in
        record {
          valid =
              (reap_bucket-IsValid max_flows fits w.table a.valid on_flow_evicted c w.reaped
                w.ctx).0;
          sized = reap_chain-IsSized es moved a.sized;
          flows = λ id p.
              let walk =
                reap_chain-flows c es moved id a.sized p
                  (omega (arith, a.flows id p, tally-get (of_backend id) w.table.buckets i))
                  (omega (arith, a.flows id p, flows-lt n max_flows fits w.table w.ctx id a)) in
              let buckets = ap (λ bs. tally (of_backend id) (set bs i kept)) frame.0 in
              omega (
                arith,
                buckets,
                walk,
                a.flows id p,
                tally-set (of_backend id) w.table.buckets i kept
                    (omega (arith, a.valid.cursor, a.valid.size)),
              );
        }

    reap_loop-Agrees :
        (k : ℕ) (w : Sweep LbStats) → AgreesAt w → AgreesAt (reap_loop on_flow_evicted c k w)
    unfolding reap_loop
    reap_loop-Agrees zero w a = a
    reap_loop-Agrees (suc k) w a =
        reap_loop-Agrees k (reap_bucket on_flow_evicted c w) (reap_bucket-Agrees w a)

  on_timer-Agrees :
      (cfg : DatapathConfig) (now : ℕ) (dp : Datapath)
      → AgreesIn n max_flows fits small dp
      → AgreesIn n max_flows fits small (on_timer cfg now dp)
  unfolding on_timer conntrack_reap_slice
  on_timer-Agrees cfg now dp a =
      let t =
        reap_loop-Agrees (clock_at cfg now) (min (buckets_per_tick dp.table) dp.table.bucket_count)
          (record { table = dp.table; reaped = 0; ctx = dp.stats }) a in
      record {
        valid = t.valid;
        sized = record { size = t.sized.size; bound = t.sized.bound };
        flows = t.flows;
      }

  ready-Agrees :
      (send : List ℕ → ℕ) (xxh64 : List ℕ → ℕ → ℕ) (cfg : DatapathConfig) (es : List Ready)
      (dp : Datapath)
      → AgreesIn n max_flows fits small dp
      → AgreesIn n max_flows fits small (run_ready send xxh64 cfg es dp)
  unfolding run_ready on_ready
  ready-Agrees send xxh64 cfg [] dp a = a
  ready-Agrees send xxh64 cfg (signal whole ∷ es) dp a = ready-Agrees send xxh64 cfg es dp a
  ready-Agrees send xxh64 cfg (timer now ∷ es) dp a =
      ready-Agrees send xxh64 cfg es (on_timer cfg now dp) (on_timer-Agrees cfg now dp a)
  ready-Agrees send xxh64 cfg (frame active rx now ∷ es) dp a =
      ready-Agrees send xxh64 cfg es (handle_packet cfg send xxh64 now active rx dp).0
        (handle_packet-Agrees n max_flows fits small cfg send xxh64 now active rx dp a)

  -- For fewer than 2^64 flows and at most 2^31 backends: where the flow table is valid and the flow
  -- counter of every backend is the number of the entries pinned to it, so they are at every point
  -- of a run of the event loop.
  pub run_loop-Agrees :
      (send : List ℕ → ℕ) (xxh64 : List ℕ → ℕ → ℕ) (cfg : DatapathConfig) (wakes : List Wake)
      (dp : Datapath)
      → AgreesIn n max_flows fits small dp
      → AgreesIn n max_flows fits small (run_loop send xxh64 cfg wakes dp).dp
  run_loop-Agrees send xxh64 cfg wakes dp a =
      subst (AgreesIn n max_flows fits small) (sym (run_loop-handled send xxh64 cfg wakes dp))
        (ready-Agrees send xxh64 cfg (handled wakes) dp a)
