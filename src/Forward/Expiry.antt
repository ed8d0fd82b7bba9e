-- ===== src/Forward/Expiry.antt =====
-- The timer of src/forward/datapath.c: in 60 of its events, the reaper goes through the whole flow
-- table, whatever packets come between.
use native.Mathlib.Nat.{mul-le-mul_right}
use l4_maglev_lb.Common.{
  ℕ, suc, ◌+◌, ◌*◌, ◌/◌, ◌^◌, ◌≤◌, ◌<◌, ◌≡◌, ap, ◌∙◌, subst, Bool, true, false, min, Option, List,
  [], ◌∷◌, arith, to_nat, leb,
}
use l4_maglev_lb.Maglev.Table.{RoutingSnapshot}
use l4_maglev_lb.Conntrack.Table.{Entry, Clock, is_expired}
use l4_maglev_lb.Conntrack.Tally.{tally}
use l4_maglev_lb.Conntrack.Invariant.{IsValid}
use l4_maglev_lb.Conntrack.Sweep.{Swept, slice-Swept, unswept, Swept-all}
use l4_maglev_lb.Conntrack.Touch.{lookup-Swept, insert-Swept}
use l4_maglev_lb.Forward.Datapath.{
  DatapathConfig, Datapath, on_flow_evicted, buckets_per_tick, on_timer, handle_packet,
}
use l4_maglev_lb.Forward.Closed.{handle_packet-keeps}
use l4_maglev_lb.Forward.Loop.{Ready, signal, timer, frame, Wake, on_ready, run_loop}
use l4_maglev_lb.Forward.Handled.{handled, run_ready, run_loop-handled}

abbrev pub clock_at : DatapathConfig → ℕ → Clock
clock_at cfg now = record {
  now_ns = now;
  tcp_timeout_ns = cfg.tcp_timeout_ns;
  udp_timeout_ns = cfg.udp_timeout_ns;
}

abbrev pub timer_count : List Ready → ℕ
timer_count [] = 0
timer_count (signal whole ∷ es) = timer_count es
timer_count (timer now ∷ es) = suc (timer_count es)
timer_count (frame active rx now ∷ es) = timer_count es

-- Every packet comes after `t0`, and every event of the timer later than the timeouts after it.
abbrev pub Later : DatapathConfig → ℕ → List Ready → Type 0
Later cfg t0 [] = Unit
Later cfg t0 (signal whole ∷ es) = Later cfg t0 es
Later cfg t0 (timer now ∷ es) =
    (t0 + cfg.tcp_timeout_ns < now)
    × (t0 + cfg.udp_timeout_ns < now)
    × (now < 2 ^ 64)
    × Later cfg t0 es
Later cfg t0 (frame active rx now ∷ es) = (t0 < now) × Later cfg t0 es

-- Not seen since `t0`.
abbrev pub unseen : ℕ → Entry → Bool
unseen t0 e = leb e.last_seen_ns t0

unseen-is_expired :
    (cfg : DatapathConfig) (t0 now : ℕ)
    → t0 + cfg.tcp_timeout_ns < now
    → t0 + cfg.udp_timeout_ns < now
    → now < 2 ^ 64
    → (e : Entry) → unseen t0 e ≡ true
    → is_expired (clock_at cfg now) e ≡ true
unfolding is_expired
unseen-is_expired cfg t0 now tcp udp fits e old = ground arith

touched : (t0 now : ℕ) → t0 < now → (e : Entry) → e.last_seen_ns ≡ now → unseen t0 e ≡ false
touched t0 now after e seen = ground arith

module _ (send : List ℕ → ℕ) (xxh64 : List ℕ → ℕ → ℕ) (cfg : DatapathConfig) (t0 m c0 : ℕ)
    (some_m : 0 < m) where
  abbrev Clear : ℕ → Datapath → Type 0
  Clear k dp = Swept (unseen t0) m c0 k dp.table

  packet-Swept :
      (active : Option RoutingSnapshot) (rx : List ℕ) (now k : ℕ) (dp : Datapath)
      → t0 < now
      → Clear k dp
      → Clear k (handle_packet cfg send xxh64 now active rx dp).0
  packet-Swept active rx now k dp after =
      let t = touched t0 now after in
      handle_packet-keeps cfg send xxh64 now (Clear k)
        (record {
          counted = λ f d p. p;
          recorded = λ id n d p. p;
          looked = λ key d p. lookup-Swept (unseen t0) m c0 k now t d.table p xxh64 key;
          opened = λ key id table d e p.
              insert-Swept (unseen t0) m c0 k now t d.table p xxh64 key id table e;
        })
        active rx dp

  tick-Swept :
      (now k : ℕ) (dp : Datapath)
      → t0 + cfg.tcp_timeout_ns < now
      → t0 + cfg.udp_timeout_ns < now
      → now < 2 ^ 64
      → Clear k dp
      → Clear (min (m / 60 + 1) m + k) (on_timer cfg now dp)
  unfolding on_timer
  tick-Swept now k dp tcp udp fits h =
      subst (λ n. Clear (min (n / 60 + 1) m + k) (on_timer cfg now dp)) h.count
        (slice-Swept on_flow_evicted (clock_at cfg now) (unseen t0)
          (unseen-is_expired cfg t0 now tcp udp fits) m c0 some_m (buckets_per_tick dp.table) k
          dp.table dp.stats h)

  ready-Swept :
      (es : List Ready) (k : ℕ) (dp : Datapath)
      → Later cfg t0 es
      → Clear k dp
      → Clear (timer_count es * min (m / 60 + 1) m + k) (run_ready send xxh64 cfg es dp)
  unfolding run_ready on_ready
  ready-Swept [] k dp l h = subst (λ x. Clear x dp) (omega arith) h
  ready-Swept (signal whole ∷ es) k dp l h = ready-Swept es k dp l h
  ready-Swept (frame active rx now ∷ es) k dp (after, l) h =
      ready-Swept es k (handle_packet cfg send xxh64 now active rx dp).0 l
        (packet-Swept active rx now k dp after h)
  ready-Swept (timer now ∷ es) k dp (tcp, udp, fits, l) h =
      let e : timer_count es * min (m / 60 + 1) m + (min (m / 60 + 1) m + k)
          ≡ suc (timer_count es) * min (m / 60 + 1) m + k =
        grind arith in
      subst (λ x. Clear x (run_ready send xxh64 cfg es (on_timer cfg now dp))) e
        (ready-Swept es (min (m / 60 + 1) m + k) (on_timer cfg now dp) l
          (tick-Swept now k dp tcp udp fits h))

round : (n m : ℕ) → 60 ≤ n → m ≤ n * min (m / 60 + 1) m + 0
round n m h =
    let t = min (m / 60 + 1) m in
    let once : m ≤ 60 * t = omega arith in omega (arith, once, mul-le-mul_right t h)

-- From a valid flow table: where every packet that the loop handles comes after the time `t0`, every
-- event of the timer that it handles comes later than both timeouts after `t0`, and below 2^64, and
-- there are at least 60 of these events, no entry is left that was last seen at `t0` or before,
-- however packets and events of the timer take turns.
pub run_loop-clears :
    (send : List ℕ → ℕ) (xxh64 : List ℕ → ℕ → ℕ) (cfg : DatapathConfig) (t0 max_flows : ℕ)
    (wakes : List Wake) (dp : Datapath)
    → IsValid max_flows dp.table
    → Later cfg t0 (handled wakes)
    → 60 ≤ timer_count (handled wakes)
    → tally (λ e. to_nat (unseen t0 e)) (run_loop send xxh64 cfg wakes dp).dp.table.buckets ≡ 0
run_loop-clears send xxh64 cfg t0 max_flows wakes dp v l enough =
    let m = dp.table.bucket_count in
    let c0 = dp.table.sweep_cursor in
    ap (λ d. tally (λ e. to_nat (unseen t0 e)) d.table.buckets)
      (run_loop-handled send xxh64 cfg wakes dp)
    ∙ Swept-all (unseen t0) m c0 _ (run_ready send xxh64 cfg (handled wakes) dp).table v.cursor
        (round (timer_count (handled wakes)) m enough)
        (ready-Swept send xxh64 cfg t0 m c0 v.some_bucket (handled wakes) 0 dp l
          (unswept (unseen t0) dp.table v.size v.cursor))
