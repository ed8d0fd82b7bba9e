-- ===== src/Conntrack/Life.antt =====
-- The life of the flow table of src/conntrack/conntrack.c: its creation, and any sequence of calls.
use native.Mathlib.Nat.{mul_assoc, pow-succ'}
use l4_maglev_lb.Common.{
  ℕ, zero, suc, ◌+◌, ◌*◌, ◌^◌, ◌≤◌, ◌<◌, ◌≡◌, refl, sym, subst, ap, ◌∙◌, min, true, Option, none,
  some, List, [], ◌∷◌, arith, ltb, ltb→lt, inl, inr, length-replicate, if◌then◌else◌, Option-cases,
  Bool-cases,
}
use l4_maglev_lb.Net.Key.{FlowKey}
use l4_maglev_lb.Maglev.Table.{ok, null}
use l4_maglev_lb.Conntrack.Table.{
  ConntrackTable, Clock, TableAlloc, double_until, next_pow2, desired_buckets, empty_conntrack,
  with_buckets, conntrack_create, conntrack_lookup, conntrack_insert, reap_bucket, reap_loop,
  conntrack_reap_slice,
}
use l4_maglev_lb.Conntrack.Stock.{each, weight-replicate}
use l4_maglev_lb.Conntrack.Invariant.{IsValid, lookup-IsValid, insert-IsValid, reap_bucket-IsValid}

scale : (p n : ℕ) {x : ℕ} → x ≤ p * 2 ^ suc n → x ≤ p * 2 * 2 ^ n
scale p n {x = x} h = rw (mul_assoc p 2 (2 ^ n), ← pow-succ' 2 n) h

double_until-finds :
    (fuel x p k : ℕ)
    → x ≤ 2 ^ 50
    → p ≡ 2 ^ k
    → 0 < p
    → x ≤ p * 2 ^ fuel
    → (j : ℕ) × (double_until (suc fuel) x p ≡ some (2 ^ j)) × (x ≤ 2 ^ j) × (k ≤ j)
unfolding double_until
double_until-finds zero x p k small e some_p enough = (k, ground arith, omega arith, omega arith)
double_until-finds (suc fuel) x p k small e some_p enough = elim (Bool-cases (ltb p x)) [
  | inl below ↦
      let lt = ltb→lt p x below in
      let (j, run, above, more) =
        double_until-finds fuel x (p * 2) (suc k) small (grind arith) (omega arith)
          (scale p fuel enough) in
      (j, ground (arith, run), above, omega (arith, more))
  | inr done ↦ (k, ground arith, ground arith, omega arith)
]

-- For at most 2^50, `next_pow2` gives a power of two that is large enough; the loop ends.
pub next_pow2-finds : (x : ℕ) → x ≤ 2 ^ 50 → (j : ℕ) × (next_pow2 x ≡ some (2 ^ j)) × (x ≤ 2 ^ j)
unfolding next_pow2
next_pow2-finds x small =
    let (j, run, above, more) =
      double_until-finds 64 x 1 0 small (omega arith) (omega arith) (omega arith) in
    (j, run, above)

pub indices_start :
    (max_flows bucket_count : ℕ)
    → 0 < bucket_count
    → IsValid max_flows (empty_conntrack max_flows bucket_count)
indices_start max_flows bucket_count h = record {
  size = length-replicate bucket_count [];
  some_bucket = h;
  cursor = h;
  entries = sym (weight-replicate each bucket_count);
  whole = λ f. omega (arith, weight-replicate f bucket_count);
}

-- With memory for it, a table for fewer than 2^49 flows is created: its bucket count is a power of
-- two that exceeds a third more than the flows, it is valid, and it has no active flow.
pub conntrack_create-IsValid :
    (alloc : TableAlloc) (max_flows : ℕ)
    → alloc.table ≡ true
    → alloc.buckets ≡ true
    → alloc.slab ≡ true
    → max_flows < 2 ^ 49
    → (ct : ConntrackTable) × (conntrack_create alloc max_flows ≡ ok ct)
      × IsValid max_flows ct
      × ((j : ℕ) × (ct.bucket_count ≡ 2 ^ j))
      × (4 * max_flows < 3 * ct.bucket_count)
      × (ct.active ≡ 0)
unfolding conntrack_create
conntrack_create-IsValid alloc max_flows table buckets slab small =
    let (j, run, above) = next_pow2-finds (desired_buckets max_flows) (omega arith) in
    (
      empty_conntrack max_flows (2 ^ j),
      created max_flows j run,
      indices_start max_flows (2 ^ j) (omega arith),
      (j, refl),
      omega arith,
      refl,
    )
  where
    given : (n b : ℕ) → with_buckets alloc n (some b) ≡ ok (empty_conntrack n b)
    given zero b = rw buckets refl
    given (suc n) b = rw (buckets, slab) refl

    created :
        (n j : ℕ)
        → next_pow2 (desired_buckets n) ≡ some (2 ^ j)
        → conntrack_create alloc n ≡ ok (empty_conntrack n (2 ^ j))
    created n j run =
        ap (λ b. if b then with_buckets alloc n (next_pow2 (desired_buckets n)) else null) table
        ∙ (ap (with_buckets alloc n) run ∙ given n (2 ^ j))

module _ (max_flows : ℕ) (fits : max_flows < 2 ^ 64) where
  module _ {S : Type 0} (on_evict : ℕ → S → S) (c : Clock) where
    reap_loop-IsValid :
        (n : ℕ) (ct : ConntrackTable) (reaped : ℕ) (ctx : S)
        → IsValid max_flows ct
        → IsValid max_flows
            (reap_loop on_evict c n (record { table = ct; reaped = reaped; ctx = ctx })).table
          × ((reap_loop on_evict c n
                  (record { table = ct; reaped = reaped; ctx = ctx })).table.active
                + (reap_loop on_evict c n
                    (record { table = ct; reaped = reaped; ctx = ctx })).reaped
              ≡ ct.active + reaped)
    unfolding reap_loop
    reap_loop-IsValid zero ct reaped ctx v = (v, refl)
    reap_loop-IsValid (suc n) ct reaped ctx v =
        let s = reap_bucket on_evict c (record { table = ct; reaped = reaped; ctx = ctx }) in
        let step = reap_bucket-IsValid max_flows fits ct v on_evict c reaped ctx in
        let rest = reap_loop-IsValid n s.table s.reaped s.ctx step.0 in
        (rest.0, omega (arith, step.1, rest.1))

    -- A tick of the reaper on a valid table keeps the invariant, and the number that it returns is by how much
    -- `active` went down.
    pub reap_slice-IsValid :
        (ct : ConntrackTable) (max_buckets : ℕ) (ctx : S)
        → IsValid max_flows ct
        → IsValid max_flows (conntrack_reap_slice on_evict c ct max_buckets ctx).table
          × ((conntrack_reap_slice on_evict c ct max_buckets ctx).table.active
                + (conntrack_reap_slice on_evict c ct max_buckets ctx).reaped
              ≡ ct.active)
    unfolding conntrack_reap_slice
    reap_slice-IsValid ct max_buckets ctx v =
        let r = reap_loop-IsValid (min max_buckets ct.bucket_count) ct 0 ctx v in
        (r.0, omega (arith, r.1))

-- The calls on the table, with a context for the callback of the reaper.
pub data Call : Type 0 where
  lookup : FlowKey → ℕ → Call
  insert : FlowKey → ℕ → ℕ → Call
  reap : Clock → ℕ → Call

abbrev pub or_same : ConntrackTable → Option ConntrackTable → ConntrackTable
or_same ct none = ct
or_same ct (some ct') = ct'

module _ (xxh64 : List ℕ → ℕ → ℕ) where
  unfoldable pub run_call : Call → ConntrackTable → ConntrackTable
  unfolding conntrack_lookup conntrack_insert conntrack_reap_slice
  run_call (lookup key now_ns) ct = (conntrack_lookup xxh64 ct key now_ns).1
  run_call (insert key id now_ns) ct = or_same ct (conntrack_insert xxh64 ct key id now_ns)
  run_call (reap c n) ct = (conntrack_reap_slice (λ id (s : ℕ). s) c ct n 0).table

  unfoldable pub run_calls : List Call → ConntrackTable → ConntrackTable
  unfolding run_call
  run_calls [] ct = ct
  run_calls (call ∷ calls) ct = run_calls calls (run_call call ct)

  module _ (max_flows : ℕ) (fits : max_flows < 2 ^ 64) where
    run_call-IsValid :
        (call : Call) (ct : ConntrackTable)
        → IsValid max_flows ct
        → IsValid max_flows (run_call call ct)
    unfolding run_call
    run_call-IsValid (lookup key now_ns) ct v = lookup-IsValid max_flows fits ct v xxh64 key now_ns
    run_call-IsValid (insert key id now_ns) ct v =
        elim (Option-cases (conntrack_insert xxh64 ct key id now_ns)) [
          | inl full ↦ subst (λ o. IsValid max_flows (or_same ct o)) (sym full) v
          | inr (ct', done) ↦
              subst (λ o. IsValid max_flows (or_same ct o)) (sym done)
                (insert-IsValid max_flows fits ct v xxh64 key id now_ns ct' done)
        ]
    run_call-IsValid (reap c n) ct v = (reap_slice-IsValid max_flows fits (λ id s. s) c ct n 0 v).0

    -- Whatever lookups, insertions and reaper ticks are run on a valid table of fewer than 2^64
    -- flows, the table stays valid: `active` counts its entries, and every entry of the slab is once
    -- in a bucket or in the free list.
    pub run_calls-IsValid :
        (calls : List Call) (ct : ConntrackTable)
        → IsValid max_flows ct
        → IsValid max_flows (run_calls calls ct)
    unfolding run_calls
    run_calls-IsValid [] ct v = v
    run_calls-IsValid (call ∷ calls) ct v =
        run_calls-IsValid calls (run_call call ct) (run_call-IsValid call ct v)
