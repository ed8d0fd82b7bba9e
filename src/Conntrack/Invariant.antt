-- ===== src/Conntrack/Invariant.antt =====
-- The invariant of the flow table of src/conntrack/conntrack.c, kept by each of its operations.
use l4_maglev_lb.Common.{
  ℕ, ◌+◌, ◌-◌, ◌%◌, ◌^◌, ◌<◌, ◌≡◌, refl, subst, Option, none, some, inl, inr, List, [], ◌∷◌, arith,
  length, get_or, length-set, List-cases,
}
use native.Mathlib.Nat.{mod-lt}
use l4_maglev_lb.Net.Key.{FlowKey}
use l4_maglev_lb.Maglev.Hash.{flow_hash}
use l4_maglev_lb.Conntrack.Table.{
  Entry, ConntrackTable, Clock, Sweep, indices, refresh, bucket_of, pin, after_walk,
  conntrack_lookup, conntrack_insert, reap_chain, reap_bucket, store_chain,
}
use l4_maglev_lb.Conntrack.Stock.{
  free_weight, chain_weight, weight, stock, each, weight-set, weight-get, free_weight-each,
  refresh-weight, reap_chain-weight, reap_chain-active, reap_chain-frame, bit_and-le,
}

-- The buckets are as many as the count says, and the cursor is one of them; `active` counts the
-- entries in the buckets; and every entry of the slab of `max_flows` is exactly once in a bucket
-- or in the free list (for each weight on slots, the two together weigh what the slab does).
pub record IsValid (max_flows : ℕ) (ct : ConntrackTable) : Type 0 where
  pub size : length ct.buckets ≡ ct.bucket_count
  pub some_bucket : 0 < ct.bucket_count
  pub cursor : ct.sweep_cursor < ct.bucket_count
  pub entries : ct.active ≡ weight each ct.buckets
  pub whole : (f : ℕ → ℕ) → stock f ct ≡ free_weight f (indices 0 max_flows)

module _ (max_flows : ℕ) (fits : max_flows < 2 ^ 64) (ct : ConntrackTable)
    (v : IsValid max_flows ct) where
  -- The number of active and of free entries together is the size of the slab.
  pub active-free : ct.active + free_weight each ct.free_list ≡ max_flows
  active-free = omega (arith, v.entries, v.whole each, free_weight-each 0 max_flows)

  -- A chain of the same entries may replace another.
  store-IsValid :
      (i : ℕ) (c : List Entry)
      → i < length ct.buckets
      → ((f : ℕ → ℕ) → chain_weight f c ≡ chain_weight f (get_or ct.buckets i []))
      → IsValid max_flows (store_chain ct i c)
  store-IsValid i c p same = record {
    size = omega (arith, v.size, length-set ct.buckets i c);
    some_bucket = v.some_bucket;
    cursor = v.cursor;
    entries = omega (arith, v.entries, same each, weight-set each ct.buckets i c p);
    whole = λ f. omega (arith, v.whole f, same f, weight-set f ct.buckets i c p);
  }

  module _ (xxh64 : List ℕ → ℕ → ℕ) (key : FlowKey) where
    pub bucket_of-lt : bucket_of xxh64 ct key < length ct.buckets
    unfolding bucket_of
    bucket_of-lt =
        omega (arith, bit_and-le (flow_hash xxh64 key) (ct.bucket_count - 1), v.size, v.some_bucket)

    -- A lookup keeps the invariant.
    pub lookup-IsValid : (now_ns : ℕ) → IsValid max_flows (conntrack_lookup xxh64 ct key now_ns).1
    unfolding conntrack_lookup
    lookup-IsValid now_ns =
        let chain = get_or ct.buckets (bucket_of xxh64 ct key) [] in
        walked (refresh key now_ns chain) (λ f c id hit. refresh-weight f key now_ns chain c id hit)
      where
        walked :
            (r : Option (ℕ × List Entry))
            → ((f : ℕ → ℕ) (c : List Entry) (id : ℕ)
                → r ≡ some (id, c)
                → chain_weight f c ≡ chain_weight f (get_or ct.buckets (bucket_of xxh64 ct key) []))
            → IsValid max_flows (after_walk ct (bucket_of xxh64 ct key) r).1
        walked none same = v
        walked (some (id, c)) same = store-IsValid _ c bucket_of-lt (λ f. same f c id refl)

    pub pin-IsValid :
        (slot : ℕ) (free : List ℕ) (backend_id now_ns : ℕ)
        → ct.free_list ≡ slot ∷ free
        → IsValid max_flows (pin xxh64 ct slot free key backend_id now_ns)
          × ((pin xxh64 ct slot free key backend_id now_ns).active ≡ ct.active + 1)
    unfolding pin
    pin-IsValid slot free backend_id now_ns e =
        let idx = bucket_of xxh64 ct key in
        let c =
          record { slot = slot; key = key; backend_id = backend_id; last_seen_ns = now_ns }
          ∷ get_or ct.buckets idx [] in
        (
          record {
            size = omega (arith, v.size, length-set ct.buckets idx c);
            some_bucket = v.some_bucket;
            cursor = v.cursor;
            entries =
                ground
                  (arith, active-free, v.entries, weight-set each ct.buckets idx c bucket_of-lt, e);
            whole = λ f. ground (arith, v.whole f, weight-set f ct.buckets idx c bucket_of-lt, e);
          },
          ground (arith, active-free, e),
        )

    -- An insertion takes the first free entry, and fails only where there is none.
    pub insert-IsValid :
        (backend_id now_ns : ℕ) (ct' : ConntrackTable)
        → conntrack_insert xxh64 ct key backend_id now_ns ≡ some ct'
        → IsValid max_flows ct'
    unfolding conntrack_insert
    insert-IsValid backend_id now_ns ct' done = elim (List-cases ct.free_list) [
      | inl empty ↦ absurd (ground (arith, empty))
      | inr (slot, free, e) ↦
          subst (IsValid max_flows) (ground arith) (pin-IsValid slot free backend_id now_ns e).0
    ]

  module _ {S : Type 0} (on_evict : ℕ → S → S) (c : Clock) (reaped : ℕ) (ctx : S) where
    abbrev start : Sweep S
    start = record { table = ct; reaped = reaped; ctx = ctx }

    -- A bucket's walk keeps the invariant, and `reaped` counts what leaves `active`.
    pub reap_bucket-IsValid :
        IsValid max_flows (reap_bucket on_evict c start).table
        × ((reap_bucket on_evict c start).table.active + (reap_bucket on_evict c start).reaped
            ≡ ct.active + reaped)
    unfolding reap_bucket
    reap_bucket-IsValid =
        let i = ct.sweep_cursor in
        let es = get_or ct.buckets i [] in
        let s = record start { table = record ct { sweep_cursor = (i + 1) % ct.bucket_count } } in
        let kept = (reap_chain on_evict c es s).0 in
        let counts =
          reap_chain-active on_evict c es s (omega (arith, weight-get each ct.buckets i, v.entries))
            (omega (arith, active-free)) in
        let (same_b, same_n, same_c) = reap_chain-frame on_evict c es s in
        let room : i < length ct.buckets = omega (arith, v.cursor, v.size) in
        (
          record {
            size = ground (arith, v.size, length-set ct.buckets i kept, same_b, same_n);
            some_bucket = ground (arith, same_n, v.some_bucket);
            cursor =
                ground (arith, same_n, same_c, mod-lt (i + 1) {m = ct.bucket_count} v.some_bucket);
            entries =
                ground (arith, same_b, v.entries, counts.0, weight-set each ct.buckets i kept room);
            whole = λ f. ground (
              arith,
              same_b,
              v.whole f,
              reap_chain-weight on_evict c f es s,
              weight-set f ct.buckets i kept room,
            );
          },
          ground (arith, counts.0, counts.1),
        )
