-- ===== src/Conntrack/Table.antt =====
-- src/conntrack/conntrack.c and `reaper_on_timer_fired` of src/conntrack/reaper.c.
--
-- An entry of the slab is named by its index. A bucket's chain is the list of its entries, front
-- first, and the free list is the list of unused indices; the fields of an unused entry are never
-- read. The evict callback is a function on its context.
use l4_maglev_lb.Common.{
  ℕ, zero, suc, ◌+◌, ◌-◌, ◌*◌, ◌/◌, ◌%◌, ◌^◌, bit_and, Bool, Option, none, some, List, [], ◌∷◌, min,
  ltb, ◌==◌, if◌then◌else◌, get_or, set, replicate, u64,
}
use l4_maglev_lb.Net.Key.{FlowKey, same_key}
use l4_maglev_lb.Maglev.Hash.{flow_hash}
use l4_maglev_lb.Maglev.Table.{Result, ok, null, stuck}

pub record Entry : Type 0 where
  pub slot : ℕ
  pub key : FlowKey
  pub backend_id : ℕ
  pub last_seen_ns : ℕ

pub record ConntrackTable : Type 0 where
  pub buckets : List (List Entry)
  pub bucket_count : ℕ
  pub free_list : List ℕ
  pub sweep_cursor : ℕ
  pub active : ℕ

-- The loop of `next_pow2`.
unfoldable pub double_until : ℕ → ℕ → ℕ → Option ℕ
double_until zero x p = none
double_until (suc fuel) x p =
    let rest = double_until fuel x (u64 (p * 2)) in if ltb p x then rest else some p

unfoldable pub next_pow2 : ℕ → Option ℕ
unfolding double_until
next_pow2 x = double_until 65 x 1

-- The indices `i`, ..., `i + n - 1`.
abbrev pub indices : ℕ → ℕ → List ℕ
indices i zero = []
indices i (suc n) = i ∷ indices (i + 1) n

-- `(size_t)((double)max_flows / 0.75) + 1`, which is this for every `max_flows` below 2^49.
abbrev pub desired_buckets : ℕ → ℕ
desired_buckets max_flows = 4 * max_flows / 3 + 1

abbrev pub empty_conntrack : ℕ → ℕ → ConntrackTable
empty_conntrack max_flows bucket_count = record {
  buckets = replicate bucket_count [];
  bucket_count = bucket_count;
  free_list = indices 0 max_flows;
  sweep_cursor = 0;
  active = 0;
}

-- Which of the three allocations succeed; no slab is asked for when there are to be no flows.
pub record TableAlloc : Type 0 where
  pub table : Bool
  pub buckets : Bool
  pub slab : Bool

abbrev pub slab_ok : TableAlloc → ℕ → Bool
slab_ok alloc zero = Bool.true
slab_ok alloc (suc n) = alloc.slab

abbrev pub with_buckets : TableAlloc → ℕ → Option ℕ → Result ConntrackTable
with_buckets alloc max_flows none = stuck
with_buckets alloc max_flows (some bucket_count) =
    if alloc.buckets
    then if slab_ok alloc max_flows then ok (empty_conntrack max_flows bucket_count) else null
    else null

unfoldable pub conntrack_create : TableAlloc → ℕ → Result ConntrackTable
unfolding next_pow2
conntrack_create alloc max_flows =
    if alloc.table
    then with_buckets alloc max_flows (next_pow2 (desired_buckets max_flows))
    else null

-- The walk of `conntrack_lookup` along one chain: the first entry of the key is refreshed.
unfoldable pub refresh : FlowKey → ℕ → List Entry → Option (ℕ × List Entry)
refresh key now_ns [] = none
refresh key now_ns (e ∷ es) =
    let rest = refresh key now_ns es in
    if same_key e.key key
    then some (e.backend_id, record e { last_seen_ns = now_ns } ∷ es)
    else elim rest [ none ↦ none | some (id, es') ↦ some (id, e ∷ es') ]

abbrev pub store_chain : ConntrackTable → ℕ → List Entry → ConntrackTable
store_chain ct idx chain = record ct { buckets = set ct.buckets idx chain }

abbrev pub after_walk : ConntrackTable → ℕ → Option (ℕ × List Entry) → Option ℕ × ConntrackTable
after_walk ct idx none = (none, ct)
after_walk ct idx (some (id, chain)) = (some id, store_chain ct idx chain)

module _ (xxh64 : List ℕ → ℕ → ℕ) where
  -- `flow_hash(key) & (ct->bucket_count - 1)`
  unfoldable pub bucket_of : ConntrackTable → FlowKey → ℕ
  unfolding flow_hash
  bucket_of ct key = bit_and (flow_hash xxh64 key) (ct.bucket_count - 1)

  -- A hit gives the backend id.
  unfoldable pub conntrack_lookup : ConntrackTable → FlowKey → ℕ → Option ℕ × ConntrackTable
  unfolding bucket_of refresh
  conntrack_lookup ct key now_ns =
      let idx = bucket_of ct key in
      after_walk ct idx (refresh key now_ns (get_or ct.buckets idx []))

  -- The body after the guard: the entry leaves the free list for the front of its bucket.
  unfoldable pub pin : ConntrackTable → ℕ → List ℕ → FlowKey → ℕ → ℕ → ConntrackTable
  unfolding bucket_of
  pin ct slot free key backend_id now_ns =
      let idx = bucket_of ct key in
      record ct {
        free_list = free;
        buckets = set ct.buckets idx (
            record { slot = slot; key = key; backend_id = backend_id; last_seen_ns = now_ns }
            ∷ get_or ct.buckets idx []);
        active = u64 (ct.active + 1);
      }

  -- `none` is -1: the slab is exhausted.
  unfoldable pub conntrack_insert : ConntrackTable → FlowKey → ℕ → ℕ → Option ConntrackTable
  unfolding pin
  conntrack_insert ct key backend_id now_ns = elim ct.free_list [
    | [] ↦ none
    | slot ∷ free ↦ some (pin ct slot free key backend_id now_ns)
  ]

pub record Clock : Type 0 where
  pub now_ns : ℕ
  pub tcp_timeout_ns : ℕ
  pub udp_timeout_ns : ℕ

-- `now_ns - e->last_seen_ns > timeout` on uint64_t.
unfoldable pub is_expired : Clock → Entry → Bool
is_expired c e =
    ltb (if e.key.proto == 6 then c.tcp_timeout_ns else c.udp_timeout_ns)
      (u64 (c.now_ns + 2 ^ 64 - e.last_seen_ns))

-- The state of `conntrack_reap_slice`, with the callback's context.
pub record Sweep (S : Type 0) : Type 0 where
  pub table : ConntrackTable
  pub reaped : ℕ
  pub ctx : S

module _ {S : Type 0} (on_evict : ℕ → S → S) (c : Clock) where
  -- The entry goes to the front of the free list, and the callback is called.
  unfoldable pub evict : Entry → Sweep S → Sweep S
  evict e s = record {
    table = record s.table {
      free_list = e.slot ∷ s.table.free_list;
      active = u64 (s.table.active + 2 ^ 64 - 1);
    };
    reaped = s.reaped + 1;
    ctx = on_evict e.backend_id s.ctx;
  }

  -- The walk along one chain: what stays in it, and the state after it.
  unfoldable pub reap_chain : List Entry → Sweep S → List Entry × Sweep S
  unfolding evict is_expired
  reap_chain [] s = ([], s)
  reap_chain (e ∷ es) s =
      let rest = reap_chain es (if is_expired c e then evict e s else s) in
      (if is_expired c e then rest.0 else e ∷ rest.0, rest.1)

  -- One bucket, at the cursor, which is moved on first.
  unfoldable pub reap_bucket : Sweep S → Sweep S
  unfolding reap_chain
  reap_bucket s =
      let idx = s.table.sweep_cursor in
      let moved = record s {
        table = record s.table { sweep_cursor = (idx + 1) % s.table.bucket_count };
      } in
      let done = reap_chain (get_or s.table.buckets idx []) moved in
      record done.1 { table = store_chain done.1.table idx done.0 }

  unfoldable pub reap_loop : ℕ → Sweep S → Sweep S
  unfolding reap_bucket
  reap_loop zero s = s
  reap_loop (suc n) s = reap_loop n (reap_bucket s)

  unfoldable pub conntrack_reap_slice : ConntrackTable → ℕ → S → Sweep S
  unfolding reap_loop
  conntrack_reap_slice ct max_buckets ctx =
      reap_loop (min max_buckets ct.bucket_count) (record { table = ct; reaped = 0; ctx = ctx })
