-- ===== src/Conntrack/Tests.antt =====
-- The theorems on src/conntrack/ at a table for two flows.
use l4_maglev_lb.Common.{
  ℕ, ◌+◌, ◌*◌, ◌<◌, ◌^◌, ◌≡◌, refl, true, some, List, [], ◌∷◌, arith, if◌then◌else◌, bytes16,
  bytes32,
}
use l4_maglev_lb.Net.Key.{FlowKey, key_bytes, same_key}
use l4_maglev_lb.Maglev.Table.{ok}
use l4_maglev_lb.Maglev.Tests.{sum_hash}
use l4_maglev_lb.Conntrack.Table.{
  Entry, ConntrackTable, Clock, TableAlloc, empty_conntrack, conntrack_create, conntrack_lookup,
  conntrack_insert, conntrack_reap_slice, pin,
}
use l4_maglev_lb.Conntrack.Stock.{each, free_weight}
use l4_maglev_lb.Conntrack.Invariant.{IsValid, active-free, pin-IsValid}
use l4_maglev_lb.Conntrack.Life.{
  indices_start, conntrack_create-IsValid, Call, lookup, insert, reap, run_calls, run_calls-IsValid,
}
use l4_maglev_lb.Conntrack.Lookup.{
  backend_of, pinned, conntrack_lookup-answers, conntrack_insert-pins, reap_slice-live,
}

abbrev pub sample_key : FlowKey
sample_key = record {
  src_ip = 0x0900000a;
  dst_ip = 0x0100000a;
  src_port = 53 * 256;
  dst_port = 80 * 256;
  proto = 17;
}

abbrev given_table : TableAlloc
given_table = record { table = true; buckets = true; slab = true }

abbrev pub fresh_table : ConntrackTable
fresh_table = empty_conntrack 2 4

pub fresh-IsValid : IsValid 2 fresh_table
fresh-IsValid = indices_start 2 4 (omega arith)

-- The flow is pinned to backend 1, last seen at 100.
abbrev pub one_flow : ConntrackTable
one_flow = pin sum_hash fresh_table 0 (1 ∷ []) sample_key 1 100

pub one_flow-IsValid : IsValid 2 one_flow
one_flow-IsValid =
    (pin-IsValid 2 (omega arith) fresh_table fresh-IsValid sum_hash sample_key 0 (1 ∷ []) 1 100
      refl).0

abbrev sample_clock : Clock
sample_clock = record { now_ns = 150; tcp_timeout_ns = 1000; udp_timeout_ns = 60 }

abbrev sample_entry : Entry
sample_entry = record { slot = 0; key = sample_key; backend_id = 1; last_seen_ns = 100 }

abbrev no_evict : ℕ → ℕ → ℕ
no_evict id n = n + 1

pub one_flow-pinned : pinned sum_hash one_flow sample_key ≡ some sample_entry
unfolding pinned pin bytes32 bytes16 key_bytes same_key
one_flow-pinned = refl

inserted : conntrack_insert sum_hash fresh_table sample_key 1 100 ≡ some one_flow
unfolding conntrack_insert
inserted = refl

one_active : one_flow.active + free_weight each one_flow.free_list ≡ 2
one_active = active-free 2 (omega arith) one_flow one_flow-IsValid

conntrack_create-IsValid_example :
    (ct : ConntrackTable) × (conntrack_create given_table 2 ≡ ok ct)
    × IsValid 2 ct
    × ((j : ℕ) × (ct.bucket_count ≡ 2 ^ j))
    × (4 * 2 < 3 * ct.bucket_count)
    × (ct.active ≡ 0)
conntrack_create-IsValid_example =
    conntrack_create-IsValid given_table 2 refl refl refl (omega arith)

abbrev sample_calls : List Call
sample_calls = insert sample_key 1 100 ∷ lookup sample_key 120 ∷ reap sample_clock 4 ∷ []

run_calls-IsValid_example : IsValid 2 (run_calls sum_hash sample_calls fresh_table)
run_calls-IsValid_example =
    run_calls-IsValid sum_hash 2 (omega arith) sample_calls fresh_table fresh-IsValid

conntrack_lookup-answers_example :
    ((conntrack_lookup sum_hash one_flow sample_key 120).0
      ≡ backend_of (pinned sum_hash one_flow sample_key))
    × (backend_of (pinned sum_hash (conntrack_lookup sum_hash one_flow sample_key 120).1 sample_key)
        ≡ backend_of (pinned sum_hash one_flow sample_key))
conntrack_lookup-answers_example =
    conntrack_lookup-answers sum_hash 2 (omega arith) one_flow one_flow-IsValid sample_key
      sample_key 120

conntrack_insert-pins_example : backend_of (pinned sum_hash one_flow sample_key) ≡ (
    if same_key sample_key sample_key
    then some 1
    else backend_of (pinned sum_hash fresh_table sample_key))
conntrack_insert-pins_example =
    conntrack_insert-pins sum_hash 2 (omega arith) fresh_table fresh-IsValid sample_key sample_key 1
      100 one_flow inserted

reap_slice-live_example :
    pinned sum_hash (conntrack_reap_slice no_evict sample_clock one_flow 4 0).table sample_key
    ≡ some sample_entry
reap_slice-live_example =
    reap_slice-live sum_hash no_evict sample_clock one_flow 4 0 sample_key sample_entry
      one_flow-pinned (omega arith) (omega arith) (omega arith)
