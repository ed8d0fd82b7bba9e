-- ===== src/Conntrack/Stock.antt =====
-- The entries of the slab: every operation of src/conntrack/conntrack.c only moves them between
-- the free list and the buckets. A weight on slots that is summed over both says so: the weight 1
-- counts the entries, and the weight of one slot finds where that slot is.
use Prim.Native.Nat.{bit_and-bitwise, digits}
use l4_maglev_lb.Common.{
  ℕ, zero, suc, ◌+◌, ◌/◌, ◌^◌, ◌≤◌, ◌<◌, ◌≡◌, refl, bit_and, min, some, List, [], ◌∷◌, arith,
  length, get_or, set, replicate,
}
use l4_maglev_lb.Net.Key.{FlowKey}
use l4_maglev_lb.Conntrack.Tally.{
  chain_tally, tally, tally-set, tally-replicate, tally-get, refresh-tally,
}
use l4_maglev_lb.Conntrack.Table.{
  Entry, ConntrackTable, Clock, Sweep, indices, refresh, evict, reap_chain,
}

abbrev pub free_weight : (ℕ → ℕ) → List ℕ → ℕ
free_weight f [] = 0
free_weight f (s ∷ ss) = f s + free_weight f ss

abbrev pub chain_weight : (ℕ → ℕ) → List Entry → ℕ
chain_weight f = chain_tally (λ e. f e.slot)

abbrev pub weight : (ℕ → ℕ) → List (List Entry) → ℕ
weight f = tally (λ e. f e.slot)

-- The weight of the whole slab.
abbrev pub stock : (ℕ → ℕ) → ConntrackTable → ℕ
stock f ct = weight f ct.buckets + free_weight f ct.free_list

abbrev pub each : ℕ → ℕ
each s = 1

pub weight-set :
    (f : ℕ → ℕ) (cs : List (List Entry)) (i : ℕ) (c : List Entry)
    → i < length cs
    → weight f (set cs i c) + chain_weight f (get_or cs i []) ≡ weight f cs + chain_weight f c
weight-set f = tally-set (λ e. f e.slot)

pub weight-replicate : (f : ℕ → ℕ) (n : ℕ) → weight f (replicate n []) ≡ 0
weight-replicate f = tally-replicate (λ e. f e.slot)

pub weight-get :
    (f : ℕ → ℕ) (cs : List (List Entry)) (i : ℕ) → chain_weight f (get_or cs i []) ≤ weight f cs
weight-get f = tally-get (λ e. f e.slot)

pub free_weight-each : (i n : ℕ) → free_weight each (indices i n) ≡ n
free_weight-each i zero = refl
free_weight-each i (suc n) = omega (arith, free_weight-each (i + 1) n)

pub refresh-weight :
    (f : ℕ → ℕ) (key : FlowKey) (now_ns : ℕ) (es es' : List Entry) (id : ℕ)
    → refresh key now_ns es ≡ some (id, es')
    → chain_weight f es' ≡ chain_weight f es
refresh-weight f key now_ns es es' id h =
    refresh-tally (λ e. f e.slot) key now_ns es es' id (λ e. refl) h

-- A walk moves the entries that it takes out of the chain to the free list, and counts them in
-- `reaped` and out of `active`.
module _ {S : Type 0} (on_evict : ℕ → S → S) (c : Clock) where
  pub reap_chain-weight :
      (f : ℕ → ℕ) (es : List Entry) (s : Sweep S)
      → chain_weight f (reap_chain on_evict c es s).0
          + free_weight f (reap_chain on_evict c es s).1.table.free_list
        ≡ chain_weight f es + free_weight f s.table.free_list
  unfolding reap_chain evict
  reap_chain-weight f [] s = refl
  reap_chain-weight f (e ∷ es) s =
      ground (arith, reap_chain-weight f es s, reap_chain-weight f es (evict on_evict c e s))

  pub reap_chain-active :
      (es : List Entry) (s : Sweep S)
      → chain_weight each es ≤ s.table.active
      → s.table.active < 2 ^ 64
      → ((reap_chain on_evict c es s).1.table.active + chain_weight each es
          ≡ s.table.active + chain_weight each (reap_chain on_evict c es s).0)
        × ((reap_chain on_evict c es s).1.reaped + chain_weight each (reap_chain on_evict c es s).0
            ≡ s.reaped + chain_weight each es)
  unfolding reap_chain evict
  reap_chain-active [] s h b = (refl, refl)
  reap_chain-active (e ∷ es) s h b =
      ground (arith, reap_chain-active es s, reap_chain-active es (evict on_evict c e s))

  -- It changes nothing else of the table.
  pub reap_chain-frame :
      (es : List Entry) (s : Sweep S)
      → ((reap_chain on_evict c es s).1.table.buckets ≡ s.table.buckets)
        × ((reap_chain on_evict c es s).1.table.bucket_count ≡ s.table.bucket_count)
        × ((reap_chain on_evict c es s).1.table.sweep_cursor ≡ s.table.sweep_cursor)
  unfolding reap_chain evict
  reap_chain-frame [] s = (refl, refl, refl)
  reap_chain-frame (e ∷ es) s =
      ground (arith, reap_chain-frame es s, reap_chain-frame es (evict on_evict c e s))

-- A mask keeps the result at or below it.
pub digits-le : (n a b : ℕ) → digits (λ b. zero) min n a b ≤ b
digits-le zero a b = omega arith
digits-le (suc n) zero b = omega arith
digits-le (suc n) (suc a) b = omega (arith, digits-le n (suc a / 2) (b / 2))

pub bit_and-le : (a b : ℕ) → bit_and a b ≤ b
bit_and-le a b = omega (arith, bit_and-bitwise a b, digits-le a a b)
