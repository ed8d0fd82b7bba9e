-- ===== src/Conntrack/Tally.antt =====
-- Sums over the entries in the buckets of src/conntrack/conntrack.c, and how a lookup and the reaper
-- change them.
use l4_maglev_lb.Common.{
  ℕ, zero, suc, ◌+◌, ◌≤◌, ◌<◌, ◌≡◌, refl, Bool, Option-cases, inl, inr, some, List, [], ◌∷◌, arith,
  length, get_or, set, replicate,
}
use l4_maglev_lb.Net.Key.{FlowKey}
use l4_maglev_lb.Conntrack.Table.{Entry, Clock, Sweep, refresh, is_expired, evict, reap_chain}

abbrev pub chain_tally : (Entry → ℕ) → List Entry → ℕ
chain_tally w [] = 0
chain_tally w (e ∷ es) = w e + chain_tally w es

abbrev pub tally : (Entry → ℕ) → List (List Entry) → ℕ
tally w [] = 0
tally w (c ∷ cs) = chain_tally w c + tally w cs

pub tally-set :
    (w : Entry → ℕ) (cs : List (List Entry)) (i : ℕ) (c : List Entry)
    → i < length cs
    → tally w (set cs i c) + chain_tally w (get_or cs i []) ≡ tally w cs + chain_tally w c
tally-set w [] i c h = absurd (omega arith)
tally-set w (d ∷ cs) zero c h = omega arith
tally-set w (d ∷ cs) (suc i) c h = omega (arith, tally-set w cs i c (omega arith))

pub tally-replicate : (w : Entry → ℕ) (n : ℕ) → tally w (replicate n []) ≡ 0
tally-replicate w zero = refl
tally-replicate w (suc n) = omega (arith, tally-replicate w n)

pub tally-get :
    (w : Entry → ℕ) (cs : List (List Entry)) (i : ℕ) → chain_tally w (get_or cs i []) ≤ tally w cs
tally-get w [] i = omega arith
tally-get w (d ∷ cs) zero = omega arith
tally-get w (d ∷ cs) (suc i) = omega (arith, tally-get w cs i)

-- Where every chain counts for nothing, so does the whole.
pub tally-zero :
    (w : Entry → ℕ) (cs : List (List Entry))
    → ((i : ℕ) → i < length cs → chain_tally w (get_or cs i []) ≡ 0)
    → tally w cs ≡ 0
tally-zero w [] h = refl
tally-zero w (d ∷ cs) h =
    omega (arith, h 0 (omega arith), tally-zero w cs (λ i p. h (suc i) (omega arith)))

-- A refresh keeps any sum that does not read the time.
pub refresh-tally :
    (w : Entry → ℕ) (key : FlowKey) (now_ns : ℕ) (es es' : List Entry) (id : ℕ)
    → ((e : Entry) → w (record e { last_seen_ns = now_ns }) ≡ w e)
    → refresh key now_ns es ≡ some (id, es')
    → chain_tally w es' ≡ chain_tally w es
unfolding refresh
refresh-tally w key now_ns [] es' id same h = cc
refresh-tally w key now_ns (e ∷ es) es' id same h = elim (Option-cases (refresh key now_ns es)) [
  | inl miss ↦ ground (arith, same e)
  | inr ((i, c), hit) ↦ ground (arith, same e, refresh-tally w key now_ns es c i same hit)
]

module _ {S : Type 0} (on_evict : ℕ → S → S) (c : Clock) where
  -- The reaper leaves no more than there was.
  pub reap_chain-tally-le :
      (w : Entry → ℕ) (es : List Entry) (s : Sweep S)
      → chain_tally w (reap_chain on_evict c es s).0 ≤ chain_tally w es
  unfolding reap_chain
  reap_chain-tally-le w [] s = omega arith
  reap_chain-tally-le w (e ∷ es) s =
      ground (arith, reap_chain-tally-le w es s, reap_chain-tally-le w es (evict on_evict c e s))

  -- What only counts expired entries is gone from the chain after it.
  pub reap_chain-tally_zero :
      (w : Entry → ℕ) (es : List Entry) (s : Sweep S)
      → ((e : Entry) → is_expired c e ≡ Bool.false → w e ≡ 0)
      → chain_tally w (reap_chain on_evict c es s).0 ≡ 0
  unfolding reap_chain
  reap_chain-tally_zero w [] s h = refl
  reap_chain-tally_zero w (e ∷ es) s h = ground (
    arith,
    h e,
    reap_chain-tally_zero w es s h,
    reap_chain-tally_zero w es (evict on_evict c e s) h,
  )
