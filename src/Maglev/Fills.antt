-- ===== src/Maglev/Fills.antt =====
-- The whole populate loop: it ends, fills every slot, and serves the backends in turn.
use l4_maglev_lb.Common.{
  ℕ, zero, suc, ◌+◌, ◌%◌, ◌^◌, ◌≤◌, ◌<◌, ◌≡◌, refl, sym, ap, ◌∙◌, ◌≢◌, some, arith, ◌==◌, length,
  count, lt→ltb, le→ltb, to_nat, ==_refl,
}
use mathlib.Core.Path.{ap₂}
use native.Mathlib.Decide.{dec_lt, ℕ_discrete}
use l4_maglev_lb.Maglev.Prime.{IsPrime}
use l4_maglev_lb.Maglev.Table.{Populate, populate_step, populate}
use l4_maglev_lb.Maglev.Populate.{Inv, Passes, populate_step-Passes, entry_at}
use l4_maglev_lb.Maglev.Shares.{share, share-suc}

-- No two backends share an id.
abbrev pub Distinct : Populate → Type 0
Distinct s =
    (a b : ℕ)
    → a < length s.entries
    → b < length s.entries
    → (entry_at s a).id ≡ (entry_at s b).id
    → a ≡ b

-- Each backend holds as many slots as it had turns.
abbrev pub Balanced : Populate → Type 0
Balanced s =
    (b : ℕ)
    → b < length s.entries
    → count (entry_at s b).id s.lookup ≡ share (length s.entries) b s.round_robin

pub record Fills (m : ℕ) (s s' : Populate) : Type 0 where
  pub inv : Inv m s'
  pub full : s'.filled ≡ m
  pub rounds : s'.round_robin + s.filled ≡ s.round_robin + m
  pub size : length s'.entries ≡ length s.entries
  pub ids : (b : ℕ) → (entry_at s' b).id ≡ (entry_at s b).id
  pub balanced : Distinct s → Balanced s → Balanced s'

ids_agree :
    (s : Populate)
    → Distinct s
    → (t b : ℕ) → t < length s.entries
    → b < length s.entries
    → to_nat ((entry_at s t).id == (entry_at s b).id) ≡ to_nat (t == b)
ids_agree s distinct t b ht hb = elim (ℕ_discrete t b) [
  | yes same ↦ rw (same, ==_refl, ==_refl)
  | no other ↦
      let apart : (entry_at s t).id ≢ (entry_at s b).id = λ e. other (distinct t b ht hb e) in
      ground arith
]

Passes-Balanced :
    (m : ℕ) (s s' : Populate) → Inv m s → Passes m s s' → Distinct s → Balanced s → Balanced s'
Passes-Balanced m s s' inv p distinct balanced b h =
    let n = length s.entries in
    let t = s.round_robin % n in
    let inside : b < n = omega (arith, p.size) in
    let at_turn : t < n = omega (arith, inv.some_entry) in
    let same_id : to_nat ((entry_at s t).id == (entry_at s b).id) ≡ to_nat (t == b) =
      ids_agree s distinct t b at_turn inside in
    ap (λ (v : ℕ). count v s'.lookup) (p.ids b)
    ∙ p.counts (entry_at s b).id (inv.entries b inside).named
    ∙ ap₂ ◌+◌ (balanced b inside) same_id
    ∙ sym (share-suc n b s.round_robin inside)
    ∙ sym (ap₂ (λ (k r : ℕ). share k b r) p.size p.round_robin)

Distinct-Passes : (m : ℕ) (s s' : Populate) → Passes m s s' → Distinct s → Distinct s'
Distinct-Passes m s s' p distinct a b ha hb e =
    distinct a b (omega (arith, p.size)) (omega (arith, p.size)) (sym (p.ids a) ∙ e ∙ p.ids b)

Fills-Passes :
    (m : ℕ) (s s' s'' : Populate) → Inv m s → Passes m s s' → Fills m s' s'' → Fills m s s''
Fills-Passes m s s' s'' inv p f = record {
  inv = f.inv;
  full = f.full;
  rounds = omega (arith, f.rounds, p.filled, p.round_robin);
  size = f.size ∙ p.size;
  ids = λ b. f.ids b ∙ p.ids b;
  balanced = λ d bal. f.balanced (Distinct-Passes m s s' p d) (Passes-Balanced m s s' inv p d bal);
}

done-Fills : (m : ℕ) (s : Populate) → Inv m s → m ≤ s.filled → Fills m s s
done-Fills m s inv enough =
    let full : s.filled ≡ m = omega (arith, inv.filled) in
    record {
      inv = inv;
      full = full;
      rounds = omega arith;
      size = refl;
      ids = λ b. refl;
      balanced = λ d bal. bal;
    }

populate_stop : (fuel m : ℕ) (s : Populate) → m ≤ s.filled → populate fuel m s ≡ some s
unfolding populate
populate_stop zero m s h = rw (le→ltb s.filled m h)
populate_stop (suc fuel) m s h = rw (le→ltb s.filled m h)

populate_go :
    (fuel m : ℕ) (s s' : Populate)
    → s.filled < m
    → populate_step m s ≡ some s'
    → populate (suc fuel) m s ≡ populate fuel m s'
unfolding populate
populate_go fuel m s s' h e = rw (lt→ltb s.filled m h, e)

module _ (m : ℕ) (prime : IsPrime m) (small : m < 2 ^ 32) where
  pub populate-Fills :
      (fuel : ℕ) (s : Populate)
      → Inv m s
      → m ≤ fuel + s.filled
      → (s' : Populate) × (populate fuel m s ≡ some s') × Fills m s s'
  populate-Fills zero s inv enough =
      let full : m ≤ s.filled = omega arith in
      (s, populate_stop zero m s full, done-Fills m s inv full)
  populate-Fills (suc fuel) s inv enough = elim (dec_lt s.filled m) [
    | no full ↦
        let full' : m ≤ s.filled = omega arith in
        (s, populate_stop (suc fuel) m s full', done-Fills m s inv full')
    | yes room ↦
        let (s', run, p) = populate_step-Passes m prime small s inv room in
        let (s'', rest, f) = populate-Fills fuel s' p.inv (omega (arith, p.filled)) in
        (s'', populate_go fuel m s s' room run ∙ rest, Fills-Passes m s s' s'' inv p f)
  ]
