-- ===== src/Maglev/Shares.antt =====
-- Round robin: after `r` turns among `n` backends the one at position `b` has had `share n b r`.
use native.Mathlib.Decide.{dec_lt, ℕ_discrete}
use native.Mathlib.Nat.{div-add-mod, mod-lt, div-eq_of_lt-le}
use l4_maglev_lb.Common.{
  ℕ, ◌+◌, ◌-◌, ◌*◌, ◌/◌, ◌%◌, ◌≤◌, ◌<◌, ◌≡◌, sym, ap, ◌∙◌, arith, ◌==◌, to_nat,
}

pub share : ℕ → ℕ → ℕ → ℕ
share n b r = (r + (n - 1 - b)) / n

-- The quotient of `n * q + x` for `x` in one of the first two rows.
row_low : (n q x : ℕ) → x < n → (n * q + x) / n ≡ q
row_low n q x h = div-eq_of_lt-le _ (omega arith) (omega arith)

row_high : (n q x : ℕ) → n ≤ x → x < n + n → (n * q + x) / n ≡ q + 1
row_high n q x lo hi = div-eq_of_lt-le _ (omega arith) (omega arith)

pub share-zero : (n b : ℕ) → b < n → share n b 0 ≡ 0
unfolding share
share-zero n b h = ap (λ (t : ℕ). t / n) (omega arith) ∙ row_low n 0 (n - 1 - b) (omega arith)

pub share-suc : (n b r : ℕ) → b < n → share n b (r + 1) ≡ share n b r + to_nat (r % n == b)
unfolding share
share-suc n b r h =
    let q = r / n in
    let t = r % n in
    let split : n * q + t ≡ r = div-add-mod r n in
    let small : t < n = mod-lt r (omega arith) in
    let before : r + (n - 1 - b) ≡ n * q + (t + (n - 1 - b)) = omega arith in
    let after : r + 1 + (n - 1 - b) ≡ n * q + (t + 1 + (n - 1 - b)) = omega arith in
    ap (λ (x : ℕ). x / n) after
    ∙ rows n q t b h small
    ∙ sym (ap (λ (x : ℕ). x / n + to_nat (t == b)) before)
  where
    rows :
        (n q t b : ℕ)
        → b < n
        → t < n
        → (n * q + (t + 1 + (n - 1 - b))) / n ≡ (n * q + (t + (n - 1 - b))) / n + to_nat (t == b)
    rows n q t b h small = elim (dec_lt t b) [
      | yes early ↦ ground (
        arith,
        row_low n q (t + 1 + (n - 1 - b)) (omega arith),
        row_low n q (t + (n - 1 - b)) (omega arith),
      )
      | no late ↦ elim (ℕ_discrete t b) [
        | yes now ↦ ground (
          arith,
          row_high n q (t + 1 + (n - 1 - b)) (omega arith) (omega arith),
          row_low n q (t + (n - 1 - b)) (omega arith),
        )
        | no past ↦ ground (
          arith,
          row_high n q (t + 1 + (n - 1 - b)) (omega arith) (omega arith),
          row_high n q (t + (n - 1 - b)) (omega arith) (omega arith),
        )
      ]
    ]

-- Everyone gets the quotient, or one more.
pub share_bounds : (n b r : ℕ) → b < n → (r / n ≤ share n b r) × (share n b r ≤ r / n + 1)
unfolding share
share_bounds n b r h =
    let q = r / n in
    let t = r % n in
    let split : n * q + t ≡ r = div-add-mod r n in
    let small : t < n = mod-lt r (omega arith) in
    let before : (r + (n - 1 - b)) / n ≡ (n * q + (t + (n - 1 - b))) / n =
      ap (λ (x : ℕ). x / n) (omega arith) in
    elim (dec_lt (t + (n - 1 - b)) n) [
      | yes low ↦ omega (arith, row_low n q (t + (n - 1 - b)) low)
      | no high ↦ omega (arith, row_high n q (t + (n - 1 - b)) (omega arith) (omega arith))
    ]
