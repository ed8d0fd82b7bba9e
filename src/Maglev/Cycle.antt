-- ===== src/Maglev/Cycle.antt =====
-- A backend's permutation of the table, `(offset + j * skip) % m` in src/maglev/maglev_table.c:
-- the 64-bit sum does not wrap, and over a prime `m` it is a full cycle.
use native.Mathlib.Nat.{
  mod-eq_of_lt, mod-lt, div-add-mod, add-mul-mod_self_left, add-mod-mod, mul-le-mul, mul_comm,
  mul_assoc, add-mod_right, one-mul, mul-one,
}
use native.Mathlib.Decide.{ℕ_discrete}
use l4_maglev_lb.Common.{
  ℕ, zero, suc, ◌+◌, ◌-◌, ◌*◌, ◌/◌, ◌%◌, ◌^◌, ◌≤◌, ◌<◌, ◌≡◌, sym, ap, ◌∙◌, arith, u32, u64,
}
use l4_maglev_lb.Maglev.Prime.{IsPrime}

-- `(uint32_t)((offset + (uint64_t)j * skip) % m)`
unfoldable pub slot_of : ℕ → ℕ → ℕ → ℕ → ℕ
slot_of m offset skip j = u32 (u64 (offset + u64 (j * skip)) % m)

pub slot_of-lt : (m offset skip j : ℕ) → 0 < m → slot_of m offset skip j < m
unfolding slot_of
slot_of-lt m offset skip j pos = omega (arith, mod-lt (u64 (offset + u64 (j * skip))) pos)

-- For offset and skip below a table size under 2^32, and a probe number up to the size, the 64-bit
-- arithmetic of a slot does not wrap: it is the exact sum modulo the size.
pub slot_of_exact :
    (m offset skip j : ℕ)
    → 0 < m
    → m < 2 ^ 32
    → offset < m
    → skip < m
    → j ≤ m
    → slot_of m offset skip j ≡ (offset + j * skip) % m
unfolding slot_of
slot_of_exact m offset skip j pos small o s h =
    let product : j * skip ≤ (2 ^ 32 - 1) * (2 ^ 32 - 1) =
      mul-le-mul {n₁ = j} {m₁ = skip} {n₂ = 2 ^ 32 - 1} {m₂ = 2 ^ 32 - 1} (omega arith)
        (omega arith) in
    let inner : u64 (j * skip) ≡ j * skip = mod-eq_of_lt (omega arith) in
    let outer : u64 (offset + j * skip) ≡ offset + j * skip = mod-eq_of_lt (omega arith) in
    rw (inner, outer) (mod-eq_of_lt (omega (arith, mod-lt (offset + j * skip) pos)))

mod-mul_left : (a b m : ℕ) → (a % m * b) % m ≡ (a * b) % m
mod-mul_left a b m =
    let split : a * b ≡ a % m * b + m * (a / m * b) =
      omega (arith, ap (λ (t : ℕ). t * b) (div-add-mod a m)) in
    sym (ap (λ (t : ℕ). t % m) split ∙ add-mul-mod_self_left (a % m * b) m (a / m * b))

mul-mod_right : (a b m : ℕ) → (a * b) % m ≡ (a * (b % m)) % m
mul-mod_right a b m =
    ap (λ (t : ℕ). t % m) (mul_comm a b)
    ∙ sym (mod-mul_left b a m)
    ∙ ap (λ (t : ℕ). t % m) (mul_comm (b % m) a)

cancel_offset : (m o x : ℕ) → o < m → (m - o + (o + x) % m) % m ≡ x % m
cancel_offset m o x h =
    add-mod-mod (m - o) (o + x) m ∙ ap (λ (t : ℕ). t % m) (omega arith) ∙ add-mod_right x m

descend_equation :
    (p q r r' a w k s : ℕ)
    → q * r ≡ suc w
    → p ≡ w + r'
    → k * s ≡ r + suc p * a
    → q * p * k * s ≡ r' + suc p * (w + p * q * a)
descend_equation p q r r' a w k s e f g =
    omega (arith, ap (λ (t : ℕ). q * p * t) g, ap (λ (t : ℕ). p * t) e)

-- One step of Euclid's descent: a multiple of `s` with residue `r` gives one with residue `m % r`.
descend : (m s r k : ℕ) → 0 < r → r < m → (k * s) % m ≡ r → (k' : ℕ) × ((k' * s) % m ≡ m % r)
descend zero s r k pos lt e = absurd (omega arith)
descend (suc p) s r k pos lt e =
    let q = suc p / r in
    let a = k * s / suc p in
    let w = q * r - 1 in
    let split : r * q + suc p % r ≡ suc p = div-add-mod (suc p) r in
    let small : suc p % r < r = mod-lt (suc p) pos in
    let turns : q * r ≡ suc w = omega arith in
    let whole : k * s ≡ r + suc p * a = omega (arith, div-add-mod (k * s) (suc p)) in
    let equation = descend_equation p q r (suc p % r) a w k s turns (omega arith) whole in
    (
      q * p * k,
      ap (λ (t : ℕ). t % suc p) equation
          ∙ add-mul-mod_self_left (suc p % r) (suc p) (w + p * q * a)
          ∙ mod-eq_of_lt (omega arith),
    )

module _ (m : ℕ) (prime : IsPrime m) where
  -- From any non-zero residue that is a multiple of `s` down to the residue 1.
  inverse_from :
      (s fuel r k : ℕ) → r < fuel → 0 < r → r < m → (k * s) % m ≡ r → (t : ℕ) × ((t * s) % m ≡ 1)
  inverse_from s zero r k enough pos lt e = absurd (omega arith)
  inverse_from s (suc fuel) r k enough pos lt e = elim (ℕ_discrete r 1) [
    | yes one ↦ (k, e ∙ one)
    | no more ↦
        let (k', e') = descend m s r k pos lt e in
        let smaller = mod-lt m pos in
        inverse_from s fuel (m % r) k' (omega arith)
          (omega (arith, prime.no_divisor r (omega arith) lt)) (omega arith) e'
  ]

  inverse : (s : ℕ) → 0 < s → s < m → (t : ℕ) × ((t * s) % m ≡ 1)
  inverse s pos lt =
      inverse_from s (suc s) s 1 (omega arith) pos lt
        (ap (λ (t : ℕ). t % m) (one-mul s) ∙ mod-eq_of_lt lt)

  cancel : (o x y : ℕ) → o < m → (o + x) % m ≡ (o + y) % m → x % m ≡ y % m
  cancel o x y h e =
      sym (cancel_offset m o x h) ∙ ap (λ (t : ℕ). (m - o + t) % m) e ∙ cancel_offset m o y h

  covers :
      (offset skip c : ℕ)
      → offset < m
      → 0 < skip
      → skip < m
      → c < m
      → (j : ℕ) × (j < m) × ((offset + j * skip) % m ≡ c)
  covers offset skip c o pos lt h =
      let (t, e) = inverse skip pos lt in
      let d = c + (m - offset) in
      (
        (d * t) % m,
        mod-lt (d * t) (omega arith),
        sym (add-mod-mod offset (d * t % m * skip) m)
            ∙ ap (λ (x : ℕ). (offset + x) % m)
                (mod-mul_left (d * t) skip m
                  ∙ ap (λ (x : ℕ). x % m) (mul_assoc d t skip)
                  ∙ mul-mod_right d (t * skip) m
                  ∙ ap (λ (x : ℕ). (d * x) % m) e
                  ∙ ap (λ (x : ℕ). x % m) (mul-one d))
            ∙ add-mod-mod offset d m
            ∙ ap (λ (x : ℕ). x % m) (omega arith)
            ∙ add-mod_right c m
            ∙ mod-eq_of_lt h,
      )

  injective :
      (offset skip j k : ℕ)
      → offset < m
      → 0 < skip
      → skip < m
      → j < m
      → k < m
      → (offset + j * skip) % m ≡ (offset + k * skip) % m
      → j ≡ k
  injective offset skip j k o pos lt hj hk same =
      let (t, e) = inverse skip pos lt in
      let undo : (x : ℕ) → x < m → ((x * skip) % m * t) % m ≡ x = λ x hx.
        mod-mul_left (x * skip) t m
        ∙ ap (λ (y : ℕ). y % m) (omega arith)
        ∙ mul-mod_right x (t * skip) m
        ∙ ap (λ (y : ℕ). (x * y) % m) e
        ∙ ap (λ (y : ℕ). y % m) (mul-one x)
        ∙ mod-eq_of_lt hx in
      sym (undo j hj)
      ∙ ap (λ (y : ℕ). (y * t) % m) (cancel offset (j * skip) (k * skip) o same)
      ∙ undo k hk

-- Over a prime table size m below 2 ^ 32, with an offset below m and a skip from 1 to m - 1, every
-- slot is met within the first m steps of the permutation.
pub slot_of-covers :
    (m : ℕ)
    → IsPrime m
    → m < 2 ^ 32
    → (offset skip : ℕ) → offset < m
    → 0 < skip
    → skip < m
    → (c : ℕ) → c < m
    → (j : ℕ) × (j < m) × (slot_of m offset skip j ≡ c)
slot_of-covers m prime small offset skip o pos lt c h =
    let (j, below, e) = covers m prime offset skip c o pos lt h in
    (j, below, slot_of_exact m offset skip j (omega arith) small o lt (omega arith) ∙ e)

-- Over a prime table size m below 2 ^ 32, with an offset below m and a skip from 1 to m - 1, no
-- two of the first m steps of the permutation meet the same slot.
pub slot_of-injective :
    (m : ℕ)
    → IsPrime m
    → m < 2 ^ 32
    → (offset skip : ℕ) → offset < m
    → 0 < skip
    → skip < m
    → (j k : ℕ) → j < m
    → k < m
    → slot_of m offset skip j ≡ slot_of m offset skip k
    → j ≡ k
slot_of-injective m prime small offset skip o pos lt j k hj hk same =
    let exact = λ (i : ℕ) (h : i ≤ m). slot_of_exact m offset skip i (omega arith) small o lt h in
    injective m prime offset skip j k o pos lt hj hk
      (sym (exact j (omega arith)) ∙ same ∙ exact k (omega arith))
