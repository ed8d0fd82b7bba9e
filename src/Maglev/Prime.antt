-- ===== src/Maglev/Prime.antt =====
-- `maglev_is_prime` of src/maglev/maglev_table.c: trial division by 2 and by the odd numbers up
-- to the square root.
use native.Mathlib.Nat.{
  dvd_of_mod-eq-zero, mod-eq-zero_of_dvd, dvd_trans, mul-le-mul, div-add-mod, mul-mod_left,
}
use native.Mathlib.Decide.{ℕ_discrete}
use l4_maglev_lb.Common.{
  ℕ, zero, suc, ◌+◌, ◌*◌, ◌/◌, ◌%◌, ◌^◌, ◌≤◌, ◌<◌, ◌≡◌, refl, sym, ap, ◌∙◌, ◌≢◌, ◌↔◌, inl, inr,
  Bool, true, false, arith, leb, ltb, ◌==◌, if◌then◌else◌, u32, Bool-cases,
}

-- The loop over `d`. `d * d` is computed in 64 bits from a 32-bit `d`, so it does not wrap; the
-- increment of `d` is taken modulo 2 ^ 32.
prime_loop : ℕ → ℕ → ℕ → Bool
prime_loop zero d n = true
prime_loop (suc fuel) d n =
    let rest = prime_loop fuel (u32 (d + 2)) n in
    if leb (d * d) n then (if n % d == 0 then false else rest) else true

unfoldable pub maglev_is_prime : ℕ → Bool
unfolding prime_loop
maglev_is_prime n = if ltb n 2 then false else if n % 2 == 0 then n == 2 else prime_loop n 3 n

-- The arithmetic notion: at least 2, and no divisor strictly between 1 and `n`.
pub record IsPrime (n : ℕ) : Type 0 where
  pub two-le : 2 ≤ n
  pub no_divisor : (e : ℕ) → 2 ≤ e → e < n → n % e ≢ 0

square_small : (d n : ℕ) → d * d ≤ n → n < 2 ^ 32 → d < 2 ^ 16
square_small d n h b = elim (native.Mathlib.Decide.dec_lt d (2 ^ 16)) [
  | yes p ↦ p
  | no p ↦ absurd (
      omega (
        arith,
        mul-le-mul {n₁ = 2 ^ 16} {m₁ = 2 ^ 16} {n₂ = d} {m₂ = d} (omega arith) (omega arith),
      ))
]

prime_loop_complete : (fuel d n : ℕ) → 2 ≤ d → n < 2 ^ 32 → IsPrime n → prime_loop fuel d n ≡ true
unfolding prime_loop
prime_loop_complete zero d n lo b p = refl
prime_loop_complete (suc fuel) d n lo b p = elim (Bool-cases (leb (d * d) n)) [
  | inr stop ↦ rw stop
  | inl go ↦
      let fits : d * d ≤ n = ground arith in
      let small = square_small d n fits b in
      let below : d < n = grind arith in
      let wraps : u32 (d + 2) ≡ d + 2 = omega arith in
      rw (go, wraps)
        (ground
          (arith, p.no_divisor d lo below, prime_loop_complete fuel (d + 2) n (omega arith) b p))
]

-- A divisor from the square root on has a cofactor below it.
cofactor :
    (d n e : ℕ) → ((k : ℕ) → 2 ≤ k → k < d → n % k ≢ 0) → n < d * d → 2 ≤ e → e < n → n % e ≢ 0
cofactor d n e none_below square lo hi divides =
    let k = n / e in
    let split : e * k ≡ n = omega (arith, div-add-mod n e) in
    let k_pos : 2 ≤ k = grind arith in
    elim (native.Mathlib.Decide.dec_lt k d) [
      | yes small ↦ none_below k k_pos small (ap (λ (t : ℕ). t % k) (sym split) ∙ mul-mod_left e k)
      | no large ↦ elim (native.Mathlib.Decide.dec_lt e d) [
        | yes small ↦ none_below e lo small divides
        | no larger ↦
            omega
              (arith, mul-le-mul {n₁ = d} {m₁ = d} {n₂ = e} {m₂ = k} (omega arith) (omega arith))
      ]
    ]

even_divisor : (e n : ℕ) → e % 2 ≡ 0 → n % e ≡ 0 → n % 2 ≡ 0
even_divisor e n h k =
    mod-eq-zero_of_dvd 2 (dvd_trans 2 (dvd_of_mod-eq-zero 2 h) (dvd_of_mod-eq-zero e k))

maglev_is_prime_complete : (n : ℕ) → n < 2 ^ 32 → IsPrime n → maglev_is_prime n ≡ true
unfolding maglev_is_prime
maglev_is_prime_complete n b p =
    ground (arith, p.no_divisor 2 (omega arith), prime_loop_complete n 3 n (omega arith) b p)

-- Two more candidates are ruled out.
extend :
    (d n : ℕ)
    → ((k : ℕ) → 2 ≤ k → k < d → n % k ≢ 0)
    → n % d ≢ 0
    → n % (d + 1) ≢ 0
    → (k : ℕ) → 2 ≤ k
    → k < d + 2
    → n % k ≢ 0
extend d n below here next k p q z = grind (arith, below k p)

prime_loop_sound :
    (fuel d n : ℕ)
    → n < fuel + d
    → n < 2 ^ 32
    → 3 ≤ d
    → d % 2 ≡ 1
    → n % 2 ≡ 1
    → ((k : ℕ) → 2 ≤ k → k < d → n % k ≢ 0)
    → prime_loop fuel d n ≡ true
    → (e : ℕ) → 2 ≤ e
    → e < n
    → n % e ≢ 0
unfolding prime_loop
prime_loop_sound zero d n enough b lo odd n_odd below run = λ e h k. below e h (omega arith)
prime_loop_sound (suc fuel) d n enough b lo odd n_odd below run =
    elim (Bool-cases (leb (d * d) n)) [
      | inr stop ↦ λ e. cofactor d n e below (ground arith)
      | inl go ↦
          let small = square_small d n (ground arith) b in
          let wraps : u32 (d + 2) ≡ d + 2 = omega arith in
          let here : n % d ≢ 0 = ground arith in
          let rest : prime_loop fuel (d + 2) n ≡ true = rw (← wraps) (ground arith) in
          let even : n % (d + 1) ≢ 0 = λ z. omega (arith, even_divisor (d + 1) n (omega arith) z) in
          prime_loop_sound fuel (d + 2) n (omega arith) b (omega arith) (omega arith) n_odd
            (extend d n below here even) rest
    ]

only_two : (n : ℕ) → n % 2 ≢ 0 → (k : ℕ) → 2 ≤ k → k < 3 → n % k ≢ 0
only_two n odd k p q = let two : k ≡ 2 = omega arith in rw two odd

maglev_is_prime_sound : (n : ℕ) → n < 2 ^ 32 → maglev_is_prime n ≡ true → IsPrime n
unfolding maglev_is_prime
maglev_is_prime_sound n b run = elim (Bool-cases (ltb n 2)) [
  | inl small ↦ cc
  | inr big ↦ elim (Bool-cases (n % 2 == 0)) [
    | inl even ↦ record { two-le = ground arith; no_divisor = λ e p q. absurd (ground arith) }
    | inr odd ↦ record {
      two-le = ground arith;
      no_divisor =
          prime_loop_sound n 3 n (omega arith) b (omega arith) refl (ground arith)
            (only_two n (ground arith)) (ground arith);
    }
  ]
]

-- `maglev_is_prime` decides primality for every 32-bit number.
pub maglev_is_prime-IsPrime : (n : ℕ) → n < 2 ^ 32 → (maglev_is_prime n ≡ true) ↔ IsPrime n
maglev_is_prime-IsPrime n b = (maglev_is_prime_sound n b, maglev_is_prime_complete n b)
