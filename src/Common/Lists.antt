-- ===== src/Common/Lists.antt =====
-- Lists measured and indexed by native numbers, under the library's names.
use Prim.Native.Nat.{ℕ, zero, suc, ◌+◌, ◌-◌, ◌<◌, ◌≤◌, min}
use mathlib.Core.Path.{◌≡◌, refl, ap}
use mathlib.Core.Logic.{◌≢◌}
use mathlib.Core.Bool.{Bool}
use mathlib.Core.List.{List, [], ◌∷◌, ◌++◌, map}
use mathlib.Core.Option.{Option, none, some}
use native.Mathlib.Omega.{arith}
use l4_maglev_lb.Common.Tests.{to_nat, ◌==◌, if◌then◌else◌}

module _ {ℓ} {A : Type ℓ} where
  abbrev pub length : List A → ℕ
  length [] = 0
  length (x ∷ xs) = suc (length xs)

  abbrev pub get_or : List A → ℕ → A → A
  get_or [] i d = d
  get_or (x ∷ xs) zero d = x
  get_or (x ∷ xs) (suc i) d = get_or xs i d

  -- A write out of bounds changes nothing.
  abbrev pub set : List A → ℕ → A → List A
  set [] i v = []
  set (x ∷ xs) zero v = v ∷ xs
  set (x ∷ xs) (suc i) v = x ∷ set xs i v

  abbrev pub take : ℕ → List A → List A
  take zero xs = []
  take (suc n) [] = []
  take (suc n) (x ∷ xs) = x ∷ take n xs

  abbrev pub drop : ℕ → List A → List A
  drop zero xs = xs
  drop (suc n) [] = []
  drop (suc n) (x ∷ xs) = drop n xs

  abbrev pub replicate : ℕ → A → List A
  replicate zero a = []
  replicate (suc n) a = a ∷ replicate n a

  -- The elements that pass a test, in order.
  abbrev pub select : (A → Bool) → List A → List A
  select p [] = []
  select p (x ∷ xs) = if p x then x ∷ select p xs else select p xs

  abbrev pub find? : (A → Bool) → List A → Option A
  find? p [] = none
  find? p (x ∷ xs) = if p x then some x else find? p xs

  -- A property of every element, as a tuple that the tactics read and build.
  abbrev pub All {κ} : (A → Type κ) → List A → Type κ
  All P [] = Unit
  All P (x ∷ xs) = P x × All P xs

module _ {ℓ} {A : Type ℓ} where
  pub length-append : (xs ys : List A) → length (xs ++ ys) ≡ length xs + length ys
  length-append [] ys = omega arith
  length-append (x ∷ xs) ys = omega (arith, length-append xs ys)

  pub length-set : (xs : List A) (i : ℕ) (v : A) → length (set xs i v) ≡ length xs
  length-set [] i v = refl
  length-set (x ∷ xs) zero v = refl
  length-set (x ∷ xs) (suc i) v = ap suc (length-set xs i v)

  pub length-replicate : (n : ℕ) (a : A) → length (replicate n a) ≡ n
  length-replicate zero a = refl
  length-replicate (suc n) a = ap suc (length-replicate n a)

  pub length-drop : (n : ℕ) (xs : List A) → length (drop n xs) ≡ length xs - n
  length-drop zero xs = omega arith
  length-drop (suc n) [] = omega arith
  length-drop (suc n) (x ∷ xs) = omega (arith, length-drop n xs)

  pub length-take : (n : ℕ) (xs : List A) → length (take n xs) ≡ min n (length xs)
  length-take zero xs = omega arith
  length-take (suc n) [] = omega arith
  length-take (suc n) (x ∷ xs) = omega (arith, length-take n xs)

  pub get_or-set_self :
      (xs : List A) (i : ℕ) (v d : A) → i < length xs → get_or (set xs i v) i d ≡ v
  get_or-set_self [] i v d h = absurd (omega arith)
  get_or-set_self (x ∷ xs) zero v d h = refl
  get_or-set_self (x ∷ xs) (suc i) v d h = get_or-set_self xs i v d (omega arith)

  pub get_or-set_ne :
      (xs : List A) (i j : ℕ) (v d : A) → i ≢ j → get_or (set xs i v) j d ≡ get_or xs j d
  get_or-set_ne [] i j v d h = refl
  get_or-set_ne (x ∷ xs) zero zero v d h = absurd (h refl)
  get_or-set_ne (x ∷ xs) zero (suc j) v d h = refl
  get_or-set_ne (x ∷ xs) (suc i) zero v d h = refl
  get_or-set_ne (x ∷ xs) (suc i) (suc j) v d h = get_or-set_ne xs i j v d (λ e. h (ap suc e))

  pub get_or-set_eq :
      (xs : List A) (i j : ℕ) (v d : A) → i ≡ j → i < length xs → get_or (set xs i v) j d ≡ v
  get_or-set_eq xs i j v d e h = rw (← e) (get_or-set_self xs i v d h)

  pub get_or-replicate : (n : ℕ) (a : A) (i : ℕ) → get_or (replicate n a) i a ≡ a
  get_or-replicate zero a i = refl
  get_or-replicate (suc n) a zero = refl
  get_or-replicate (suc n) a (suc i) = get_or-replicate n a i

  -- Every element of a list is met at some index.
  pub get_or-All {κ} :
      (P : A → Type κ) (xs : List A) (d : A)
      → ((i : ℕ) → i < length xs → P (get_or xs i d))
      → All P xs
  get_or-All P [] d h = tt
  get_or-All P (x ∷ xs) d h =
      (h 0 (omega arith), get_or-All P xs d (λ i p. h (suc i) (omega arith)))

  pub All-get {κ} :
      (P : A → Type κ) (xs : List A) (d : A) (i : ℕ) → All P xs → i < length xs → P (get_or xs i d)
  All-get P [] d i h p = absurd (omega arith)
  All-get P (x ∷ xs) d zero h p = h.0
  All-get P (x ∷ xs) d (suc i) h p = All-get P xs d i h.1 (omega arith)

  pub All-map {κ μ} :
      (P : A → Type κ) (Q : A → Type μ) (xs : List A) → ((x : A) → P x → Q x) → All P xs → All Q xs
  All-map P Q [] f h = tt
  All-map P Q (x ∷ xs) f h = (f x h.0, All-map P Q xs f h.1)

  pub length-map {κ} : {B : Type κ} (f : A → B) (xs : List A) → length (map f xs) ≡ length xs
  length-map f [] = refl
  length-map f (x ∷ xs) = ap suc (length-map f xs)

  pub get_or-map {κ} :
      {B : Type κ} (f : A → B) (xs : List A) (i : ℕ) (d : A) (d' : B)
      → i < length xs
      → get_or (map f xs) i d' ≡ f (get_or xs i d)
  get_or-map f [] i d d' h = absurd (omega arith)
  get_or-map f (x ∷ xs) zero d d' h = refl
  get_or-map f (x ∷ xs) (suc i) d d' h = get_or-map f xs i d d' (omega arith)

  pub length-select-le : (p : A → Bool) (xs : List A) → length (select p xs) ≤ length xs
  length-select-le p [] = omega arith
  length-select-le p (x ∷ xs) = ground (arith, length-select-le p xs)

-- How often a number stands in a list.
abbrev pub count : ℕ → List ℕ → ℕ
count v [] = 0
count v (x ∷ xs) = to_nat (x == v) + count v xs

pub count-set :
    (v : ℕ) (xs : List ℕ) (i w d : ℕ)
    → i < length xs
    → count v (set xs i w) + to_nat (get_or xs i d == v) ≡ count v xs + to_nat (w == v)
count-set v [] i w d h = absurd (omega arith)
count-set v (x ∷ xs) zero w d h = ground arith
count-set v (x ∷ xs) (suc i) w d h = omega (arith, count-set v xs i w d (omega arith))

pub count-replicate : (v n : ℕ) → count v (replicate n v) ≡ n
count-replicate v zero = refl
count-replicate v (suc n) = ground (arith, count-replicate v n)

pub count-replicate_ne : (v w n : ℕ) → v ≢ w → count w (replicate n v) ≡ 0
count-replicate_ne v w zero h = refl
count-replicate_ne v w (suc n) h = ground (arith, count-replicate_ne v w n)

pub count-le-length : (v : ℕ) (xs : List ℕ) → count v xs ≤ length xs
count-le-length v [] = omega arith
count-le-length v (x ∷ xs) = ground (arith, count-le-length v xs)

-- A number that is counted stands at some index.
pub count_index :
    (v : ℕ) (xs : List ℕ) (d : ℕ) → 0 < count v xs → (i : ℕ) × (i < length xs) × (get_or xs i d ≡ v)
count_index v [] d h = absurd (omega arith)
count_index v (x ∷ xs) d h = elim (compare_eq x v) [
  | yes e ↦ (0, omega arith, e)
  | no n ↦ let (i, p, q) = count_index v xs d (ground arith) in (suc i, omega arith, q)
]
  where
    compare_eq : (a b : ℕ) → Dec (a ≡ b)
    compare_eq a b = native.Mathlib.Decide.ℕ_discrete a b

-- A number that is not counted stands nowhere.
pub count_nowhere :
    (v : ℕ) (xs : List ℕ) (i d : ℕ) → count v xs ≡ 0 → i < length xs → get_or xs i d ≢ v
count_nowhere v [] i d h p = absurd (omega arith)
count_nowhere v (x ∷ xs) zero d h p = ground arith
count_nowhere v (x ∷ xs) (suc i) d h p = count_nowhere v xs i d (ground arith) (omega arith)

pub count_pos : (v : ℕ) (xs : List ℕ) (i d : ℕ) → i < length xs → get_or xs i d ≡ v → 0 < count v xs
count_pos v [] i d h e = absurd (omega arith)
count_pos v (x ∷ xs) zero d h e = ground arith
count_pos v (x ∷ xs) (suc i) d h e = omega (arith, count_pos v xs i d (omega arith) e)

-- A number that is counted once stands at one index only.
pub count_unique :
    (v : ℕ) (xs : List ℕ) (i j d : ℕ)
    → count v xs ≤ 1
    → i < length xs
    → j < length xs
    → get_or xs i d ≡ v
    → get_or xs j d ≡ v
    → i ≡ j
count_unique v [] i j d once hi hj e f = absurd (omega arith)
count_unique v (x ∷ xs) zero zero d once hi hj e f = refl
count_unique v (x ∷ xs) zero (suc j) d once hi hj e f = absurd (ground (arith, count_pos v xs j d))
count_unique v (x ∷ xs) (suc i) zero d once hi hj e f = absurd (ground (arith, count_pos v xs i d))
count_unique v (x ∷ xs) (suc i) (suc j) d once hi hj e f =
    ap suc (count_unique v xs i j d (omega arith) (omega arith) (omega arith) e f)
