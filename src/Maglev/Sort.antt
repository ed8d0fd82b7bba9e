-- ===== src/Maglev/Sort.antt =====
-- The `qsort` by id of `maglev_table_generate`: it keeps the backends, and its result does not
-- depend on the order in which the caller enumerated them.
use mathlib.Core.List.{Perm, Permᴰ}
use mathlib.Core.Logic.{∥∥₁_elim}
use mathlib.Core.Path.{ap₂}
use native.Mathlib.Nat.{add_left_comm}
use l4_maglev_lb.Common.{
  ℕ, suc, ◌+◌, ◌≤◌, ◌≡◌, refl, ap, ◌∙◌, ◌≢◌, List, [], ◌∷◌, map, arith, ltb, ◌==◌, to_nat, length,
  count, All, inl, inr, Bool-cases,
}
use l4_maglev_lb.Maglev.Table.{BackendView, insert_by_id, sort_by_id}

abbrev pub ids_of : List BackendView → List ℕ
ids_of = map (λ v. v.id)

-- No two backends share an id.
abbrev pub DistinctIds : List BackendView → Type 0
DistinctIds vs = (x : ℕ) → count x (ids_of vs) ≤ 1

module _ (x : ℕ) where
  count-insert :
      (v : BackendView) (ws : List BackendView)
      → count x (ids_of (insert_by_id v ws)) ≡ to_nat (v.id == x) + count x (ids_of ws)
  unfolding insert_by_id
  count-insert v [] = refl
  count-insert v (w ∷ ws) = elim (Bool-cases (ltb w.id v.id)) [
    | inl before ↦ rw before (omega (arith, count-insert v ws))
    | inr after ↦ rw after
  ]

  pub count-sort : (vs : List BackendView) → count x (ids_of (sort_by_id vs)) ≡ count x (ids_of vs)
  unfolding sort_by_id
  count-sort [] = refl
  count-sort (v ∷ vs) = omega (arith, count-insert v (sort_by_id vs), count-sort vs)

  count-perm : {vs ws : List BackendView} → Permᴰ vs ws → count x (ids_of vs) ≡ count x (ids_of ws)
  count-perm Permᴰ.nil = refl
  count-perm (Permᴰ.cons e p) =
      ap₂ (λ (v : BackendView) (k : ℕ). to_nat (v.id == x) + k) e (count-perm p)
  count-perm (Permᴰ.swap {a = a} {b = b} {a' = a'} {b' = b'} {l = l} e f) =
      let rest = count x (ids_of l) in
      ap₂ (λ (v w : BackendView). to_nat (v.id == x) + (to_nat (w.id == x) + rest)) e f
      ∙ add_left_comm (to_nat (b'.id == x)) (to_nat (a'.id == x)) rest
  count-perm (Permᴰ.trans p q) = count-perm p ∙ count-perm q

length-insert :
    (v : BackendView) (ws : List BackendView) → length (insert_by_id v ws) ≡ suc (length ws)
unfolding insert_by_id
length-insert v [] = refl
length-insert v (w ∷ ws) = ground (arith, length-insert v ws)

pub length-sort : (vs : List BackendView) → length (sort_by_id vs) ≡ length vs
unfolding sort_by_id
length-sort [] = refl
length-sort (v ∷ vs) = length-insert v (sort_by_id vs) ∙ ap suc (length-sort vs)

All-insert {ℓ} :
    (P : BackendView → Type ℓ) (v : BackendView) (ws : List BackendView)
    → P v
    → All P ws
    → All P (insert_by_id v ws)
unfolding insert_by_id
All-insert P v [] p h = (p, tt)
All-insert P v (w ∷ ws) p h = elim (Bool-cases (ltb w.id v.id)) [
  | inl before ↦ rw before (h.0, All-insert P v ws p h.1)
  | inr after ↦ rw after (p, h)
]

pub All-sort {ℓ} :
    (P : BackendView → Type ℓ) (vs : List BackendView) → All P vs → All P (sort_by_id vs)
unfolding sort_by_id
All-sort P [] h = tt
All-sort P (v ∷ vs) h = All-insert P v (sort_by_id vs) h.0 (All-sort P vs h.1)

insert-insert :
    (a b : BackendView) (ws : List BackendView)
    → a.id ≢ b.id
    → insert_by_id a (insert_by_id b ws) ≡ insert_by_id b (insert_by_id a ws)
unfolding insert_by_id
insert-insert a b [] apart = ground arith
insert-insert a b (w ∷ ws) apart = ground (arith, insert-insert a b ws)

DistinctIds-tail : (v : BackendView) (vs : List BackendView) → DistinctIds (v ∷ vs) → DistinctIds vs
DistinctIds-tail v vs d x = omega (arith, d x)

pub DistinctIds-perm : {vs ws : List BackendView} → Permᴰ vs ws → DistinctIds vs → DistinctIds ws
DistinctIds-perm p d x = omega (arith, d x, count-perm x p)

pub sort-permᴰ :
    {vs ws : List BackendView} → Permᴰ vs ws → DistinctIds vs → sort_by_id vs ≡ sort_by_id ws
unfolding sort_by_id
sort-permᴰ Permᴰ.nil d = refl
sort-permᴰ (Permᴰ.cons e p) d = ap₂ insert_by_id e (sort-permᴰ p (λ x. omega (arith, d x)))
sort-permᴰ (Permᴰ.swap {a = a} {b = b} {a' = a'} {b' = b'} {l = l} e f) d =
    insert-insert a b (sort_by_id l) (λ same. ground (arith, d a.id))
    ∙ ap₂ (λ (v w : BackendView). insert_by_id v (insert_by_id w (sort_by_id l))) f e
sort-permᴰ (Permᴰ.trans p q) d = sort-permᴰ p d ∙ sort-permᴰ q (DistinctIds-perm p d)

BackendView-set : IsSet (List BackendView)
BackendView-set = hlevel

-- The sorted list is one for each set of backends.
pub sort-perm :
    {vs ws : List BackendView} → Perm vs ws → DistinctIds vs → sort_by_id vs ≡ sort_by_id ws
sort-perm p d = ∥∥₁_elim p (BackendView-set _ _) (λ q. sort-permᴰ q d)
