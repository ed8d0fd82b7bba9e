-- ===== src/Tools/Slots.antt =====
-- The counts of `compute_remap` of tools/maglev_remap_report.c.
use l4_maglev_lb.Common.{
  ℕ, zero, suc, ◌+◌, ◌%◌, ◌^◌, ◌≤◌, ◌<◌, ◌≡◌, refl, ap, ◌∙◌, subst, Bool, true, false, List, [],
  ◌∷◌, inl, inr, arith, length, ltb, lt→ltb, ◌==◌, ==_refl, get_or, count, u32, Bool-cases,
}
use l4_maglev_lb.Maglev.Prime.{IsPrime}
use l4_maglev_lb.Maglev.Table.{
  BackendView, MaglevTable, Alloc, Given, ok, vacant, maglev_table_generate,
}
use l4_maglev_lb.Maglev.Sort.{ids_of}
use l4_maglev_lb.Maglev.Start.{ProperIds}
use l4_maglev_lb.Maglev.Generate.{maglev_table_generate-IsFull}
use l4_maglev_lb.Tools.Remap.{
  backends_from, make_backends, RemapResult, no_slots, to_size, bump_if, count_slot, count_slots,
  Memory, compute_remap,
}

-- The counts of unchanged slots are among the slots considered, of which there are at most `bound`.
pub record InBounds (bound : ℕ) (r : RemapResult) : Type 0 where
  pub considered_le : r.considered ≤ bound
  pub maglev_le : r.maglev_unchanged ≤ r.considered
  pub naive_le : r.naive_unchanged ≤ r.considered

module _ (t_before t_after : MaglevTable) (n_before n_after : ℕ) where
  abbrev slot_at : ℕ → RemapResult → RemapResult
  slot_at = count_slot t_before t_after n_before n_after

  abbrev slots_at : ℕ → ℕ → RemapResult → RemapResult
  slots_at = count_slots t_before t_after n_before n_after

  bump_if-le : (b : Bool) (x y : ℕ) → x ≤ y → bump_if b x ≤ y + 1
  bump_if-le true x y h = omega arith
  bump_if-le false x y h = omega arith

  slot-InBounds :
      (i bound : ℕ) (out : RemapResult) → InBounds bound out → InBounds (bound + 1) (slot_at i out)
  slot-InBounds i bound out h =
      elim (Bool-cases (ltb (to_size (get_or t_before.lookup i vacant)) n_after)) [
        | inl kept ↦ rw kept (record {
          considered_le = omega (arith, h.considered_le);
          maglev_le = bump_if-le _ out.maglev_unchanged out.considered h.maglev_le;
          naive_le = bump_if-le _ out.naive_unchanged out.considered h.naive_le;
        })
        | inr gone ↦ rw gone (record {
          considered_le = omega (arith, h.considered_le);
          maglev_le = h.maglev_le;
          naive_le = h.naive_le;
        })
      ]

  pub slots-InBounds :
      (k i bound : ℕ) (out : RemapResult)
      → InBounds bound out
      → InBounds (bound + k) (slots_at i k out)
  slots-InBounds zero i bound out h = subst (λ b. InBounds b out) (omega arith) h
  slots-InBounds (suc k) i bound out h =
      let e : bound + 1 + k ≡ bound + suc k = omega arith in
      subst (λ b. InBounds b (slots_at (i + 1) k (slot_at i out))) e
        (slots-InBounds k (i + 1) (bound + 1) (slot_at i out) (slot-InBounds i bound out h))

  -- Where no slot's backend is gone, all are considered.
  slots-considered :
      (k i : ℕ) (out : RemapResult)
      → ((j : ℕ) → j < i + k → to_size (get_or t_before.lookup j vacant) < n_after)
      → (slots_at i k out).considered ≡ out.considered + k
  slots-considered zero i out h = omega arith
  slots-considered (suc k) i out h =
      let here = lt→ltb _ n_after (h i (omega arith)) in
      let one : (slot_at i out).considered ≡ out.considered + 1 = rw here refl in
      omega (arith, one, slots-considered k (i + 1) (slot_at i out) (λ j p. h j (omega arith)))

-- The same table and the same number of backends change nothing.
abbrev AllUnchanged : RemapResult → Type 0
AllUnchanged r = (r.maglev_unchanged ≡ r.considered) × (r.naive_unchanged ≡ r.considered)

bump_if-true : (b : Bool) (x : ℕ) → b ≡ true → bump_if b x ≡ x + 1
bump_if-true b x e = rw e refl

slot-AllUnchanged :
    (t : MaglevTable) (n i : ℕ) (out : RemapResult)
    → AllUnchanged out
    → AllUnchanged (count_slot t t n n i out)
slot-AllUnchanged t n i out (maglev, naive) =
    elim (Bool-cases (ltb (to_size (get_or t.lookup i vacant)) n)) [
      | inl kept ↦ rw kept (
        bump_if-true _ out.maglev_unchanged (==_refl (get_or t.lookup i vacant))
            ∙ ap (λ x. x + 1) maglev,
        bump_if-true _ out.naive_unchanged (==_refl (u32 (i % n))) ∙ ap (λ x. x + 1) naive,
      )
      | inr gone ↦ rw gone (maglev, naive)
    ]

slots-AllUnchanged :
    (t : MaglevTable) (n k i : ℕ) (out : RemapResult)
    → AllUnchanged out
    → AllUnchanged (count_slots t t n n i k out)
slots-AllUnchanged t n zero i out h = h
slots-AllUnchanged t n (suc k) i out h =
    slots-AllUnchanged t n k (i + 1) (count_slot t t n n i out) (slot-AllUnchanged t n i out h)

-- The ids of the synthesized backends.
ids-in_range : (n i x : ℕ) → i + n ≤ 2 ^ 31 → 0 < count x (ids_of (backends_from i n)) → x < i + n
ids-in_range zero i x fits h = absurd (omega (arith, h))
ids-in_range (suc n) i x fits h = elim (Bool-cases (u32 i == x)) [
  | inl here ↦ ground (arith, here)
  | inr later ↦
      let rest : 0 < count x (ids_of (backends_from (i + 1) n)) = ground (arith, h, later) in
      omega (arith, ids-in_range n (i + 1) x (omega arith) rest)
]

backends_from-ProperIds : (n i : ℕ) → i + n ≤ 2 ^ 31 → ProperIds (backends_from i n)
backends_from-ProperIds zero i fits = tt
backends_from-ProperIds (suc n) i fits =
    (omega arith, backends_from-ProperIds n (i + 1) (omega arith))

length-backends_from : (n i : ℕ) → length (backends_from i n) ≡ n
length-backends_from zero i = refl
length-backends_from (suc n) i = ap suc (length-backends_from n (i + 1))

to_size-small : (x n : ℕ) → x < n → n ≤ 2 ^ 31 → to_size x < n
to_size-small x n p fits = ground arith

-- The memory that the two tables ask for is given.
pub record GivenMemory (mem : Memory) : Type 0 where
  pub before : mem.before ≡ true
  pub after : mem.after ≡ true
  pub table_before : Given mem.table_before
  pub table_after : Given mem.table_after

same_table :
    (xxh64 : List ℕ → ℕ → ℕ) (a b : Alloc) (vs : List BackendView) (m : ℕ)
    → Given a
    → Given b
    → maglev_table_generate xxh64 a vs m ≡ maglev_table_generate xxh64 b vs m
unfolding maglev_table_generate
same_table xxh64 a b [] m (at, al, ac) (bt, bl, bc) = rw (at, al, bt, bl) refl
same_table xxh64 a b (v ∷ vs) m (at, al, ac) (bt, bl, bc) = rw (at, al, ac, bt, bl, bc) refl

module _ (xxh64 : List ℕ → ℕ → ℕ) (m : ℕ) (prime : IsPrime m) (small : m < 2 ^ 32) (mem : Memory)
    (given : GivenMemory mem) where
  numbered :
      (alloc : Alloc) (n : ℕ)
      → Given alloc
      → 0 < n
      → n ≤ 2 ^ 31
      → (t : MaglevTable) × (maglev_table_generate xxh64 alloc (backends_from 0 n) m ≡ ok t)
        × ((c : ℕ) → c < m → get_or t.lookup c vacant < n)
  numbered alloc n g some_n few =
      let (t, run, full) =
        maglev_table_generate-IsFull xxh64 m prime small alloc (backends_from 0 n) g
          (omega (arith, length-backends_from n 0)) (backends_from-ProperIds n 0 (omega arith)) in
      (
        t,
        run,
        λ c p.
            omega (
              arith,
              ids-in_range n 0 (get_or t.lookup c vacant) (omega arith) (full.assigned c p),
            ),
      )

  -- With a prime table size below 2^32 and the memory given, a report on the same set of 1 to 2^31
  -- backends twice considers every slot and counts every one as unchanged.
  pub compute_remap-same :
      (n : ℕ)
      → 0 < n
      → n ≤ 2 ^ 31
      → compute_remap xxh64 mem m n n
        ≡ ok (record { considered = m; maglev_unchanged = m; naive_unchanged = m })
  unfolding compute_remap make_backends
  compute_remap-same n some_n few =
      let (t, run, ids) = numbered mem.table_before n given.table_before some_n few in
      let run' =
        same_table xxh64 mem.table_after mem.table_before (backends_from 0 n) m given.table_after
          given.table_before
        ∙ run in
      let all = slots-AllUnchanged t n m 0 no_slots (refl, refl) in
      let considered = slots-considered t t n n m 0 no_slots (λ j p.
        to_size-small (get_or t.lookup j vacant) n (omega (arith, ids j (omega arith))) few) in
      rw (given.before, given.after, run, run')
        (ap ok (total (count_slots t t n n 0 m no_slots) considered all.0 all.1))
    where
      total :
          (r : RemapResult)
          → r.considered ≡ 0 + m
          → r.maglev_unchanged ≡ r.considered
          → r.naive_unchanged ≡ r.considered
          → r ≡ record { considered = m; maglev_unchanged = m; naive_unchanged = m }
      total r c a b =
          let c' : r.considered ≡ m = omega (arith, c) in
          λ i. record {
            considered = c' i;
            maglev_unchanged = (a ∙ c') i;
            naive_unchanged = (b ∙ c') i;
          }

  -- With a prime table size below 2^32, the memory given and at least one backend before, growing
  -- the set (to at most 2^31) makes the report consider every slot, and the slots that it counts as
  -- unchanged are among them.
  pub compute_remap-grows :
      (n_before n_after : ℕ)
      → 0 < n_before
      → n_before ≤ n_after
      → n_after ≤ 2 ^ 31
      → (r : RemapResult) × (compute_remap xxh64 mem m n_before n_after ≡ ok r)
        × InBounds m r
        × (r.considered ≡ m)
  unfolding compute_remap make_backends
  compute_remap-grows n_before n_after some_n more few =
      let (before, run, ids) =
        numbered mem.table_before n_before given.table_before some_n (omega arith) in
      let (after, run', ids') =
        numbered mem.table_after n_after given.table_after (omega arith) few in
      let r = count_slots before after n_before n_after 0 m no_slots in
      let zero_plus : 0 + m ≡ m = omega arith in
      (
        r,
        rw (given.before, given.after, run, run') refl,
        subst (λ b. InBounds b r) zero_plus
            (slots-InBounds before after n_before n_after m 0 0 no_slots (record {
              considered_le = omega arith;
              maglev_le = omega arith;
              naive_le = omega arith;
            })),
        slots-considered before after n_before n_after m 0 no_slots (λ j p.
              to_size-small (get_or before.lookup j vacant) n_after
                (omega (arith, ids j (omega arith))) few)
            ∙ zero_plus,
      )
