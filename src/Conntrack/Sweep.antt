-- ===== src/Conntrack/Sweep.antt =====
-- The round of the reaper of src/conntrack/conntrack.c over the buckets: its cursor goes through all
-- of them in turn, and an idle entry does not outlive its bucket's visit.
use native.Mathlib.Nat.{mod-lt, add-mod_right, mod-eq_of_lt, mod-add-mod}
use l4_maglev_lb.Common.{
  ℕ, zero, suc, ◌+◌, ◌-◌, ◌%◌, ◌≤◌, ◌<◌, ◌≡◌, refl, sym, ap, ◌∙◌, Bool, true, false, min, inl, inr,
  ◌⊎◌, subst, List, [], ◌∷◌, arith, to_nat, length, get_or, set, length-set, Bool-cases,
}
use l4_maglev_lb.Conntrack.Table.{
  Entry, ConntrackTable, Clock, Sweep, is_expired, reap_chain, reap_bucket, reap_loop,
  conntrack_reap_slice,
}
use l4_maglev_lb.Conntrack.Tally.{chain_tally, tally, tally-zero, reap_chain-tally_zero}
use l4_maglev_lb.Conntrack.Stock.{reap_chain-frame}

-- `k` buckets from the cursor `c0` on, of `m`, have been visited and hold no idle entry.
pub record Swept (idle : Entry → Bool) (m c0 k : ℕ) (ct : ConntrackTable) : Type 0 where
  pub size : length ct.buckets ≡ m
  pub count : ct.bucket_count ≡ m
  pub cursor : ct.sweep_cursor ≡ (c0 + k) % m
  pub clean :
      (d : ℕ) → d < k → chain_tally (λ e. to_nat (idle e)) (get_or ct.buckets ((c0 + d) % m) []) ≡ 0

set-clean :
    (w : Entry → ℕ) (bs : List (List Entry)) (i j : ℕ) (kept : List Entry)
    → chain_tally w kept ≡ 0
    → i < length bs
    → (i ≡ j) ⊎ (chain_tally w (get_or bs j []) ≡ 0)
    → chain_tally w (get_or (set bs i kept) j []) ≡ 0
set-clean w [] i j kept z h or = absurd (omega arith)
set-clean w (b ∷ bs) zero zero kept z h or = z
set-clean w (b ∷ bs) zero (suc j) kept z h (inl e) = absurd (omega arith)
set-clean w (b ∷ bs) zero (suc j) kept z h (inr e) = e
set-clean w (b ∷ bs) (suc i) zero kept z h (inl e) = absurd (omega arith)
set-clean w (b ∷ bs) (suc i) zero kept z h (inr e) = e
set-clean w (b ∷ bs) (suc i) (suc j) kept z h (inl e) =
    set-clean w bs i j kept z (omega arith) (inl (omega arith))
set-clean w (b ∷ bs) (suc i) (suc j) kept z h (inr e) =
    set-clean w bs i j kept z (omega arith) (inr e)

split_last : (d k : ℕ) → d < suc k → (d ≡ k) ⊎ (d < k)
split_last d k h = elim (native.Mathlib.Decide.dec_lt d k) [
  | yes below ↦ inr below
  | no last ↦ inl (omega arith)
]

module _ {S : Type 0} (on_evict : ℕ → S → S) (c : Clock) (idle : Entry → Bool)
    (gone : (e : Entry) → idle e ≡ true → is_expired c e ≡ true) (m c0 : ℕ) (some_m : 0 < m) where
  abbrev counts : Entry → ℕ
  counts e = to_nat (idle e)

  clash : (b : Bool) → b ≡ true → b ≡ false → ⊥
  clash b t f = ground (arith, t, f)

  counts-live : (e : Entry) → is_expired c e ≡ false → counts e ≡ 0
  counts-live e live = elim (Bool-cases (idle e)) [
    | inl old ↦ absurd (clash (is_expired c e) (gone e old) live)
    | inr kept ↦ ap to_nat kept
  ]

  bucket-Swept :
      (k : ℕ) (s : Sweep S)
      → Swept idle m c0 k s.table
      → Swept idle m c0 (suc k) (reap_bucket on_evict c s).table
  unfolding reap_bucket
  bucket-Swept k s h =
      let i = s.table.sweep_cursor in
      let es = get_or s.table.buckets i [] in
      let moved : Sweep S = record s {
        table = record s.table { sweep_cursor = (i + 1) % s.table.bucket_count };
      } in
      let kept = (reap_chain on_evict c es moved).0 in
      let frame = reap_chain-frame on_evict c es moved in
      let none_left = reap_chain-tally_zero on_evict c counts es moved counts-live in
      let next : (i + 1) % s.table.bucket_count ≡ (c0 + suc k) % m =
        ap (λ n. (i + 1) % n) h.count ∙ (ap (λ n. (n + 1) % m) h.cursor ∙ step_cursor k) in
      record {
        size =
            ap (λ bs. length (set bs i kept)) frame.0
            ∙ (length-set s.table.buckets i kept ∙ h.size);
        count = frame.1 ∙ h.count;
        cursor = frame.2 ∙ next;
        clean = λ d p.
            ap (λ bs. chain_tally counts (get_or (set bs i kept) ((c0 + d) % m) [])) frame.0
            ∙ set-clean counts s.table.buckets i ((c0 + d) % m) kept none_left
                (omega (arith, h.size, h.cursor, mod-lt (c0 + k) {m = m} some_m))
                (visited d (split_last d k p) (h.cursor) (h.clean d));
      }
    where
      step_cursor : (k : ℕ) → ((c0 + k) % m + 1) % m ≡ (c0 + suc k) % m
      step_cursor k =
          let e : c0 + k + 1 ≡ c0 + suc k = omega arith in
          mod-add-mod (c0 + k) m 1 ∙ ap (λ n. n % m) e

      visited :
          (d : ℕ)
          → (d ≡ k) ⊎ (d < k)
          → s.table.sweep_cursor ≡ (c0 + k) % m
          → (d < k → chain_tally counts (get_or s.table.buckets ((c0 + d) % m) []) ≡ 0)
          → (s.table.sweep_cursor ≡ (c0 + d) % m)
            ⊎ (chain_tally counts (get_or s.table.buckets ((c0 + d) % m) []) ≡ 0)
      visited d (inl e) cur clean = inl (cur ∙ ap (λ n. (c0 + n) % m) (sym e))
      visited d (inr p) cur clean = inr (clean p)

  loop-Swept :
      (n k : ℕ) (s : Sweep S)
      → Swept idle m c0 k s.table
      → Swept idle m c0 (n + k) (reap_loop on_evict c n s).table
  unfolding reap_loop
  loop-Swept zero k s h =
      let e : k ≡ 0 + k = omega arith in subst (λ x. Swept idle m c0 x s.table) e h
  loop-Swept (suc n) k s h =
      let e : n + suc k ≡ suc n + k = omega arith in
      subst (λ x. Swept idle m c0 x (reap_loop on_evict c n (reap_bucket on_evict c s)).table) e
        (loop-Swept n (suc k) (reap_bucket on_evict c s) (bucket-Swept k s h))

  -- A tick visits as many more buckets as it is given, or all of them.
  pub slice-Swept :
      (max_buckets k : ℕ) (ct : ConntrackTable) (ctx : S)
      → Swept idle m c0 k ct
      → Swept idle m c0
          (min max_buckets m + k)
          (conntrack_reap_slice on_evict c ct max_buckets ctx).table
  unfolding conntrack_reap_slice
  slice-Swept max_buckets k ct ctx h =
      subst
        (λ n.
          Swept idle m c0 (min max_buckets n + k)
            (conntrack_reap_slice on_evict c ct max_buckets ctx).table)
        h.count (loop-Swept (min max_buckets ct.bucket_count) k _ h)

-- Before the first visit.
pub unswept :
    (idle : Entry → Bool) (ct : ConntrackTable)
    → length ct.buckets ≡ ct.bucket_count
    → ct.sweep_cursor < ct.bucket_count
    → Swept idle ct.bucket_count ct.sweep_cursor 0 ct
unswept idle ct size inside = record {
  size = size;
  count = refl;
  cursor =
      let e : ct.sweep_cursor ≡ ct.sweep_cursor + 0 = omega arith in
      sym (mod-eq_of_lt inside) ∙ ap (λ n. n % ct.bucket_count) e;
  clean = λ d p. absurd (omega arith);
}

-- After as many visits as there are buckets, no idle entry is left.
pub Swept-all :
    (idle : Entry → Bool) (m c0 k : ℕ) (ct : ConntrackTable)
    → c0 < m
    → m ≤ k
    → Swept idle m c0 k ct
    → tally (λ e. to_nat (idle e)) ct.buckets ≡ 0
Swept-all idle m c0 k ct inside enough h =
    tally-zero (λ e. to_nat (idle e)) ct.buckets
      (λ j p. at j (omega (arith, h.size)) (native.Mathlib.Decide.dec_lt j c0))
  where
    w : Entry → ℕ
    w e = to_nat (idle e)

    at : (j : ℕ) → j < m → Dec (j < c0) → chain_tally w (get_or ct.buckets j []) ≡ 0
    at j p (yes q) =
        let e : c0 + (j + m - c0) ≡ j + m = omega arith in
        ap (λ i. chain_tally w (get_or ct.buckets i []))
          (sym (mod-eq_of_lt p) ∙ (sym (add-mod_right j m) ∙ ap (λ n. n % m) (sym e)))
        ∙ h.clean (j + m - c0) (omega arith)
    at j p (no q) =
        let e : c0 + (j - c0) ≡ j = omega arith in
        ap (λ i. chain_tally w (get_or ct.buckets i []))
          (sym (mod-eq_of_lt p) ∙ ap (λ n. n % m) (sym e))
        ∙ h.clean (j - c0) (omega arith)
