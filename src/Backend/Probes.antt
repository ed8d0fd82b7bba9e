-- ===== src/Backend/Probes.antt =====
-- The thresholds of src/backend/health_checker.c over several rounds.
use l4_maglev_lb.Common.{
  ℕ, zero, suc, ◌+◌, ◌<◌, ◌≤◌, ◌≡◌, refl, ap, sym, ◌∙◌, subst, Bool, true, false, ◌&&◌, Option,
  none, some, List, [], ◌∷◌, arith, ltb, leb, ◌==◌, if◌then◌else◌, length, get_or, set, replicate,
  inl, inr, Bool-cases, get_or-set_self,
}
use l4_maglev_lb.Stats.{LbStats}
use l4_maglev_lb.Backend.Manager.{backend_manager_set_health}
use l4_maglev_lb.Backend.Health.{
  first_free, ProbeState, zero_state, HealthChecker, scan, found_or_free, find_or_create_state,
  record_at, record_in, record_result, record_results, on_fail, count_failure,
}

abbrev pub matches : ℕ → ProbeState → Bool
matches id s = s.in_use && s.backend_id == id

-- The id has the entry `i`, the first one of its.
abbrev pub IsTracked : List ProbeState → ℕ → ℕ → Type 0
IsTracked states id i = (scan id states 0 none).0 ≡ some i

scan_next :
    (id : ℕ) (s : ProbeState) (ss : List ProbeState) (k : ℕ) (free_slot : Option ℕ)
    → matches id s ≡ false
    → scan id (s ∷ ss) k free_slot ≡ scan id ss (k + 1) (first_free s k free_slot)
unfolding scan
scan_next id s ss k free_slot h =
    ap (λ b. if b then (some k, free_slot) else scan id ss (k + 1) (first_free s k free_slot)) h

scan_here :
    (id : ℕ) (s : ProbeState) (ss : List ProbeState) (k : ℕ) (free_slot : Option ℕ)
    → matches id s ≡ true
    → scan id (s ∷ ss) k free_slot ≡ (some k, free_slot)
unfolding scan
scan_here id s ss k free_slot h =
    ap (λ b. if b then (some k, free_slot) else scan id ss (k + 1) (first_free s k free_slot)) h

some_eq : (a b : ℕ) → some a ≡ some b → a ≡ b
some_eq a b h = ground arith

scan-le :
    (id : ℕ) (ss : List ProbeState) (k j : ℕ) (free_slot : Option ℕ)
    → (scan id ss k free_slot).0 ≡ some j
    → k ≤ j
unfolding scan
scan-le id [] k j free_slot h = absurd (ground arith)
scan-le id (s ∷ ss) k j free_slot h = elim (Bool-cases (matches id s)) [
  | inl here ↦
      omega (arith, some_eq k j (sym (ap (λ r. r.0) (scan_here id s ss k free_slot here)) ∙ h))
  | inr there ↦ omega (
    arith,
    scan-le id ss (k + 1) j (first_free s k free_slot)
        (sym (ap (λ r. r.0) (scan_next id s ss k free_slot there)) ∙ h),
  )
]

-- Where the search goes past the first entry, it finds the same in the rest.
scan_tail :
    (id : ℕ) (s : ProbeState) (ss : List ProbeState) (k i : ℕ) (free_slot : Option ℕ)
    → (scan id (s ∷ ss) k free_slot).0 ≡ some (k + suc i)
    → (matches id s ≡ false)
      × ((scan id ss (k + 1) (first_free s k free_slot)).0 ≡ some (k + 1 + i))
scan_tail id s ss k i free_slot h = elim (Bool-cases (matches id s)) [
  | inl here ↦ absurd (
      omega (
        arith,
        some_eq k (k + suc i) (sym (ap (λ r. r.0) (scan_here id s ss k free_slot here)) ∙ h),
      ))
  | inr there ↦
      let e : k + suc i ≡ k + 1 + i = omega arith in
      (there, sym (ap (λ r. r.0) (scan_next id s ss k free_slot there)) ∙ (h ∙ ap some e))
]

scan_head :
    (id : ℕ) (s : ProbeState) (ss : List ProbeState) (k : ℕ) (free_slot : Option ℕ)
    → (scan id (s ∷ ss) k free_slot).0 ≡ some (k + 0)
    → matches id s ≡ true
scan_head id s ss k free_slot h = elim (Bool-cases (matches id s)) [
  | inl here ↦ here
  | inr there ↦ absurd (
      omega (
        arith,
        scan-le id ss (k + 1) (k + 0) (first_free s k free_slot)
            (sym (ap (λ r. r.0) (scan_next id s ss k free_slot there)) ∙ h),
      ))
]

-- The entry that is found is the id's, and lies inside; it is found again after a write to it.
scan-set :
    (id : ℕ) (ss : List ProbeState) (k i : ℕ) (free_slot free' : Option ℕ) (st : ProbeState)
    → (scan id ss k free_slot).0 ≡ some (k + i)
    → matches id st ≡ true
    → ((scan id (set ss i st) k free').0 ≡ some (k + i))
      × (i < length ss)
      × (matches id (get_or ss i zero_state) ≡ true)
unfolding scan
scan-set id [] k i free_slot free' st h good = absurd (ground arith)
scan-set id (s ∷ ss) k zero free_slot free' st h good =
    let e : k ≡ k + 0 = omega arith in
    (
      ap (λ r. r.0) (scan_here id st ss k free' good) ∙ ap some e,
      omega arith,
      scan_head id s ss k free_slot h,
    )
scan-set id (s ∷ ss) k (suc i) free_slot free' st h good =
    let (there, tail) = scan_tail id s ss k i free_slot h in
    let rest =
      scan-set id ss (k + 1) i (first_free s k free_slot) (first_free s k free') st tail good in
    let e : k + 1 + i ≡ k + suc i = omega arith in
    (
      ap (λ r. r.0) (scan_next id s (set ss i st) k free' there) ∙ (rest.0 ∙ ap some e),
      omega (arith, rest.1),
      rest.2,
    )

found_or_free-tracked :
    (states : List ProbeState) (id i : ℕ) (r : Option ℕ × Option ℕ)
    → r.0 ≡ some i
    → found_or_free states id r ≡ (states, some i)
found_or_free-tracked states id i (none, f) h = absurd (ground arith)
found_or_free-tracked states id i (some j, f) h = ap (λ o. (states, o)) h

-- A tracked id is recorded at its entry.
tracked_record :
    (hc : HealthChecker) (id i : ℕ) (ok : Bool)
    → IsTracked hc.states id i
    → record_result hc id ok ≡ record_at hc id ok i
unfolding record_result find_or_create_state
tracked_record hc id i ok h =
    ap (record_in hc id ok) (found_or_free-tracked hc.states id i (scan id hc.states 0 none) h)

-- What one failed probe does to a tracked backend whose count of failures is `f`.
record FailsOnce (hc : HealthChecker) (id i f : ℕ) (hc' : HealthChecker) : Type 0 where
  tracked : IsTracked hc'.states id i
  fails : (get_or hc'.states i zero_state).consecutive_fail ≡ (if ltb f hc.fall then f + 1 else f)
  fall : hc'.fall ≡ hc.fall
  bm : hc'.bm ≡ (if f + 1 == hc.fall then (backend_manager_set_health hc.bm id false).0 else hc.bm)

on_fail-matches :
    (id fall : ℕ) (st : ProbeState) → matches id st ≡ true → matches id (on_fail fall st).0 ≡ true
on_fail-matches id fall st h = ground arith

on_fail-counts :
    (fall : ℕ) (st : ProbeState) (f : ℕ)
    → st.consecutive_fail ≡ f
    → ((on_fail fall st).0.consecutive_fail ≡ (if ltb f fall then f + 1 else f))
      × ((on_fail fall st).1 ≡ (f + 1 == fall))
on_fail-counts fall st f h = ground arith

-- The entry of a tracked id, and what is found after a write of it.
scan-IsTracked :
    (states : List ProbeState) (id i : ℕ) (st : ProbeState)
    → IsTracked states id i
    → matches id st ≡ true
    → IsTracked (set states i st) id i
      × (i < length states)
      × (matches id (get_or states i zero_state) ≡ true)
scan-IsTracked states id i st h good =
    let z : 0 + i ≡ i = omega arith in
    let r = scan-set id states 0 i none none st (h ∙ ap some (sym z)) good in
    (r.0 ∙ ap some z, r.1, r.2)

-- The end of `record_at` for a failure, where the threshold is reached or not.
abbrev fail_end : HealthChecker → ℕ → HealthChecker → Bool → HealthChecker × Bool
fail_end hc id next b =
    let flip = backend_manager_set_health hc.bm id false in
    if b then (record next { bm = flip.0 }, flip.2) else (next, false)

after_fail :
    (hc : HealthChecker) (id i f : ℕ) (st : ProbeState) (b : Bool) (stats : Option LbStats)
    → IsTracked (set hc.states i st) id i
    → (get_or (set hc.states i st) i zero_state).consecutive_fail
      ≡ (if ltb f hc.fall then f + 1 else f)
    → b ≡ (f + 1 == hc.fall)
    → FailsOnce hc id i f
        (fail_end hc id (record hc { states = set hc.states i st; stats = stats }) b).0
after_fail hc id i f st true stats t c e = record {
  tracked = t;
  fails = c;
  fall = refl;
  bm = rw (← e) refl;
}
after_fail hc id i f st false stats t c e = record {
  tracked = t;
  fails = c;
  fall = refl;
  bm = rw (← e) refl;
}

fails_once :
    (hc : HealthChecker) (id i f : ℕ)
    → IsTracked hc.states id i
    → (get_or hc.states i zero_state).consecutive_fail ≡ f
    → FailsOnce hc id i f (record_result hc id false).0
unfolding record_at
fails_once hc id i f h e =
    let st = get_or hc.states i zero_state in
    let r = on_fail hc.fall st in
    let counts = on_fail-counts hc.fall st f e in
    let old =
      scan-IsTracked hc.states id i (record st { in_use = true; backend_id = id }) h
        (ground arith) in
    let new = scan-IsTracked hc.states id i r.0 h (on_fail-matches id hc.fall st old.2) in
    let same = get_or-set_self hc.states i r.0 zero_state old.1 in
    subst (λ (x : HealthChecker × Bool). FailsOnce hc id i f x.0)
      (sym (tracked_record hc id i false h))
      (after_fail hc id i f r.0 r.1 (count_failure false id hc.stats) new.0
        (ap (λ (x : ProbeState). x.consecutive_fail) same ∙ counts.0) counts.1)

-- After n failed probes in a row of a tracked backend with f failures counted, the backend table is
-- as after one `backend_manager_set_health` to false if f is below the threshold and f + n reaches
-- it, and as it was if not: the backend is flipped exactly once.
pub record_results-fall :
    (n : ℕ) (hc : HealthChecker) (id i f : ℕ)
    → IsTracked hc.states id i
    → (get_or hc.states i zero_state).consecutive_fail ≡ f
    → (record_results hc (replicate n (id, false))).bm ≡ (
        if ltb f hc.fall && leb hc.fall (f + n)
        then (backend_manager_set_health hc.bm id false).0
        else hc.bm)
unfolding record_results
record_results-fall zero hc id i f h e = ground arith
record_results-fall (suc n) hc id i f h e =
    let once = fails_once hc id i f h e in
    let rest =
      record_results-fall n (record_result hc id false).0 id i (if ltb f hc.fall then f + 1 else f)
        once.tracked once.fails in
    ground (arith, rest, once.fall, once.bm)
