-- ===== src/Backend/Counted.antt =====
-- The results and the open probes of a round of src/backend/health_checker.c balance; the start of
-- the probes.
use l4_maglev_lb.Common.{
  ℕ, zero, suc, ◌+◌, ◌<◌, ◌≡◌, refl, sym, subst, Bool, true, false, ◌&&◌, List, [], ◌∷◌, ◌++◌,
  arith, to_nat, ◌==◌, if◌then◌else◌, get_or, set, length, length-append, count,
}
use mathlib.Core.List.{append-nil, append_assoc}
use l4_maglev_lb.Backend.State.{Backend, zero_backend}
use l4_maglev_lb.Backend.Snapshots.{ids_in}
use l4_maglev_lb.Backend.Round.{Probe, Round, recorded, start_connect, start_probes}

-- How often a result is recorded for an id.
abbrev pub recorded_for : ℕ → List (ℕ × Bool) → ℕ
recorded_for x [] = 0
recorded_for x ((id, ok) ∷ rest) = to_nat (id == x) + recorded_for x rest

-- How often an id stands among the backends that are not done.
abbrev pub open_for : ℕ → List Backend → List Bool → ℕ
open_for x [] ds = 0
open_for x (b ∷ bs) [] = 0
open_for x (b ∷ bs) (true ∷ ds) = open_for x bs ds
open_for x (b ∷ bs) (false ∷ ds) = to_nat (b.id == x) + open_for x bs ds

pub recorded_for-append :
    (x : ℕ) (cs ds : List (ℕ × Bool))
    → recorded_for x (cs ++ ds) ≡ recorded_for x cs + recorded_for x ds
recorded_for-append x [] ds = omega arith
recorded_for-append x ((id, ok) ∷ cs) ds = omega (arith, recorded_for-append x cs ds)

pub recorded-one :
    (x id : ℕ) (ok : Bool) (r : Round)
    → recorded_for x (recorded id ok r).calls ≡ recorded_for x r.calls + to_nat (id == x)
unfolding recorded
recorded-one x id ok r = omega (arith, recorded_for-append x r.calls ((id, ok) ∷ []))

pub open_for-set :
    (x : ℕ) (bs : List Backend) (ds : List Bool) (i : ℕ)
    → i < length ds
    → length ds ≡ length bs
    → get_or ds i true ≡ false
    → open_for x bs (set ds i true) + to_nat ((get_or bs i zero_backend).id == x) ≡ open_for x bs ds
open_for-set x bs [] i p same h = absurd (omega arith)
open_for-set x [] (d ∷ ds) i p same h = absurd (omega (arith, same))
open_for-set x (b ∷ bs) (true ∷ ds) zero p same h = absurd (ground (arith, h))
open_for-set x (b ∷ bs) (false ∷ ds) zero p same h = omega arith
open_for-set x (b ∷ bs) (true ∷ ds) (suc i) p same h =
    open_for-set x bs ds i (omega arith) (omega (arith, same)) h
open_for-set x (b ∷ bs) (false ∷ ds) (suc i) p same h =
    omega (arith, open_for-set x bs ds i (omega arith) (omega (arith, same)) h)

-- A result for each backend that is done, and none for the others.
pub record Balanced (bs : List Backend) (r : Round) : Type 0 where
  pub width : length r.done ≡ length bs
  pub once : (x : ℕ) → recorded_for x r.calls + open_for x bs r.done ≡ count x (ids_in bs)

open_for-append :
    (x : ℕ) (bs : List Backend) (ds : List Bool) (b : Backend) (d : Bool)
    → length ds ≡ length bs
    → open_for x (bs ++ b ∷ []) (ds ++ d ∷ [])
      ≡ open_for x bs ds + (if d then 0 else to_nat (b.id == x))
open_for-append x [] [] b true same = refl
open_for-append x [] [] b false same = omega arith
open_for-append x [] (e ∷ ds) b d same = absurd (omega (arith, same))
open_for-append x (c ∷ bs) [] b d same = absurd (omega (arith, same))
open_for-append x (c ∷ bs) (true ∷ ds) b d same = open_for-append x bs ds b d (omega (arith, same))
open_for-append x (c ∷ bs) (false ∷ ds) b d same =
    omega (arith, open_for-append x bs ds b d (omega (arith, same)))

count-ids-append :
    (x : ℕ) (bs : List Backend) (b : Backend)
    → count x (ids_in (bs ++ b ∷ [])) ≡ count x (ids_in bs) + to_nat (b.id == x)
count-ids-append x [] b = omega arith
count-ids-append x (c ∷ bs) b = omega (arith, count-ids-append x bs b)

pending-Balanced :
    (bs : List Backend) (b : Backend) (r : Round)
    → Balanced bs r
    → Balanced (bs ++ b ∷ []) (record r { done = r.done ++ false ∷ []; pending = r.pending + 1 })
pending-Balanced bs b r h = record {
  width = omega (arith, h.width, length-append r.done (false ∷ []), length-append bs (b ∷ []));
  once = λ x.
      omega (arith, h.once x, open_for-append x bs r.done b false h.width, count-ids-append x bs b);
}

failed-Balanced :
    (bs : List Backend) (b : Backend) (r : Round)
    → Balanced bs r
    → Balanced (bs ++ b ∷ []) (recorded b.id false (record r { done = r.done ++ true ∷ [] }))
unfolding recorded
failed-Balanced bs b r h = record {
  width = omega (arith, h.width, length-append r.done (true ∷ []), length-append bs (b ∷ []));
  once = λ x. omega (
    arith,
    h.once x,
    recorded_for-append x r.calls ((b.id, false) ∷ []),
    open_for-append x bs r.done b true h.width,
    count-ids-append x bs b,
  );
}

pub start-Balanced :
    (before bs : List Backend) (ps : List Probe) (r : Round)
    → Balanced before r
    → Balanced (before ++ bs) (start_probes bs ps r)
unfolding start_probes
start-Balanced before [] ps r h = subst (λ bs. Balanced bs r) (sym (append-nil before)) h
start-Balanced before (b ∷ bs) [] r h =
    subst (λ all. Balanced all (start_probes (b ∷ bs) [] r)) (append_assoc before (b ∷ []) bs)
      (start-Balanced (before ++ b ∷ []) bs [] _ (failed-Balanced before b r h))
start-Balanced before (b ∷ bs) (p ∷ ps) r h =
    subst (λ all. Balanced all (start_probes (b ∷ bs) (p ∷ ps) r)) (append_assoc before (b ∷ []) bs)
      (start-Balanced (before ++ b ∷ []) bs ps _ (chosen (start_connect p && p.registered)))
  where
    chosen :
        (c : Bool)
        → Balanced (before ++ b ∷ []) (
            if c
            then record r { done = r.done ++ false ∷ []; pending = r.pending + 1 }
            else recorded b.id false (record r { done = r.done ++ true ∷ [] }))
    chosen true = pending-Balanced before b r h
    chosen false = failed-Balanced before b r h
