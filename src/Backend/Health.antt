-- ===== src/Backend/Health.antt =====
-- The probe counters of src/backend/health_checker.c, and a round of probes.
use l4_maglev_lb.Common.{
  ℕ, ◌+◌, Bool, true, false, ◌&&◌, Option, none, some, List, [], ◌∷◌, ltb, ◌==◌, if◌then◌else◌,
  get_or, set,
}
use l4_maglev_lb.Backend.State.{BackendManager}
use l4_maglev_lb.Backend.Manager.{backend_manager_set_health}
use l4_maglev_lb.Stats.{LbStats, stats_backend_health_check_failed}

pub record ProbeState : Type 0 where
  pub backend_id : ℕ
  pub consecutive_ok : ℕ
  pub consecutive_fail : ℕ
  pub in_use : Bool

abbrev pub zero_state : ProbeState
zero_state = record { backend_id = 0; consecutive_ok = 0; consecutive_fail = 0; in_use = false }

-- The backend manager that `bm` points to, and the statistics, are part of the state.
pub record HealthChecker : Type 0 where
  pub bm : BackendManager
  pub rise : ℕ
  pub fall : ℕ
  pub stats : Option LbStats
  pub states : List ProbeState

-- The first free entry so far, after entry `i`.
abbrev pub first_free : ProbeState → ℕ → Option ℕ → Option ℕ
first_free s i none = if s.in_use then none else some i
first_free s i (some j) = some j

-- The loop of `find_or_create_state`, from index `i` on: the entry of the id, or the first free one.
unfoldable pub scan : ℕ → List ProbeState → ℕ → Option ℕ → Option ℕ × Option ℕ
scan id [] i free_slot = (none, free_slot)
scan id (s ∷ ss) i free_slot =
    let rest = scan id ss (i + 1) (first_free s i free_slot) in
    if s.in_use && s.backend_id == id then (some i, free_slot) else rest

abbrev pub found_or_free : List ProbeState → ℕ → Option ℕ × Option ℕ → List ProbeState × Option ℕ
found_or_free states id (some i, free_slot) = (states, some i)
found_or_free states id (none, none) = (states, none)
found_or_free states id (none, some j) = (
  set states j
      (record { backend_id = id; consecutive_ok = 0; consecutive_fail = 0; in_use = true }),
  some j,
)

unfoldable pub find_or_create_state : List ProbeState → ℕ → List ProbeState × Option ℕ
unfolding scan
find_or_create_state states id = found_or_free states id (scan id states 0 none)

-- The new counters, and whether the threshold is reached now.
abbrev pub on_ok : ℕ → ProbeState → ProbeState × Bool
on_ok rise st =
    if ltb st.consecutive_ok rise
    then (
      record st { consecutive_fail = 0; consecutive_ok = st.consecutive_ok + 1 },
      st.consecutive_ok + 1 == rise,
    )
    else (record st { consecutive_fail = 0 }, false)

abbrev pub on_fail : ℕ → ProbeState → ProbeState × Bool
on_fail fall st =
    if ltb st.consecutive_fail fall
    then (
      record st { consecutive_ok = 0; consecutive_fail = st.consecutive_fail + 1 },
      st.consecutive_fail + 1 == fall,
    )
    else (record st { consecutive_ok = 0 }, false)

abbrev pub count_failure : Bool → ℕ → Option LbStats → Option LbStats
count_failure ok id none = none
count_failure ok id (some s) = some (if ok then s else stats_backend_health_check_failed s id)

-- The body of `record_result` for the entry that was found; the flag is `notify`'s.
unfoldable pub record_at : HealthChecker → ℕ → Bool → ℕ → HealthChecker × Bool
unfolding backend_manager_set_health
record_at hc id ok i =
    let st = get_or hc.states i zero_state in
    let r = if ok then on_ok hc.rise st else on_fail hc.fall st in
    let next = record hc { states = set hc.states i r.0; stats = count_failure ok id hc.stats } in
    let flip = backend_manager_set_health hc.bm id ok in
    if r.1 then (record next { bm = flip.0 }, flip.2) else (next, false)

abbrev pub record_in : HealthChecker → ℕ → Bool → List ProbeState × Option ℕ → HealthChecker × Bool
record_in hc id ok (states, none) = (record hc { states = states }, false)
record_in hc id ok (states, some i) = record_at (record hc { states = states }) id ok i

unfoldable pub record_result : HealthChecker → ℕ → Bool → HealthChecker × Bool
unfolding find_or_create_state record_at
record_result hc id ok = record_in hc id ok (find_or_create_state hc.states id)

-- A round in which each probe is resolved, in the order in which the results come in: the ids and
-- what became of them (a timeout is a failure). An aborted round is a shorter list.
unfoldable pub record_results : HealthChecker → List (ℕ × Bool) → HealthChecker
unfolding record_result
record_results hc [] = hc
record_results hc ((id, ok) ∷ rest) = record_results (record_result hc id ok).0 rest
