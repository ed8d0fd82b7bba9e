-- ===== src/Backend/Round.antt =====
-- The rounds of probes of src/backend/health_checker.c: `run_probe_round`, `wait_next_interval` and
-- the loop of `thread_main`. What the sockets and `epoll_wait` give is an argument; a list of waits
-- ends at the deadline.
use l4_maglev_lb.Common.{
  ℕ, zero, suc, ◌+◌, ◌-◌, Bool, true, false, ◌&&◌, Option, none, some, List, [], ◌∷◌, ◌++◌,
  if◌then◌else◌, get_or, set,
}
use l4_maglev_lb.Backend.State.{Backend, zero_backend, backend_max}
use l4_maglev_lb.Backend.Manager.{backend_manager_snapshot_all}
use l4_maglev_lb.Backend.Health.{HealthChecker, record_result}
use l4_maglev_lb.Backend.Admin.{process_admin_fifo}

-- The calls for one backend's socket: `socket`, `connect` (done or in progress), `epoll_ctl`.
pub record Probe : Type 0 where
  pub opened : Bool
  pub connecting : Bool
  pub registered : Bool

abbrev pub no_probe : Probe
no_probe = record { opened = false; connecting = false; registered = false }

abbrev pub start_connect : Probe → Bool
start_connect p = p.opened && p.connecting

-- An event of a round: the request to stop, bytes from the FIFO, or the socket of backend `i` with
-- whether it has no error.
pub data Event : Type 0 where
  wake : Event
  admin : List ℕ → Event
  resolved : ℕ → Bool → Event

pub data Wait : Type 0 where
  interrupted : Wait
  wait_failed : Wait
  events : List Event → Wait

-- The local variables of a round, the FIFO's buffer, and the results recorded so far.
pub record Round : Type 0 where
  pub hc : HealthChecker
  pub admin_buf : List ℕ
  pub done : List Bool
  pub pending : ℕ
  pub calls : List (ℕ × Bool)

unfoldable pub recorded : ℕ → Bool → Round → Round
unfolding record_result
recorded id ok r = record r { hc = (record_result r.hc id ok).0; calls = r.calls ++ (id, ok) ∷ [] }

-- The first loop.
unfoldable pub start_probes : List Backend → List Probe → Round → Round
unfolding recorded
start_probes [] ps r = r
start_probes (b ∷ bs) [] r =
    start_probes bs [] (recorded b.id false (record r { done = r.done ++ true ∷ [] }))
start_probes (b ∷ bs) (p ∷ ps) r = start_probes bs ps (
    if start_connect p && p.registered
    then record r { done = r.done ++ false ∷ []; pending = r.pending + 1 }
    else recorded b.id false (record r { done = r.done ++ true ∷ [] }))

module _ (sscanf : List ℕ → Option (List ℕ × ℕ)) where
  unfoldable pub with_admin : List ℕ → Round → Round
  unfolding process_admin_fifo
  with_admin bytes r =
      let a = process_admin_fifo sscanf (record { bm = r.hc.bm; admin_buf = r.admin_buf }) bytes in
      record r { hc = record r.hc { bm = a.bm }; admin_buf = a.admin_buf }

  -- One batch of events, and whether the round is aborted.
  unfoldable pub on_events : List Backend → List Event → Round → Round × Bool
  unfolding recorded with_admin
  on_events bs [] r = (r, false)
  on_events bs (wake ∷ es) r = (r, true)
  on_events bs (admin bytes ∷ es) r = on_events bs es (with_admin bytes r)
  on_events bs (resolved i ok ∷ es) r = on_events bs es (
      recorded (get_or bs i zero_backend).id ok
        (record r { done = set r.done i true; pending = r.pending - 1 }))

  abbrev pub unless_aborted : Round × Bool → (Round → Round × Bool) → Round × Bool
  unless_aborted (r, true) next = (r, true)
  unless_aborted (r, false) next = next r

  abbrev pub while_pending : ℕ → Round → Round × Bool → Round × Bool
  while_pending zero r next = (r, false)
  while_pending (suc k) r next = next

  -- The loop until nothing is pending, the round is aborted or the deadline is reached.
  unfoldable pub await_probes : List Backend → List Wait → Round → Round × Bool
  unfolding on_events
  await_probes bs [] r = (r, false)
  await_probes bs (interrupted ∷ ws) r = while_pending r.pending r (await_probes bs ws r)
  await_probes bs (wait_failed ∷ ws) r = (r, false)
  await_probes bs (events es ∷ ws) r =
      while_pending r.pending r (unless_aborted (on_events bs es r) (await_probes bs ws))

  -- The last loop: what is not done has timed out, unless the round is aborted.
  unfoldable pub time_out : List Backend → List Bool → Bool → Round → Round
  unfolding recorded
  time_out [] ds aborted r = r
  time_out (b ∷ bs) [] aborted r = r
  time_out (b ∷ bs) (true ∷ ds) aborted r = time_out bs ds aborted r
  time_out (b ∷ bs) (false ∷ ds) true r = time_out bs ds true r
  time_out (b ∷ bs) (false ∷ ds) false r = time_out bs ds false (recorded b.id false r)

  abbrev pub fresh_round : HealthChecker → List ℕ → Round
  fresh_round hc buf = record { hc = hc; admin_buf = buf; done = []; pending = 0; calls = [] }

  abbrev pub round_of : List Backend → List Probe → List Wait → Round → Round × Bool
  round_of bs ps ws r =
      let waited = await_probes bs ws (start_probes bs ps r) in
      (time_out bs waited.0.done waited.1 waited.0, waited.1)

  unfoldable pub run_probe_round : List Probe → List Wait → HealthChecker → List ℕ → Round × Bool
  unfolding backend_manager_snapshot_all start_probes await_probes time_out
  run_probe_round ps ws hc buf =
      round_of (backend_manager_snapshot_all hc.bm backend_max) ps ws (fresh_round hc buf)

  -- `wait_next_interval`: bytes from the FIFO, or anything else.
  unfoldable pub wait_next_interval : Option (List ℕ) → Round → Round
  unfolding with_admin
  wait_next_interval none r = r
  wait_next_interval (some bytes) r = with_admin bytes r

  -- One turn of the loop of `thread_main`: the round, whether a stop is requested after it, and the
  -- wait.
  pub record Turn : Type 0 where
    pub probes : List Probe
    pub waits : List Wait
    pub stop_requested : Bool
    pub next_wait : Option (List ℕ)

  -- The turns until a stop is requested.
  unfoldable pub run_rounds : List Turn → HealthChecker → List ℕ → HealthChecker × List ℕ
  unfolding run_probe_round wait_next_interval
  run_rounds [] hc buf = (hc, buf)
  run_rounds (t ∷ ts) hc buf =
      let r = (run_probe_round t.probes t.waits hc buf).0 in
      let waited = wait_next_interval t.next_wait r in
      let rest = run_rounds ts waited.hc waited.admin_buf in
      if t.stop_requested then (r.hc, r.admin_buf) else rest
