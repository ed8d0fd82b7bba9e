-- ===== src/Startup/Threads.antt =====
-- What src/main.c does to the components and their threads, and `run_with_tui`, which runs the
-- datapath on a thread beside the dashboard.
use l4_maglev_lb.Common.{
  ℕ, Bool, true, false, ◌&&◌, ◌||◌, not, Option, none, some, List, [], ◌∷◌, ◌++◌,
}
use l4_maglev_lb.Forward.Datapath.{Datapath}
use l4_maglev_lb.Forward.Loop.{Phase, Run}
use l4_maglev_lb.Ui.Dashboard.{Turn, tui_run}

-- The components that `main` holds, and the descriptor `stop_fd` of `run_with_tui`.
pub data Part : Type 0 where
  manager generator conntrack stats health metrics datapath stop_event : Part

-- A component comes and goes; a thread of it starts and is joined. The joiner is the thread that
-- joins the datapath's thread and then writes to `stop_fd`; `ask_stop` is the `pthread_kill`.
pub data Action : Type 0 where
  create start stop destroy : Part → Action
  spawn_joiner join_joiner run_dashboard ask_stop : Action

abbrev pub when : Bool → Action → List Action
when true a = a ∷ []
when false a = []

-- What the calls of `run_with_tui` give; `still_running` is what `datapath_is_running` says after the
-- dashboard.
pub record TuiEnv : Type 0 where
  pub datapath_thread : Bool
  pub stop_fd : Bool
  pub joiner_thread : Bool
  pub dashboard_given : Bool
  pub turns : List Turn
  pub still_running : Bool

abbrev pub have_joiner : TuiEnv → Bool
have_joiner env = env.stop_fd && env.joiner_thread

-- The wait for the datapath: the joiner joins it, where there is a joiner.
abbrev pub join_step : Bool → Action
join_step true = join_joiner
join_step false = stop datapath

abbrev pub tui_opens : TuiEnv → List Action
tui_opens env =
    start datapath
    ∷ (when env.stop_fd (create stop_event)
        ++ (when (have_joiner env) spawn_joiner ++ when env.dashboard_given run_dashboard))

abbrev pub tui_closes : TuiEnv → List Action
tui_closes env =
    when env.still_running ask_stop
    ++ (join_step (have_joiner env) ∷ when env.stop_fd (destroy stop_event))

-- The dashboard gets `stop_fd` only where there is a joiner.
unfoldable pub dashboard_over : TuiEnv → Bool
unfolding tui_run
dashboard_over env = not env.dashboard_given || tui_run (have_joiner env) env.turns

-- What has been done when the run is over, or when it is looked at: the return code, if it has
-- returned, and the datapath.
pub record Ran : Type 0 where
  pub rc : Option ℕ
  pub dp : Datapath
  pub log : List Action

-- What `datapath_run` returns, if it has.
abbrev pub rc_of : Phase → Option ℕ
rc_of Phase.waiting = none
rc_of Phase.stopped = some 0
rc_of Phase.failed = some 1

-- The join returns only when `datapath_run` has.
abbrev pub after_dashboard : TuiEnv → Bool → Option ℕ → Datapath → Ran
after_dashboard env true (some rc) dp = record {
  rc = some rc;
  dp = dp;
  log = tui_opens env ++ tui_closes env;
}
after_dashboard env true none dp = record { rc = none; dp = dp; log = tui_opens env }
after_dashboard env false rc dp = record { rc = none; dp = dp; log = tui_opens env }

-- `r` is the run of `datapath_run`, on its thread.
abbrev pub tui_thread : Bool → TuiEnv → Datapath → Run → Ran
tui_thread false env dp r = record { rc = some 1; dp = dp; log = [] }
tui_thread true env dp r = after_dashboard env (dashboard_over env) (rc_of r.phase) r.dp

unfoldable pub run_with_tui : TuiEnv → Datapath → Run → Ran
unfolding dashboard_over
run_with_tui env dp r = tui_thread env.datapath_thread env dp r

-- The datapath runs beside the dashboard, or on the main thread.
unfoldable pub run_mode : Bool → TuiEnv → Datapath → Run → Ran
unfolding run_with_tui
run_mode true env dp r = run_with_tui env dp r
run_mode false env dp r = record { rc = rc_of r.phase; dp = r.dp; log = [] }
