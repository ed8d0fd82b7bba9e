-- ===== src/Startup/Checker.antt =====
-- When the actions of src/main.c on the components and their threads fit together.
use l4_maglev_lb.Common.{
  ◌≡◌, Bool, true, false, ◌&&◌, ◌||◌, not, Option, none, some, List, [], ◌∷◌, if◌then◌else◌,
}
use l4_maglev_lb.Startup.Threads.{
  Part, manager, generator, conntrack, stats, health, metrics, datapath, stop_event, Action, create,
  start, stop, destroy, spawn_joiner, join_joiner, run_dashboard, ask_stop,
}

pub data Status : Type 0 where
  absent alive running : Status

pub record World : Type 0 where
  pub w_manager : Status
  pub w_generator : Status
  pub w_conntrack : Status
  pub w_stats : Status
  pub w_health : Status
  pub w_metrics : Status
  pub w_datapath : Status
  pub w_stop_event : Status
  pub w_joiner : Status

abbrev pub none_there : World
none_there = record {
  w_manager = absent;
  w_generator = absent;
  w_conntrack = absent;
  w_stats = absent;
  w_health = absent;
  w_metrics = absent;
  w_datapath = absent;
  w_stop_event = absent;
  w_joiner = absent;
}

abbrev pub status : Part → World → Status
status manager w = w.w_manager
status generator w = w.w_generator
status conntrack w = w.w_conntrack
status stats w = w.w_stats
status health w = w.w_health
status metrics w = w.w_metrics
status datapath w = w.w_datapath
status stop_event w = w.w_stop_event

abbrev pub with_status : Part → Status → World → World
with_status manager s w = record w { w_manager = s }
with_status generator s w = record w { w_generator = s }
with_status conntrack s w = record w { w_conntrack = s }
with_status stats s w = record w { w_stats = s }
with_status health s w = record w { w_health = s }
with_status metrics s w = record w { w_metrics = s }
with_status datapath s w = record w { w_datapath = s }
with_status stop_event s w = record w { w_stop_event = s }

abbrev pub is_alive : Status → Bool
is_alive alive = true
is_alive _ = false

abbrev pub is_running : Status → Bool
is_running running = true
is_running _ = false

-- The health thread sets the health of backends, which calls the generator, and counts failures;
-- the thread of the metrics reads everything.
abbrev pub health_uses : Part → Bool
health_uses manager = true
health_uses generator = true
health_uses stats = true
health_uses _ = false

abbrev pub metrics_uses : Part → Bool
metrics_uses manager = true
metrics_uses generator = true
metrics_uses conntrack = true
metrics_uses stats = true
metrics_uses _ = false

abbrev pub in_use : Part → World → Bool
in_use p w = health_uses p && is_running w.w_health || metrics_uses p && is_running w.w_metrics

-- What an action makes of a component; `none` where it does not fit.
abbrev pub act : Action → Status → Option Status
act (create p) absent = some alive
act (start p) alive = some running
act (stop p) running = some alive
act (destroy p) alive = some absent
act _ _ = none

-- The datapath's thread, and the dashboard beside it, use what the datapath was created with.
abbrev pub datapath_uses : Part → Bool
datapath_uses manager = true
datapath_uses generator = true
datapath_uses conntrack = true
datapath_uses stats = true
datapath_uses _ = false

-- The joiner writes to the descriptor.
abbrev pub joiner_uses : Part → Bool
joiner_uses stop_event = true
joiner_uses _ = false

abbrev pub held_by_run : Part → World → Bool
held_by_run p w =
    datapath_uses p && is_running w.w_datapath || joiner_uses p && is_running w.w_joiner

abbrev pub place : Part → World → Option Status → Option World
place p w none = none
place p w (some s) = some (with_status p s w)

abbrev pub allow : Bool → Option World → Option World
allow true w = w
allow false w = none

-- Nothing is destroyed that the threads of `run_with_tui` use or, where it is strict, that the health
-- thread or the thread of the metrics uses. What a joiner joins, no other thread joins.
abbrev pub do_action : Bool → Action → World → Option World
do_action strict (create p) w = place p w (act (create p) (status p w))
do_action strict (start p) w = place p w (act (start p) (status p w))
do_action strict (stop p) w =
    if is_running w.w_joiner then none else place p w (act (stop p) (status p w))
do_action strict (destroy p) w =
    if held_by_run p w
    then none
    else if in_use p w && strict
    then none
    else place p w (act (destroy p) (status p w))
do_action strict spawn_joiner w =
    if is_running w.w_datapath && (is_alive w.w_stop_event && not (is_running w.w_joiner))
    then some (record w { w_joiner = running })
    else none
do_action strict join_joiner w =
    if is_running w.w_joiner && is_running w.w_datapath
    then some (record w { w_joiner = absent; w_datapath = alive })
    else none
do_action strict run_dashboard w = if is_running w.w_datapath then some w else none
do_action strict ask_stop w = if is_running w.w_datapath then some w else none

abbrev pub play : Bool → List Action → World → Option World
play strict [] w = some w
play strict (a ∷ rest) w = elim (do_action strict a w) [
  | none ↦ none
  | some w' ↦ play strict rest w'
]

abbrev pub starts_health : Action → Bool
starts_health (start health) = true
starts_health _ = false

abbrev pub health_started : List Action → Bool
health_started [] = false
health_started (a ∷ rest) = starts_health a || health_started rest

-- Everything that is created is destroyed once and every thread that is started is joined once, a
-- component's thread before the component is destroyed; nothing is destroyed that the threads of
-- `run_with_tui` use, nor that another running thread uses, unless the health thread was started.
pub record IsClean (log : List Action) : Type 0 where
  pub complete : play false log none_there ≡ some none_there
  pub ordered : play true log none_there ≡ (if health_started log then none else some none_there)
