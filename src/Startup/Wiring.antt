-- ===== src/Startup/Wiring.antt =====
-- `main` of src/main.c. What the environment answers is an argument; what `main` does to the
-- components is their state and a list of actions, in order. Messages are not modelled.
use l4_maglev_lb.Common.{
  ℕ, zero, suc, ◌+◌, ◌*◌, Bool, true, false, Option, none, some, List, [], ◌∷◌, ◌++◌, ◌==◌, length,
  u64,
}
use l4_maglev_lb.Maglev.Table.{Alloc, Result, ok, null, stuck}
use l4_maglev_lb.Maglev.Prime.{maglev_is_prime}
use l4_maglev_lb.Backend.State.{BackendManager, backend_manager_create}
use l4_maglev_lb.Backend.Manager.{backend_manager_add, backend_manager_set_mac}
use l4_maglev_lb.Backend.Generator.{
  TableGenerator, table_generator_create, table_generator_install_as_subscriber,
  table_generator_rebuild_and_install,
}
use l4_maglev_lb.Conntrack.Table.{ConntrackTable, TableAlloc, conntrack_create}
use l4_maglev_lb.Stats.{LbStats, stats_registry_init}
use l4_maglev_lb.Config.Parse.{
  ConfigBackend, Config, Opt, Outcome, Strtol, done, helped, failed, config_parse_args,
}
use l4_maglev_lb.Forward.Datapath.{DatapathConfig, Datapath}
use l4_maglev_lb.Forward.Loop.{Setup, Wake, datapath_run}
use l4_maglev_lb.Startup.Threads.{
  Part, manager, generator, conntrack, stats, health, metrics, datapath, Action, create, start,
  stop, destroy, when, TuiEnv, run_mode,
}

-- What the calls of `main` give. `arp i` is what `arp_resolve` stores for the `i`-th backend.
pub record Env : Type 0 where
  pub sigmask : Bool
  pub iface_mac : Option (List ℕ)
  pub manager_given : Bool
  pub arp : ℕ → Option (List ℕ)
  pub generator_given : Bool
  pub snapshot_alloc : Alloc
  pub retired_given : Bool
  pub regen_us : ℕ
  pub table_alloc : TableAlloc
  pub stats_given : Bool
  pub health_given : Bool
  pub health_starts : Bool
  pub metrics_given : Bool
  pub metrics_starts : Bool
  pub datapath_given : Bool
  pub tui : TuiEnv
  pub setup : Setup
  pub wakes : List Wake

-- The pointers at the label `cleanup`: what is there, and whether the thread runs.
pub record Held : Type 0 where
  pub dp : Bool
  pub mh : Option Bool
  pub stats_initialized : Bool
  pub ct : Bool
  pub hc : Option Bool
  pub tg : Bool
  pub bm : Bool

abbrev pub nothing_held : Held
nothing_held = record {
  dp = false;
  mh = none;
  stats_initialized = false;
  ct = false;
  hc = none;
  tg = false;
  bm = false;
}

-- What `main` did, its exit code if it has returned, and the datapath if that has run.
pub record Ending : Type 0 where
  pub log : List Action
  pub exit : Option ℕ
  pub ran : Option Datapath

-- `health_checker_stop` and `metrics_http_stop`: for NULL, or with no thread, they do nothing.
abbrev pub stop_thread : Part → Option Bool → List Action
stop_thread p none = []
stop_thread p (some running) = when running (stop p)

abbrev pub destroy_given : Part → Option Bool → List Action
destroy_given p none = []
destroy_given p (some running) = destroy p ∷ []

-- From the label `cleanup` on.
abbrev pub cleanup : Held → List Action
cleanup h =
    when h.dp (destroy datapath)
    ++ (stop_thread metrics h.mh
        ++ (destroy_given metrics h.mh
            ++ (when h.stats_initialized (destroy stats)
                ++ (when h.ct (destroy conntrack)
                    ++ (stop_thread health h.hc
                        ++ (destroy_given health h.hc
                            ++ (when h.tg (destroy generator) ++ when h.bm (destroy manager))))))))

abbrev pub leave : List Action → Held → ℕ → Option Datapath → Ending
leave log h run_rc ran = record {
  log = log ++ cleanup h;
  exit = some (elim run_rc [ zero ↦ 0 | suc n ↦ 1 ]);
  ran = ran;
}

-- A return before there is anything to clean up.
abbrev pub return_early : ℕ → Ending
return_early code = record { log = []; exit = some code; ran = none }

-- The rest of a turn after `backend_manager_add`: whether the table was full, and what `arp_resolve`
-- has found; `none` is `goto cleanup`.
abbrev pub unless_full :
    Bool → Option (List ℕ) → (List ℕ → Option BackendManager) → Option BackendManager
unless_full true found next = none
unless_full false none next = none
unless_full false (some mac) next = next mac

-- The loop over the configured backends.
unfoldable pub add_backends :
    (ℕ → Option (List ℕ)) → ℕ → List ConfigBackend → BackendManager → Option BackendManager
unfolding backend_manager_add backend_manager_set_mac
add_backends arp i [] bm = some bm
add_backends arp i (b ∷ bs) bm =
    let added = backend_manager_add bm b.addr b.port in
    unless_full (added.1 == 0xffffffff) (arp i)
      (λ mac. add_backends arp (i + 1) bs (backend_manager_set_mac added.0 added.1 mac).0)

abbrev pub datapath_config : Config → DatapathConfig
datapath_config cfg = record {
  vip = cfg.vip;
  director_ip = cfg.director_ip;
  ttl = cfg.ttl;
  own_mac = 0 ∷ 0 ∷ 0 ∷ 0 ∷ 0 ∷ 0 ∷ [];
  tcp_timeout_ns = u64 (cfg.ct_tcp_timeout_ms * 1000000);
  udp_timeout_ns = u64 (cfg.ct_udp_timeout_ms * 1000000);
}

abbrev pub health_log : Option Bool → List Action
health_log none = []
health_log (some false) = create health ∷ []
health_log (some true) = create health ∷ start health ∷ []

abbrev pub start_health : Env → Option Bool
start_health env = elim env.health_given [ false ↦ none | true ↦ some env.health_starts ]

-- The endpoint, and what is done for it: where its thread does not start it is given up.
abbrev pub start_metrics : Env → ℕ → Option Bool × List Action
start_metrics env zero = (none, [])
start_metrics env (suc port) = elim env.metrics_given [
  | false ↦ (none, [])
  | true ↦ elim env.metrics_starts [
    | false ↦ (none, create metrics ∷ destroy metrics ∷ [])
    | true ↦ (some true, create metrics ∷ start metrics ∷ [])
  ]
]

module _ (xxh64 : List ℕ → ℕ → ℕ) (send : List ℕ → ℕ) (env : Env) where
  abbrev pub after_run :
      List Action → Option Bool → Option Bool → Option ℕ → Datapath → List Action → Ending
  after_run log hc mh none dp done_by_run = record {
    log = log ++ create datapath ∷ done_by_run;
    exit = none;
    ran = some dp;
  }
  after_run log hc mh (some rc) dp done_by_run =
      leave (log ++ create datapath ∷ done_by_run)
        (record {
          dp = true;
          mh = mh;
          stats_initialized = true;
          ct = true;
          hc = hc;
          tg = true;
          bm = true;
        })
        rc (some dp)

  -- After `datapath_create`, with the log so far.
  abbrev pub with_datapath :
      Config → Datapath → List Action → Option Bool → Option Bool → Bool → Ending
  with_datapath cfg dp log hc mh false =
      leave log
        (record {
          dp = false;
          mh = mh;
          stats_initialized = true;
          ct = true;
          hc = hc;
          tg = true;
          bm = true;
        })
        1 none
  with_datapath cfg dp log hc mh true =
      let r =
        run_mode cfg.tui_enabled env.tui dp
          (datapath_run send xxh64 (datapath_config cfg) env.setup env.wakes dp) in
      after_run log hc mh r.rc r.dp r.log

  -- The threads, and then the datapath.
  abbrev pub with_threads : Config → Datapath → Option Bool → Option Bool × List Action → Ending
  with_threads cfg dp hc (mh, started) =
      with_datapath cfg dp
        (create manager
          ∷ create generator
          ∷ create conntrack
          ∷ create stats
          ∷ (health_log hc ++ started))
        hc mh env.datapath_given

  abbrev pub with_stats : Config → ConntrackTable → Option LbStats → Ending
  with_stats cfg ct none =
      leave (create manager ∷ create generator ∷ create conntrack ∷ [])
        (record nothing_held { ct = true; tg = true; bm = true }) 1 none
  with_stats cfg ct (some s) =
      with_threads cfg (record { table = ct; stats = s }) (start_health env)
        (start_metrics env cfg.metrics_port)

  -- A loop that never ends leaves the program where it is.
  abbrev pub with_conntrack : Config → Result ConntrackTable → Ending
  with_conntrack cfg (ok ct) =
      with_stats cfg ct (stats_registry_init env.stats_given (length cfg.backends))
  with_conntrack cfg null =
      leave (create manager ∷ create generator ∷ []) (record nothing_held { tg = true; bm = true })
        1 none
  with_conntrack cfg stuck = record {
    log = create manager ∷ create generator ∷ [];
    exit = none;
    ran = none;
  }

  abbrev pub with_snapshot : Config → Result TableGenerator → Ending
  with_snapshot cfg (ok tg) = with_conntrack cfg (conntrack_create env.table_alloc cfg.max_flows)
  with_snapshot cfg null =
      leave (create manager ∷ create generator ∷ []) (record nothing_held { tg = true; bm = true })
        1 none
  with_snapshot cfg stuck = record {
    log = create manager ∷ create generator ∷ [];
    exit = none;
    ran = none;
  }

  -- The first table, for a manager whose subscriber is the generator.
  unfoldable pub first_table : Config → BackendManager → Result TableGenerator
  unfolding table_generator_rebuild_and_install table_generator_install_as_subscriber
      table_generator_create
  first_table cfg bm =
      table_generator_rebuild_and_install xxh64 env.snapshot_alloc env.retired_given env.regen_us
        (table_generator_install_as_subscriber bm) (table_generator_create cfg.table_size)

  abbrev pub with_generator : Config → BackendManager → Bool → Ending
  with_generator cfg bm false =
      leave (create manager ∷ []) (record nothing_held { bm = true }) 1 none
  with_generator cfg bm true = with_snapshot cfg (first_table cfg bm)

  abbrev pub with_backends : Config → Option BackendManager → Ending
  with_backends cfg none = leave (create manager ∷ []) (record nothing_held { bm = true }) 1 none
  with_backends cfg (some bm) = with_generator cfg bm env.generator_given

  abbrev pub with_manager : Config → Bool → Ending
  with_manager cfg false = leave [] nothing_held 1 none
  with_manager cfg true =
      with_backends cfg (add_backends env.arp 0 cfg.backends backend_manager_create)

  -- The checks before anything is created.
  abbrev pub with_mac : Config → Option (List ℕ) → Ending
  with_mac cfg none = return_early 1
  with_mac cfg (some mac) = with_manager cfg env.manager_given

  abbrev pub with_sigmask : Config → Bool → Ending
  with_sigmask cfg false = return_early 1
  with_sigmask cfg true = with_mac cfg env.iface_mac

  abbrev pub with_prime : Config → Bool → Ending
  with_prime cfg false = return_early 1
  with_prime cfg true = with_sigmask cfg env.sigmask

  abbrev pub with_config : Outcome → Ending
  with_config helped = return_early 0
  with_config failed = return_early 1
  with_config (done cfg) = with_prime cfg (maglev_is_prime cfg.table_size)

  unfoldable pub main : (List ℕ → Option ℕ) → (List ℕ → Strtol) → List Opt → Ending
  unfolding config_parse_args maglev_is_prime add_backends first_table conntrack_create
      stats_registry_init datapath_run backend_manager_create run_mode
  main inet_pton strtol opts = with_config (config_parse_args inet_pton strtol opts)
