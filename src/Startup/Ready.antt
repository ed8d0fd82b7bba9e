-- ===== src/Startup/Ready.antt =====
-- What src/main.c runs the datapath on, and how far that carries.
use l4_maglev_lb.Common.{
  ℕ, ◌^◌, ◌≤◌, ◌<◌, ◌++◌, ◌≡◌, refl, sym, ap, subst, ◌∙◌, Bool, true, false, Option, none, some,
  List, ◌∷◌, arith, length,
}
use l4_maglev_lb.Maglev.Table.{Result, ok, null, stuck}
use l4_maglev_lb.Maglev.Prime.{maglev_is_prime}
use l4_maglev_lb.Backend.State.{BackendManager}
use l4_maglev_lb.Backend.Generator.{TableGenerator}
use l4_maglev_lb.Conntrack.Table.{ConntrackTable, conntrack_create}
use l4_maglev_lb.Stats.{LbStats}
use l4_maglev_lb.Config.Parse.{Config, Opt, Strtol, done, config_parse_args}
use l4_maglev_lb.Config.Ranges.{config_parse_args-InRange}
use l4_maglev_lb.Forward.Datapath.{Datapath}
use l4_maglev_lb.Forward.Loop.{Run}
use l4_maglev_lb.Forward.Flows.{Agrees, AgreesIn}
use l4_maglev_lb.Startup.Threads.{
  manager, generator, conntrack, stats, Action, create, TuiEnv, dashboard_over, rc_of,
  after_dashboard, tui_thread, run_mode,
}
use l4_maglev_lb.Startup.Wiring.{
  health_log, Env, Ending, start_health, start_metrics, datapath_config, after_run, with_datapath,
  with_threads, with_stats, with_conntrack, with_snapshot, with_generator, with_backends,
  with_manager, with_mac, with_sigmask, with_prime, with_config, main,
}
use l4_maglev_lb.Startup.Fresh.{
  conntrack_create-fresh, stats_registry_init-Fresh, fresh-Agrees, datapath_run-Agrees,
}

module _ (n max_flows : ℕ) (fits : max_flows < 2 ^ 64) (small : n ≤ 2 ^ 31) (send : List ℕ → ℕ)
    (xxh64 : List ℕ → ℕ → ℕ) where
  abbrev In : Datapath → Type 0
  In = AgreesIn n max_flows fits small

  -- The datapath of an ending, where there is one.
  abbrev InAt : Option Datapath → Type 0
  InAt none = Unit
  InAt (some dp) = In dp

  module _ (env : Env) (cfg : Config) where
    after_run-Agrees :
        (log : List Action) (hc mh : Option Bool) (rc : Option ℕ) (dp : Datapath)
        (done_by_run : List Action)
        → In dp
        → InAt (after_run xxh64 send env log hc mh rc dp done_by_run).ran
    after_run-Agrees log hc mh none dp done_by_run a = a
    after_run-Agrees log hc mh (some rc) dp done_by_run a = a

    after_dashboard-Agrees :
        (tui : TuiEnv) (over : Bool) (rc : Option ℕ) (dp : Datapath)
        → In dp
        → In (after_dashboard tui over rc dp).dp
    after_dashboard-Agrees tui true (some rc) dp a = a
    after_dashboard-Agrees tui true none dp a = a
    after_dashboard-Agrees tui false rc dp a = a

    tui_thread-Agrees :
        (thread : Bool) (tui : TuiEnv) (dp : Datapath) (r : Run)
        → In dp
        → In r.dp
        → In (tui_thread thread tui dp r).dp
    tui_thread-Agrees false tui dp r a b = a
    tui_thread-Agrees true tui dp r a b =
        after_dashboard-Agrees tui (dashboard_over tui) (rc_of r.phase) r.dp b

    run_mode-Agrees :
        (tui_enabled : Bool) (tui : TuiEnv) (dp : Datapath) (r : Run)
        → In dp
        → In r.dp
        → In (run_mode tui_enabled tui dp r).dp
    unfolding run_mode
    run_mode-Agrees true tui dp r a b = tui_thread-Agrees tui.datapath_thread tui dp r a b
    run_mode-Agrees false tui dp r a b = b

    datapath-Agrees :
        (dp : Datapath) (log : List Action) (hc mh : Option Bool) (given : Bool)
        → In dp
        → InAt (with_datapath xxh64 send env cfg dp log hc mh given).ran
    datapath-Agrees dp log hc mh false a = tt
    datapath-Agrees dp log hc mh true a = after_run-Agrees log hc mh _ _ _ (
        run_mode-Agrees cfg.tui_enabled env.tui dp _ a (
          datapath_run-Agrees n max_flows fits small send xxh64 (datapath_config cfg) env.setup
            env.wakes dp a))

    threads-Agrees :
        (dp : Datapath) (hc : Option Bool) (m : Option Bool × List Action)
        → In dp
        → InAt (with_threads xxh64 send env cfg dp hc m).ran
    threads-Agrees dp hc (mh, started) a =
        datapath-Agrees dp
          (create manager
            ∷ create generator
            ∷ create conntrack
            ∷ create stats
            ∷ (health_log hc ++ started))
          hc mh env.datapath_given a

    stats-Agrees :
        (ct : ConntrackTable) (o : Option LbStats)
        → ((s : LbStats) → o ≡ some s → Agrees n max_flows ct s)
        → InAt (with_stats xxh64 send env cfg ct o).ran
    stats-Agrees ct none h = tt
    stats-Agrees ct (some s) h =
        threads-Agrees (record { table = ct; stats = s }) (start_health env)
          (start_metrics env cfg.metrics_port) (h s refl)

module _ (send : List ℕ → ℕ) (xxh64 : List ℕ → ℕ → ℕ) (env : Env) (cfg : Config)
    (few : cfg.max_flows < 2 ^ 49) (small : length cfg.backends ≤ 2 ^ 31) where
  abbrev Fine : Ending → Type 0
  Fine e = InAt (length cfg.backends) cfg.max_flows (omega (arith, few)) small send xxh64 e.ran

  conntrack-Fine :
      (r : Result ConntrackTable)
      → conntrack_create env.table_alloc cfg.max_flows ≡ r
      → Fine (with_conntrack xxh64 send env cfg r)
  conntrack-Fine (ok ct) e =
      let (b, some_b, empty) = conntrack_create-fresh env.table_alloc cfg.max_flows ct few e in
      stats-Agrees (length cfg.backends) cfg.max_flows (omega (arith, few)) small send xxh64 env cfg
        ct _
        (λ s given.
          let f = stats_registry_init-Fresh env.stats_given (length cfg.backends) s given in
          subst (λ x. Agrees (length cfg.backends) cfg.max_flows x s) empty
            (fresh-Agrees (length cfg.backends) cfg.max_flows b s some_b f.0 f.1))
  conntrack-Fine null e = tt
  conntrack-Fine stuck e = tt

  snapshot-Fine : (r : Result TableGenerator) → Fine (with_snapshot xxh64 send env cfg r)
  snapshot-Fine (ok tg) = conntrack-Fine _ refl
  snapshot-Fine null = tt
  snapshot-Fine stuck = tt

  generator-Fine :
      (bm : BackendManager) (given : Bool) → Fine (with_generator xxh64 send env cfg bm given)
  generator-Fine bm false = tt
  generator-Fine bm true = snapshot-Fine _

  backends-Fine : (o : Option BackendManager) → Fine (with_backends xxh64 send env cfg o)
  backends-Fine none = tt
  backends-Fine (some bm) = generator-Fine bm env.generator_given

  manager-Fine : (given : Bool) → Fine (with_manager xxh64 send env cfg given)
  manager-Fine false = tt
  manager-Fine true = backends-Fine _

  mac-Fine : (o : Option (List ℕ)) → Fine (with_mac xxh64 send env cfg o)
  mac-Fine none = tt
  mac-Fine (some mac) = manager-Fine env.manager_given

  sigmask-Fine : (b : Bool) → Fine (with_sigmask xxh64 send env cfg b)
  sigmask-Fine false = tt
  sigmask-Fine true = mac-Fine env.iface_mac

  prime-Fine : (b : Bool) → Fine (with_prime xxh64 send env cfg b)
  prime-Fine false = tt
  prime-Fine true = sigmask-Fine env.sigmask

  Fine-ran :
      (o : Option Datapath) (dp : Datapath)
      → InAt (length cfg.backends) cfg.max_flows (omega (arith, few)) small send xxh64 o
      → o ≡ some dp
      → Agrees (length cfg.backends) cfg.max_flows dp.table dp.stats
  Fine-ran none dp f e = absurd (ground (arith, e))
  Fine-ran (some x) dp f e =
      subst (λ d. Agrees (length cfg.backends) cfg.max_flows d.table d.stats) (same e) f
    where
      same : {x y : Datapath} → some x ≡ some y → x ≡ y
      same e = cc

-- With fewer than 2^49 flows configured, whatever the environment does: when the datapath has run,
-- from its start on an empty table to any point of its run or to its end, the flow table is valid
-- and the flow counter of every configured backend is the number of the entries pinned to it.
pub main-Agrees :
    (send : List ℕ → ℕ) (xxh64 : List ℕ → ℕ → ℕ) (env : Env) (inet_pton : List ℕ → Option ℕ)
    (strtol : List ℕ → Strtol) (opts : List Opt) (cfg : Config) (dp : Datapath)
    → config_parse_args inet_pton strtol opts ≡ done cfg
    → cfg.max_flows < 2 ^ 49
    → (main xxh64 send env inet_pton strtol opts).ran ≡ some dp
    → Agrees (length cfg.backends) cfg.max_flows dp.table dp.stats
unfolding main
main-Agrees send xxh64 env inet_pton strtol opts cfg dp parsed few ran =
    let r = config_parse_args-InRange inet_pton strtol opts cfg parsed in
    let small : length cfg.backends ≤ 2 ^ 31 = omega (arith, r.0.backends) in
    Fine-ran send xxh64 env cfg few small _ dp
      (prime-Fine send xxh64 env cfg few small (maglev_is_prime cfg.table_size))
      (ap (λ o. (with_config xxh64 send env o).ran) (sym parsed) ∙ ran)
