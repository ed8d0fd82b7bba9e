-- ===== src/Startup/Cleanup.antt =====
-- What src/main.c leaves behind, on every way out.
use l4_maglev_lb.Common.{
  ℕ, zero, suc, ◌≡◌, refl, sym, subst, Bool, true, false, Option, none, some, List, [], ◌∷◌, inl,
  inr, if◌then◌else◌, Bool-cases, arith, ◌++◌,
}
use l4_maglev_lb.Maglev.Table.{Result, ok, null, stuck}
use l4_maglev_lb.Maglev.Prime.{maglev_is_prime}
use l4_maglev_lb.Backend.State.{BackendManager}
use l4_maglev_lb.Backend.Generator.{TableGenerator}
use l4_maglev_lb.Conntrack.Table.{ConntrackTable}
use l4_maglev_lb.Stats.{LbStats}
use l4_maglev_lb.Config.Parse.{
  Config, Opt, Outcome, Strtol, done, helped, failed, config_parse_args,
}
use l4_maglev_lb.Forward.Datapath.{Datapath}
use l4_maglev_lb.Startup.Threads.{
  manager, generator, conntrack, stats, metrics, datapath, Action, create, start, destroy, run_mode,
}
use l4_maglev_lb.Startup.Wiring.{
  datapath_config, Env, Ending, start_health, start_metrics, health_log, cleanup, Held, after_run,
  with_datapath, with_threads, with_stats, with_conntrack, with_snapshot, with_backends,
  with_manager, with_mac, with_generator, with_sigmask, with_prime, with_config, main,
}
use l4_maglev_lb.Startup.Checker.{
  Status, absent, alive, running, World, none_there, play, health_started, IsClean,
}
use l4_maglev_lb.Startup.Joined.{idle, Neutral, middle-IsClean, run_mode-Neutral}
use l4_maglev_lb.Forward.Loop.{datapath_run}
use mathlib.Core.List.{append_assoc}

abbrev CleanAt : Option ℕ → List Action → Type 0
CleanAt none log = Unit
CleanAt (some code) log = IsClean log

abbrev Clean : Ending → Type 0
Clean e = CleanAt e.exit e.log

clean :
    {log : List Action}
    → play false log none_there ≡ some none_there
    → play true log none_there ≡ (if health_started log then none else some none_there)
    → IsClean log
clean c o = record { complete = c; ordered = o }

data Endpoint : Type 0 where
  no_endpoint given_up serving : Endpoint

abbrev endpoint : Endpoint → Option Bool × List Action
endpoint no_endpoint = (none, [])
endpoint given_up = (none, create metrics ∷ destroy metrics ∷ [])
endpoint serving = (some true, create metrics ∷ start metrics ∷ [])

start_metrics-endpoint :
    (env : Env) (port : ℕ) → (p : Endpoint) × (start_metrics env port ≡ endpoint p)
start_metrics-endpoint env zero = (no_endpoint, refl)
start_metrics-endpoint env (suc port) = elim (Bool-cases env.metrics_given) [
  | inr lacking ↦ (no_endpoint, rw lacking refl)
  | inl given ↦ elim (Bool-cases env.metrics_starts) [
    | inr idle ↦ (given_up, rw (given, idle) refl)
    | inl starts ↦ (serving, rw (given, starts) refl)
  ]
]

abbrev all_held : Bool → Option Bool → Option Bool → Held
all_held dp hc mh = record {
  dp = dp;
  mh = mh;
  stats_initialized = true;
  ct = true;
  hc = hc;
  tg = true;
  bm = true;
}

abbrev log_with : Option Bool → Endpoint → List Action
log_with hc p =
    create manager
    ∷ create generator
    ∷ create conntrack
    ∷ create stats
    ∷ (health_log hc ++ (endpoint p).1)

-- The cleanup after the threads, with a datapath and without.
full-IsClean :
    (hc : Option Bool) (p : Endpoint)
    → IsClean
        ((log_with hc p ++ (create datapath ∷ [])) ++ cleanup (all_held true hc (endpoint p).0))
full-IsClean none no_endpoint = clean refl refl
full-IsClean none given_up = clean refl refl
full-IsClean none serving = clean refl refl
full-IsClean (some false) no_endpoint = clean refl refl
full-IsClean (some false) given_up = clean refl refl
full-IsClean (some false) serving = clean refl refl
full-IsClean (some true) no_endpoint = clean refl refl
full-IsClean (some true) given_up = clean refl refl
full-IsClean (some true) serving = clean refl refl

no_datapath-IsClean :
    (hc : Option Bool) (p : Endpoint)
    → IsClean (log_with hc p ++ cleanup (all_held false hc (endpoint p).0))
no_datapath-IsClean none no_endpoint = clean refl refl
no_datapath-IsClean none given_up = clean refl refl
no_datapath-IsClean none serving = clean refl refl
no_datapath-IsClean (some false) no_endpoint = clean refl refl
no_datapath-IsClean (some false) given_up = clean refl refl
no_datapath-IsClean (some false) serving = clean refl refl
no_datapath-IsClean (some true) no_endpoint = clean refl refl
no_datapath-IsClean (some true) given_up = clean refl refl
no_datapath-IsClean (some true) serving = clean refl refl

-- The components that are there when the datapath has been created.
abbrev health_status : Option Bool → Status
health_status none = absent
health_status (some started) = if started then running else alive

abbrev endpoint_status : Endpoint → Status
endpoint_status serving = running
endpoint_status _ = absent

abbrev before_run : Option Bool → Endpoint → World
before_run hc p = record none_there {
  w_manager = alive;
  w_generator = alive;
  w_conntrack = alive;
  w_stats = alive;
  w_health = health_status hc;
  w_metrics = endpoint_status p;
}

plays_before :
    (hc : Option Bool) (p : Endpoint) (strict : Bool)
    → play strict (log_with hc p ++ (create datapath ∷ [])) none_there
      ≡ some (idle (before_run hc p))
plays_before none no_endpoint strict = refl
plays_before none given_up strict = refl
plays_before none serving strict = refl
plays_before (some false) no_endpoint strict = refl
plays_before (some false) given_up strict = refl
plays_before (some false) serving strict = refl
plays_before (some true) no_endpoint strict = refl
plays_before (some true) given_up strict = refl
plays_before (some true) serving strict = refl

ran-IsClean :
    (hc : Option Bool) (p : Endpoint) (done_by_run : List Action)
    → Neutral done_by_run
    → IsClean (
        (log_with hc p ++ create datapath ∷ done_by_run)
        ++ cleanup (all_held true hc (endpoint p).0))
ran-IsClean hc p done_by_run n =
    subst (λ log. IsClean (log ++ cleanup (all_held true hc (endpoint p).0)))
      (append_assoc (log_with hc p) (create datapath ∷ []) done_by_run)
      (middle-IsClean (log_with hc p ++ (create datapath ∷ [])) done_by_run
        (cleanup (all_held true hc (endpoint p).0)) n (before_run hc p) (plays_before hc p)
        (full-IsClean hc p))

module _ (xxh64 : List ℕ → ℕ → ℕ) (send : List ℕ → ℕ) (env : Env) where
  after_run-Clean :
      (hc : Option Bool) (p : Endpoint) (rc : Option ℕ) (dp : Datapath) (done_by_run : List Action)
      → ((code : ℕ) → rc ≡ some code → Neutral done_by_run)
      → Clean (after_run xxh64 send env (log_with hc p) hc (endpoint p).0 rc dp done_by_run)
  after_run-Clean hc p none dp done_by_run n = tt
  after_run-Clean hc p (some rc) dp done_by_run n = ran-IsClean hc p done_by_run (n rc refl)

  datapath-Clean :
      (cfg : Config) (dp : Datapath) (hc : Option Bool) (p : Endpoint) (given : Bool)
      → Clean (with_datapath xxh64 send env cfg dp (log_with hc p) hc (endpoint p).0 given)
  datapath-Clean cfg dp hc p false = no_datapath-IsClean hc p
  datapath-Clean cfg dp hc p true =
      let run = datapath_run send xxh64 (datapath_config cfg) env.setup env.wakes dp in
      let r = run_mode cfg.tui_enabled env.tui dp run in
      after_run-Clean hc p r.rc r.dp r.log (run_mode-Neutral cfg.tui_enabled env.tui dp run)

  stats-Clean :
      (cfg : Config) (ct : ConntrackTable) (s : Option LbStats)
      → Clean (with_stats xxh64 send env cfg ct s)
  stats-Clean cfg ct none = clean refl refl
  stats-Clean cfg ct (some s) =
      let (p, e) = start_metrics-endpoint env cfg.metrics_port in
      subst
        (λ m.
          Clean (
            with_threads xxh64 send env cfg (record { table = ct; stats = s }) (start_health env)
              m))
        (sym e)
        (datapath-Clean cfg (record { table = ct; stats = s }) (start_health env) p
          env.datapath_given)

  conntrack-Clean :
      (cfg : Config) (r : Result ConntrackTable) → Clean (with_conntrack xxh64 send env cfg r)
  conntrack-Clean cfg (ok ct) = stats-Clean cfg ct _
  conntrack-Clean cfg null = clean refl refl
  conntrack-Clean cfg stuck = tt

  snapshot-Clean :
      (cfg : Config) (r : Result TableGenerator) → Clean (with_snapshot xxh64 send env cfg r)
  snapshot-Clean cfg (ok tg) = conntrack-Clean cfg _
  snapshot-Clean cfg null = clean refl refl
  snapshot-Clean cfg stuck = tt

  generator-Clean :
      (cfg : Config) (bm : BackendManager) (given : Bool)
      → Clean (with_generator xxh64 send env cfg bm given)
  generator-Clean cfg bm false = clean refl refl
  generator-Clean cfg bm true = snapshot-Clean cfg _

  backends-Clean :
      (cfg : Config) (o : Option BackendManager) → Clean (with_backends xxh64 send env cfg o)
  backends-Clean cfg none = clean refl refl
  backends-Clean cfg (some bm) = generator-Clean cfg bm env.generator_given

  manager-Clean : (cfg : Config) (given : Bool) → Clean (with_manager xxh64 send env cfg given)
  manager-Clean cfg false = clean refl refl
  manager-Clean cfg true = backends-Clean cfg _

  mac-Clean : (cfg : Config) (o : Option (List ℕ)) → Clean (with_mac xxh64 send env cfg o)
  mac-Clean cfg none = clean refl refl
  mac-Clean cfg (some mac) = manager-Clean cfg env.manager_given

  sigmask-Clean : (cfg : Config) (b : Bool) → Clean (with_sigmask xxh64 send env cfg b)
  sigmask-Clean cfg false = clean refl refl
  sigmask-Clean cfg true = mac-Clean cfg env.iface_mac

  prime-Clean : (cfg : Config) (b : Bool) → Clean (with_prime xxh64 send env cfg b)
  prime-Clean cfg false = clean refl refl
  prime-Clean cfg true = sigmask-Clean cfg env.sigmask

  config-Clean : (o : Outcome) → Clean (with_config xxh64 send env o)
  config-Clean helped = clean refl refl
  config-Clean failed = clean refl refl
  config-Clean (done cfg) = prime-Clean cfg (maglev_is_prime cfg.table_size)

  exit-IsClean :
      (o : Option ℕ) (code : ℕ) (log : List Action) → o ≡ some code → CleanAt o log → IsClean log
  exit-IsClean none code log e c = absurd (ground (arith, e))
  exit-IsClean (some x) code log e c = c

  -- Whenever `main` returns, whatever call has failed before, with the dashboard and without: every
  -- component that was created has been destroyed, once, and each thread that was started was joined,
  -- once, before its component was destroyed. That goes for the health checker's thread, that of the
  -- metrics, and those that run the datapath beside the dashboard and wait for it. Nothing was
  -- destroyed that the latter two still use, nor that the others use if the health thread was never
  -- started; if it was, something was.
  pub main-IsClean :
      (inet_pton : List ℕ → Option ℕ) (strtol : List ℕ → Strtol) (opts : List Opt) (code : ℕ)
      → (main xxh64 send env inet_pton strtol opts).exit ≡ some code
      → IsClean (main xxh64 send env inet_pton strtol opts).log
  unfolding main
  main-IsClean inet_pton strtol opts code e =
      exit-IsClean _ code _ e (config-Clean (config_parse_args inet_pton strtol opts))
