-- ===== src/Startup/Joined.antt =====
-- What `run_with_tui` of src/main.c starts, it joins: its actions leave the components as they were.
use l4_maglev_lb.Common.{
  ℕ, ◌≡◌, refl, sym, ap, ◌∙◌, Bool, true, false, ◌||◌, ◌&&◌, arith, if◌then◌else◌, Option, none,
  some, List, [], ◌∷◌, ◌++◌,
}
use l4_maglev_lb.Forward.Datapath.{Datapath}
use l4_maglev_lb.Forward.Loop.{Run}
use l4_maglev_lb.Startup.Threads.{
  datapath, stop_event, Action, create, start, destroy, spawn_joiner, run_dashboard, ask_stop, when,
  join_step, TuiEnv, tui_opens, tui_closes, dashboard_over, rc_of, after_dashboard, tui_thread,
  run_mode,
}
use l4_maglev_lb.Startup.Checker.{
  World, alive, absent, none_there, do_action, play, starts_health, health_started, IsClean,
}

abbrev play_rest : Bool → List Action → Option World → Option World
play_rest strict ys none = none
play_rest strict ys (some w) = play strict ys w

play-append :
    (strict : Bool) (xs ys : List Action) (w : World)
    → play strict (xs ++ ys) w ≡ play_rest strict ys (play strict xs w)
play-append strict [] ys w = refl
play-append strict (x ∷ xs) ys w = by_cases (do_action strict x w) (play-append strict xs ys)
  where
    by_cases :
        (o : Option World)
        → ((w' : World) → play strict (xs ++ ys) w' ≡ play_rest strict ys (play strict xs w'))
        → elim o [ none ↦ none | some w' ↦ play strict (xs ++ ys) w' ]
          ≡ play_rest strict ys (elim o [ none ↦ none | some w' ↦ play strict xs w' ])
    by_cases none rest = refl
    by_cases (some w') rest = rest w'

health_started-append :
    (xs ys : List Action) → health_started (xs ++ ys) ≡ (health_started xs || health_started ys)
health_started-append [] ys = refl
health_started-append (x ∷ xs) ys =
    shift (starts_health x) _ (health_started xs) (health_started ys) (health_started-append xs ys)
  where
    shift : (b c d e : Bool) → c ≡ (d || e) → (b || c) ≡ ((b || d) || e)
    shift true c d e h = refl
    shift false c d e h = h

-- A world in which the datapath is there and `run_with_tui` has not begun, or is over.
abbrev pub idle : World → World
idle w = record w { w_datapath = alive; w_stop_event = absent; w_joiner = absent }

-- Actions that leave such a world as it was, and do not start the health thread.
pub record Neutral (log : List Action) : Type 0 where
  pub plays : (strict : Bool) (w : World) → play strict log (idle w) ≡ some (idle w)
  pub quiet : health_started log ≡ false

neutral :
    {log : List Action}
    → ((strict : Bool) (w : World) → play strict log (idle w) ≡ some (idle w))
    → health_started log ≡ false
    → Neutral log
neutral p q = record { plays = p; quiet = q }

tui-Neutral : (env : TuiEnv) → Neutral (tui_opens env ++ tui_closes env)
tui-Neutral env = by_cases env.stop_fd env.joiner_thread env.dashboard_given env.still_running
  where
    actions : Bool → Bool → Bool → Bool → List Action
    actions fd joiner shown runs =
        (start datapath
          ∷ (when fd (create stop_event)
              ++ (when (fd && joiner) spawn_joiner ++ when shown run_dashboard)))
        ++ (when runs ask_stop ++ (join_step (fd && joiner) ∷ when fd (destroy stop_event)))

    by_cases : (fd joiner shown runs : Bool) → Neutral (actions fd joiner shown runs)
    by_cases true true true true = neutral (λ strict w. refl) refl
    by_cases true true true false = neutral (λ strict w. refl) refl
    by_cases true true false true = neutral (λ strict w. refl) refl
    by_cases true true false false = neutral (λ strict w. refl) refl
    by_cases true false true true = neutral (λ strict w. refl) refl
    by_cases true false true false = neutral (λ strict w. refl) refl
    by_cases true false false true = neutral (λ strict w. refl) refl
    by_cases true false false false = neutral (λ strict w. refl) refl
    by_cases false true true true = neutral (λ strict w. refl) refl
    by_cases false true true false = neutral (λ strict w. refl) refl
    by_cases false true false true = neutral (λ strict w. refl) refl
    by_cases false true false false = neutral (λ strict w. refl) refl
    by_cases false false true true = neutral (λ strict w. refl) refl
    by_cases false false true false = neutral (λ strict w. refl) refl
    by_cases false false false true = neutral (λ strict w. refl) refl
    by_cases false false false false = neutral (λ strict w. refl) refl

after_dashboard-Neutral :
    (env : TuiEnv) (over : Bool) (rc : Option ℕ) (dp : Datapath) (code : ℕ)
    → (after_dashboard env over rc dp).rc ≡ some code
    → Neutral (after_dashboard env over rc dp).log
after_dashboard-Neutral env true (some rc) dp code e = tui-Neutral env
after_dashboard-Neutral env true none dp code e = absurd (ground (arith, e))
after_dashboard-Neutral env false rc dp code e = absurd (ground (arith, e))

nothing-Neutral : Neutral []
nothing-Neutral = neutral (λ strict w. refl) refl

tui_thread-Neutral :
    (thread : Bool) (env : TuiEnv) (dp : Datapath) (r : Run) (code : ℕ)
    → (tui_thread thread env dp r).rc ≡ some code
    → Neutral (tui_thread thread env dp r).log
tui_thread-Neutral false env dp r code e = nothing-Neutral
tui_thread-Neutral true env dp r code e =
    after_dashboard-Neutral env (dashboard_over env) (rc_of r.phase) r.dp code e

-- Where the run has returned, its threads are joined and the descriptor is closed.
pub run_mode-Neutral :
    (tui_enabled : Bool) (env : TuiEnv) (dp : Datapath) (r : Run) (code : ℕ)
    → (run_mode tui_enabled env dp r).rc ≡ some code
    → Neutral (run_mode tui_enabled env dp r).log
unfolding run_mode
run_mode-Neutral true env dp r code e = tui_thread-Neutral env.datapath_thread env dp r code e
run_mode-Neutral false env dp r code e = nothing-Neutral

-- Neutral actions in the middle change nothing of the whole.
module _ (xs ys zs : List Action) (n : Neutral ys) where
  play-Neutral :
      (strict : Bool) (w : World)
      → play strict xs none_there ≡ some (idle w)
      → play strict ((xs ++ ys) ++ zs) none_there ≡ play strict (xs ++ zs) none_there
  play-Neutral strict w arrives =
      rw
        (
          play-append strict (xs ++ ys) zs none_there,
          play-append strict xs ys none_there,
          play-append strict xs zs none_there,
          arrives,
          n.plays strict w,
        )
        refl

  health-Neutral : health_started ((xs ++ ys) ++ zs) ≡ health_started (xs ++ zs)
  health-Neutral =
      rw
        (
          health_started-append (xs ++ ys) zs,
          health_started-append xs ys,
          health_started-append xs zs,
          n.quiet,
        )
        (ap (λ b. b || health_started zs) (or_false (health_started xs)))
    where
      or_false : (b : Bool) → (b || false) ≡ b
      or_false true = refl
      or_false false = refl

  pub middle-IsClean :
      (w : World)
      → ((strict : Bool) → play strict xs none_there ≡ some (idle w))
      → IsClean (xs ++ zs)
      → IsClean ((xs ++ ys) ++ zs)
  middle-IsClean w arrives h = record {
    complete = play-Neutral false w (arrives false) ∙ h.complete;
    ordered =
        play-Neutral true w (arrives true)
        ∙ (h.ordered ∙ ap (λ b. if b then none else some none_there) (sym health-Neutral));
  }
