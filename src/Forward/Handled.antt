-- ===== src/Forward/Handled.antt =====
-- The order in which the event loop of src/forward/datapath.c handles what becomes ready.
use l4_maglev_lb.Common.{ℕ, ◌≡◌, refl, sym, ap, ◌∙◌, Bool, true, false, not, List, [], ◌∷◌, ◌++◌}
use l4_maglev_lb.Forward.Datapath.{DatapathConfig, Datapath}
use l4_maglev_lb.Forward.Loop.{
  Ready, signal, timer, frame, Wake, interrupted, wait_failed, ready, on_ready, on_batch,
  after_batch, run_loop,
}

-- What comes before the signal in a batch.
abbrev pub before_signal : List Ready → List Ready
before_signal [] = []
before_signal (signal whole ∷ rest) = []
before_signal (timer now ∷ rest) = timer now ∷ before_signal rest
before_signal (frame active rx now ∷ rest) = frame active rx now ∷ before_signal rest

-- Whether a batch has no signal that is read whole before another signal.
abbrev pub goes_on : List Ready → Bool
goes_on [] = true
goes_on (signal whole ∷ rest) = not whole
goes_on (timer now ∷ rest) = goes_on rest
goes_on (frame active rx now ∷ rest) = goes_on rest

abbrev pub unless_stopped : Bool → List Ready → List Ready
unless_stopped true es = es
unless_stopped false es = []

abbrev pub handled : List Wake → List Ready
handled [] = []
handled (interrupted ∷ wakes) = handled wakes
handled (wait_failed ∷ wakes) = []
handled (ready batch ∷ wakes) =
    before_signal batch ++ unless_stopped (goes_on batch) (handled wakes)

module _ (send : List ℕ → ℕ) (xxh64 : List ℕ → ℕ → ℕ) (cfg : DatapathConfig) where
  unfoldable pub run_ready : List Ready → Datapath → Datapath
  unfolding on_ready
  run_ready [] dp = dp
  run_ready (e ∷ es) dp = run_ready es (on_ready send xxh64 cfg e dp)

  run_ready-append :
      (es fs : List Ready) (dp : Datapath)
      → run_ready (es ++ fs) dp ≡ run_ready fs (run_ready es dp)
  unfolding run_ready
  run_ready-append [] fs dp = refl
  run_ready-append (e ∷ es) fs dp = run_ready-append es fs (on_ready send xxh64 cfg e dp)

  on_batch-handled :
      (batch : List Ready) (dp : Datapath)
      → ((on_batch send xxh64 cfg batch dp).0 ≡ run_ready (before_signal batch) dp)
        × ((on_batch send xxh64 cfg batch dp).1 ≡ goes_on batch)
  unfolding on_batch run_ready
  on_batch-handled [] dp = (refl, refl)
  on_batch-handled (signal whole ∷ rest) dp = (refl, refl)
  on_batch-handled (timer now ∷ rest) dp =
      on_batch-handled rest (on_ready send xxh64 cfg (timer now) dp)
  on_batch-handled (frame active rx now ∷ rest) dp =
      on_batch-handled rest (on_ready send xxh64 cfg (frame active rx now) dp)

  -- The loop handles what is ready in order: in a batch all that comes before the signal, and
  -- after a signal that is read whole, or a failure of `epoll_wait`, nothing more.
  pub run_loop-handled :
      (wakes : List Wake) (dp : Datapath)
      → (run_loop send xxh64 cfg wakes dp).dp ≡ run_ready (handled wakes) dp
  unfolding run_loop run_ready
  run_loop-handled [] dp = refl
  run_loop-handled (interrupted ∷ wakes) dp = run_loop-handled wakes dp
  run_loop-handled (wait_failed ∷ wakes) dp = refl
  run_loop-handled (ready batch ∷ wakes) dp =
      let (state, more) = on_batch-handled batch dp in
      ap (λ b. (after_batch b done.0 (run_loop send xxh64 cfg wakes done.0)).dp) more
      ∙ settled (goes_on batch) state (run_loop-handled wakes done.0)
    where
      done : Datapath × Bool
      done = on_batch send xxh64 cfg batch dp

      settled :
          (on : Bool)
          → done.0 ≡ run_ready (before_signal batch) dp
          → (run_loop send xxh64 cfg wakes done.0).dp ≡ run_ready (handled wakes) done.0
          → (after_batch on done.0 (run_loop send xxh64 cfg wakes done.0)).dp
            ≡ run_ready (before_signal batch ++ unless_stopped on (handled wakes)) dp
      settled true state rest =
          rest
          ∙ (ap (run_ready (handled wakes)) state
              ∙ sym (run_ready-append (before_signal batch) (handled wakes) dp))
      settled false state rest = state ∙ sym (run_ready-append (before_signal batch) [] dp)
