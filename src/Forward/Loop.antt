-- ===== src/Forward/Loop.antt =====
-- `datapath_run` of src/forward/datapath.c: the setup and the event loop.
--
-- The environment is an argument: which of the calls of the setup succeed, and what `epoll_wait`
-- gives each time, with what the handlers of a batch then read. The generator's reclaim after a
-- timer's event is a step of the generator.
use l4_maglev_lb.Common.{ℕ, Bool, true, false, not, ◌&&◌, Option, none, some, List, [], ◌∷◌}
use l4_maglev_lb.Maglev.Table.{RoutingSnapshot}
use l4_maglev_lb.Forward.Datapath.{DatapathConfig, Datapath, handle_packet, on_timer}

-- A descriptor that is ready: whether a whole `signalfd_siginfo` is read; the time at the timer's
-- event; the frame received with the time and the snapshot read while it is handled.
pub data Ready : Type 0 where
  signal : Bool → Ready
  timer : ℕ → Ready
  frame : Option RoutingSnapshot → List ℕ → ℕ → Ready

-- What `epoll_wait` gives.
pub data Wake : Type 0 where
  interrupted : Wake
  wait_failed : Wake
  ready : List Ready → Wake

-- Where the run is: it waits for the next event, or it has returned 0 or -1.
pub data Phase : Type 0 where
  waiting : Phase
  stopped : Phase
  failed : Phase

pub record Run : Type 0 where
  pub dp : Datapath
  pub is_running : Bool
  pub phase : Phase

-- Which calls succeed, in the order of the code; the address is what `raw_socket_get_mac` stores.
pub record Setup : Type 0 where
  pub raw_socket : Bool
  pub own_mac : Option (List ℕ)
  pub reaper_timer : Bool
  pub signal_mask : Bool
  pub signal_fd : Bool
  pub epoll_create : Bool
  pub epoll_socket : Bool
  pub epoll_timer : Bool
  pub epoll_signal : Bool

-- The descriptor and the three registrations.
abbrev pub setup_epoll : Setup → Bool
setup_epoll s = s.epoll_create && (s.epoll_socket && (s.epoll_timer && s.epoll_signal))

-- The test of `keep_running`, with the run that goes on.
abbrev pub after_batch : Bool → Datapath → Run → Run
after_batch true dp rest = rest
after_batch false dp rest = record { dp = dp; is_running = false; phase = stopped }

module _ (send : List ℕ → ℕ) (xxh64 : List ℕ → ℕ → ℕ) where
  -- The handler of one descriptor other than the signal's.
  unfoldable pub on_ready : DatapathConfig → Ready → Datapath → Datapath
  unfolding handle_packet on_timer
  on_ready cfg (signal whole) dp = dp
  on_ready cfg (timer now) dp = on_timer cfg now dp
  on_ready cfg (frame active rx now) dp = (handle_packet cfg send xxh64 now active rx dp).0

  -- One batch, and `keep_running` after it: the signal's descriptor ends the batch.
  unfoldable pub on_batch : DatapathConfig → List Ready → Datapath → Datapath × Bool
  unfolding on_ready
  on_batch cfg [] dp = (dp, true)
  on_batch cfg (signal whole ∷ rest) dp = (dp, not whole)
  on_batch cfg (timer now ∷ rest) dp = on_batch cfg rest (on_ready cfg (timer now) dp)
  on_batch cfg (frame active rx now ∷ rest) dp =
      on_batch cfg rest (on_ready cfg (frame active rx now) dp)

  unfoldable pub run_loop : DatapathConfig → List Wake → Datapath → Run
  unfolding on_batch
  run_loop cfg [] dp = record { dp = dp; is_running = true; phase = waiting }
  run_loop cfg (interrupted ∷ wakes) dp = run_loop cfg wakes dp
  run_loop cfg (wait_failed ∷ wakes) dp = record { dp = dp; is_running = false; phase = failed }
  run_loop cfg (ready batch ∷ wakes) dp =
      let done = on_batch cfg batch dp in
      let rest = run_loop cfg wakes done.0 in after_batch done.1 done.0 rest

  abbrev pub not_started : Datapath → Run
  not_started dp = record { dp = dp; is_running = false; phase = failed }

  -- After the address of the interface is read.
  abbrev pub set_up : DatapathConfig → Setup → List Wake → Datapath → Option (List ℕ) → Run
  set_up cfg s wakes dp none = not_started dp
  set_up cfg s wakes dp (some mac) = elim s.reaper_timer [
    | false ↦ not_started dp
    | true ↦ elim s.signal_mask [
      | false ↦ not_started dp
      | true ↦ elim s.signal_fd [
        | false ↦ not_started dp
        | true ↦ elim (setup_epoll s) [
          | false ↦ not_started dp
          | true ↦ run_loop (record cfg { own_mac = mac }) wakes dp
        ]
      ]
    ]
  ]

  unfoldable pub datapath_run : DatapathConfig → Setup → List Wake → Datapath → Run
  unfolding run_loop
  datapath_run cfg s wakes dp = elim s.raw_socket [
    | false ↦ not_started dp
    | true ↦ set_up cfg s wakes dp s.own_mac
  ]
