-- ===== src/Startup/Tests.antt =====
-- The theorems on src/main.c at a start that succeeds, with the health thread and the
-- dashboard, and runs into a signal.
use l4_maglev_lb.Common.{◌≡◌, refl, true, false, some, List, [], ◌∷◌, arith, length, replicate}
use l4_maglev_lb.Net.Key.{FlowKey}
use l4_maglev_lb.Maglev.Prime.{maglev_is_prime}
use l4_maglev_lb.Maglev.Table.{RoutingSnapshot, ok}
use l4_maglev_lb.Backend.State.{BackendManager, zero_slot, backend_manager_create}
use l4_maglev_lb.Backend.Manager.{fresh_backend}
use l4_maglev_lb.Backend.Generator.{TableGenerator, table_generator_install_as_subscriber}
use l4_maglev_lb.Backend.Rebuild.{Reaches}
use l4_maglev_lb.Maglev.Cycle.{slot_of}
use l4_maglev_lb.Maglev.Tests.{sum_hash}
use l4_maglev_lb.Config.Parse.{Config, Opt, done, default_config, config_parse_args}
use l4_maglev_lb.Config.Tests.{sample_pton, sample_strtol}
use l4_maglev_lb.Conntrack.Table.{empty_conntrack}
use l4_maglev_lb.Stats.{zero_counters, zero_per_backend}
use l4_maglev_lb.Forward.Datapath.{Datapath}
use l4_maglev_lb.Forward.Loop.{signal, ready}
use l4_maglev_lb.Forward.Flows.{Agrees}
use l4_maglev_lb.Startup.Wiring.{Env, add_backends, first_table, main}
use l4_maglev_lb.Startup.Checker.{IsClean}
use l4_maglev_lb.Startup.Cleanup.{main-IsClean}
use l4_maglev_lb.Startup.Ready.{main-Agrees}
use l4_maglev_lb.Startup.Routes.{first_table-routes}

abbrev sample_line : List Opt
sample_line =
    Opt.iface (101 ∷ [])
    ∷ Opt.vip (1 ∷ [])
    ∷ Opt.director_ip (2 ∷ [])
    ∷ Opt.table_size (3 ∷ [])
    ∷ Opt.max_flows (2 ∷ [])
    ∷ Opt.backend (7 ∷ 58 ∷ 80 ∷ [])
    ∷ Opt.tui
    ∷ []

abbrev sample_config : Config
sample_config = record default_config {
  iface = 101 ∷ [];
  vip = 1;
  director_ip = 2;
  table_size = 3;
  max_flows = 2;
  tui_enabled = true;
  backends = record { addr = 7; port = 80 } ∷ [];
}

accepted : config_parse_args sample_pton sample_strtol sample_line ≡ done sample_config
unfolding config_parse_args
accepted = refl

abbrev sample_env : Env
sample_env = record {
  sigmask = true;
  iface_mac = some (replicate 6 2);
  manager_given = true;
  arp = λ i. some (replicate 6 3);
  generator_given = true;
  snapshot_alloc = record {
    table = true;
    lookup = true;
    scratch = true;
    snapshot = true;
    copy = true;
  };
  retired_given = true;
  regen_us = 5;
  table_alloc = record { table = true; buckets = true; slab = true };
  stats_given = true;
  health_given = true;
  health_starts = true;
  metrics_given = true;
  metrics_starts = true;
  datapath_given = true;
  tui = record {
    datapath_thread = true;
    stop_fd = true;
    joiner_thread = true;
    dashboard_given = true;
    turns = record { stop_ready = false; key = some b'q'; dp_running = true } ∷ [];
    still_running = true;
  };
  setup = record {
    raw_socket = true;
    own_mac = some (replicate 6 2);
    reaper_timer = true;
    signal_mask = true;
    signal_fd = true;
    epoll_create = true;
    epoll_socket = true;
    epoll_timer = true;
    epoll_signal = true;
  };
  wakes = ready (signal true ∷ []) ∷ [];
}

abbrev start_state : Datapath
start_state = record {
  table = empty_conntrack 2 4;
  stats = record { counters = zero_counters; backends = zero_per_backend ∷ []; max_backends = 1 };
}

returned : (main sum_hash length sample_env sample_pton sample_strtol sample_line).exit ≡ some 0
unfolding main slot_of
returned = refl

ran : (main sum_hash length sample_env sample_pton sample_strtol sample_line).ran ≡ some start_state
unfolding main slot_of
ran = refl

main-IsClean_example :
    IsClean (main sum_hash length sample_env sample_pton sample_strtol sample_line).log
main-IsClean_example =
    main-IsClean sum_hash length sample_env sample_pton sample_strtol sample_line 0 returned

main-Agrees_example : Agrees 1 2 start_state.table start_state.stats
main-Agrees_example =
    main-Agrees length sum_hash sample_env sample_pton sample_strtol sample_line sample_config
      start_state accepted (omega arith) ran

-- The manager once the backend of the line stands in its first slot.
abbrev sample_manager : BackendManager
sample_manager = record {
  slots =
      record {
        used = true;
        backend = record (fresh_backend 0 7 80) { mac = replicate 6 3; mac_resolved = true };
      }
      ∷ replicate 63 zero_slot;
  next_id = 1;
  subscribed = false;
}

three : maglev_is_prime 3 ≡ true
unfolding maglev_is_prime
three = refl

sample_added :
    add_backends sample_env.arp 0 sample_config.backends backend_manager_create
    ≡ some sample_manager
unfolding add_backends backend_manager_create
sample_added = refl

first_table-routes_example :
    (snap : RoutingSnapshot) × (tg : TableGenerator) × (first_table sum_hash length sample_env
        sample_config sample_manager
      ≡ ok tg)
    × (tg.active ≡ some snap)
    × (tg.generation ≡ 1)
    × (snap.generation ≡ 1)
    × ((key : FlowKey)
        → Reaches sum_hash (table_generator_install_as_subscriber sample_manager) snap key)
first_table-routes_example =
    first_table-routes sum_hash length sample_env sample_pton sample_strtol sample_line
      sample_config sample_manager accepted three sample_added ((refl, refl, refl), refl, refl)
