-- ===== src/Ui/Tests.antt =====
-- The theorems on src/ui at a balancer with one backend.
use l4_maglev_lb.Common.{ℕ, ◌≤◌, ◌<◌, ◌≡◌, refl, true, some, List, [], ◌∷◌, length, replicate}
use l4_maglev_lb.Backend.State.{BackendManager, backend_max, backend_manager_create}
use l4_maglev_lb.Backend.Manager.{
  backend_manager_add, backend_manager_set_mac, backend_manager_snapshot_eligible,
}
use l4_maglev_lb.Backend.Generator.{table_generator_create}
use l4_maglev_lb.Conntrack.Table.{empty_conntrack}
use l4_maglev_lb.Stats.{zero_counters, zero_per_backend}
use l4_maglev_lb.Ui.Metrics.{MetricsHttp, all_backends, all_rendered, metrics_lines, count_eligible}
use l4_maglev_lb.Ui.Fits.{joined}
use l4_maglev_lb.Ui.Eligible.{count_eligible-length}
use l4_maglev_lb.Ui.Http.{handle_client, header_text, handle_client-whole}

abbrev sample_manager : BackendManager
sample_manager =
    (backend_manager_set_mac (backend_manager_add backend_manager_create 7 80).0 0
      (replicate 6 3)).0

sample_slots : length sample_manager.slots ≡ backend_max
unfolding backend_manager_create backend_manager_add backend_manager_set_mac
sample_slots = refl

abbrev sample_http : MetricsHttp
sample_http = record {
  start_time = 5;
  table_size = 7;
  configured_backends = 1;
  bm = sample_manager;
  tg = table_generator_create 7;
  ct = empty_conntrack 2 4;
  stats = record { counters = zero_counters; backends = zero_per_backend ∷ []; max_backends = 1 };
}

one_eligible : count_eligible (all_backends sample_http) ≡ 1
unfolding count_eligible all_backends backend_manager_create backend_manager_add
    backend_manager_set_mac
one_eligible = refl

count_eligible-length_example :
    count_eligible (all_backends sample_http)
    ≡ length (backend_manager_snapshot_eligible sample_manager backend_max)
count_eligible-length_example = count_eligible-length sample_http sample_slots

handle_client-whole_example :
    (body : List ℕ) × (handle_client true sample_http ≡ some (header_text (length body), body))
    × (body ≡ joined (all_rendered (all_backends sample_http) (metrics_lines sample_http)))
    × (length body ≤ 65908)
    × (length (header_text (length body)) < 256)
handle_client-whole_example = handle_client-whole sample_http
