-- ===== src/Backend/Generator.antt =====
-- src/backend/table_generator.c: the routing snapshot in force, its rebuild, and the snapshots that
-- were swapped out and wait to be freed by the reader's thread.
use l4_maglev_lb.Common.{
  ℕ, ◌+◌, ◌*◌, Bool, Option, none, some, List, [], ◌∷◌, ◌++◌, map, ltb, ◌==◌, if◌then◌else◌, length,
  u64,
}
use l4_maglev_lb.Maglev.Table.{
  BackendView, RoutingSnapshot, Alloc, Result, ok, null, stuck, routing_snapshot_create,
}
use l4_maglev_lb.Backend.State.{Backend, BackendManager, backend_max}
use l4_maglev_lb.Backend.Manager.{
  backend_manager_snapshot_eligible, backend_manager_snapshot_routable, backend_manager_subscribe,
}

pub record TableGenerator : Type 0 where
  pub m : ℕ
  pub active : Option RoutingSnapshot
  pub generation : ℕ
  pub last_regen_us : ℕ
  pub retired : List RoutingSnapshot
  pub retired_cap : ℕ

unfoldable pub table_generator_create : ℕ → TableGenerator
table_generator_create m = record {
  m = m;
  active = none;
  generation = 0;
  last_regen_us = 0;
  retired = [];
  retired_cap = 0;
}

abbrev pub to_view : Backend → BackendView
to_view b = record { id = b.id; addr = b.addr; port = b.port; mac = b.mac }

unfoldable pub copy_views : List Backend → List BackendView
copy_views = map to_view

-- The capacity after the `realloc`, if one is due and memory is given.
abbrev pub grown_cap : Bool → TableGenerator → ℕ
grown_cap given tg =
    if length tg.retired == tg.retired_cap
    then if given then if tg.retired_cap == 0 then 8 else tg.retired_cap * 2 else tg.retired_cap
    else tg.retired_cap

-- The old snapshot is queued, or leaked where there is no room for it.
unfoldable pub retire : Bool → Option RoutingSnapshot → TableGenerator → TableGenerator
retire given none tg = tg
retire given (some old) tg =
    let cap = grown_cap given tg in
    if ltb (length tg.retired) cap
    then record tg { retired = tg.retired ++ old ∷ []; retired_cap = cap }
    else record tg { retired_cap = cap }

-- What follows `routing_snapshot_create`; `null` is -1.
abbrev pub install : Bool → ℕ → ℕ → TableGenerator → Result RoutingSnapshot → Result TableGenerator
install given elapsed new_generation tg null = null
install given elapsed new_generation tg stuck = stuck
install given elapsed new_generation tg (ok new_snap) = ok (
    retire given tg.active
      (record tg { active = some new_snap; generation = new_generation; last_regen_us = elapsed }))

module _ (xxh64 : List ℕ → ℕ → ℕ) where
  unfoldable pub table_generator_rebuild_and_install :
      Alloc → Bool → ℕ → BackendManager → TableGenerator → Result TableGenerator
  unfolding copy_views retire routing_snapshot_create backend_manager_snapshot_routable
      backend_manager_snapshot_eligible
  table_generator_rebuild_and_install alloc given elapsed bm tg =
      let routable = copy_views (backend_manager_snapshot_routable bm backend_max) in
      let eligible = copy_views (backend_manager_snapshot_eligible bm backend_max) in
      let new_generation = u64 (tg.generation + 1) in
      install given elapsed new_generation tg
        (routing_snapshot_create xxh64 alloc routable eligible tg.m new_generation)

-- What is left, and the snapshots that are freed.
unfoldable pub table_generator_reclaim : TableGenerator → TableGenerator × List RoutingSnapshot
table_generator_reclaim tg = (record tg { retired = []; retired_cap = 0 }, tg.retired)

unfoldable pub table_generator_install_as_subscriber : BackendManager → BackendManager
unfolding backend_manager_subscribe
table_generator_install_as_subscriber bm = backend_manager_subscribe bm

unfoldable pub table_generator_get_active : TableGenerator → Option RoutingSnapshot
table_generator_get_active tg = tg.active

unfoldable pub table_generator_last_regen_us : TableGenerator → ℕ
table_generator_last_regen_us tg = tg.last_regen_us

unfoldable pub table_generator_generation : TableGenerator → ℕ
table_generator_generation tg = tg.generation
