-- ===== src/Startup/Routes.antt =====
-- The first table of src/main.c: the backends that are configured make one in which every flow has a
-- backend.
use l4_maglev_lb.Common.{
  ℕ, suc, ◌+◌, ◌*◌, ◌^◌, ◌≤◌, ◌<◌, ◌≡◌, refl, sym, ap, ◌∙◌, subst, Bool, true, false, Option, none,
  some, List, [], ◌∷◌, arith, ◌==◌, ==_refl, to_nat, length, length-map, count, count-le-length,
  uint32_max,
}
use native.Mathlib.Decide.{ℕ_discrete}
use l4_maglev_lb.Net.Key.{FlowKey}
use l4_maglev_lb.Maglev.Prime.{maglev_is_prime, maglev_is_prime-IsPrime}
use l4_maglev_lb.Maglev.Table.{RoutingSnapshot, GivenSnapshot, ok}
use l4_maglev_lb.Backend.State.{Backend, BackendManager, backend_max, backend_manager_create}
use l4_maglev_lb.Backend.Manager.{
  is_eligible, fresh_backend, backend_manager_add, backend_manager_set_mac,
  backend_manager_snapshot_eligible,
}
use l4_maglev_lb.Backend.View.{view, live}
use l4_maglev_lb.Backend.Refines.{some_is, set_mac-reads}
use l4_maglev_lb.Backend.Invariant.{IsValid}
use l4_maglev_lb.Backend.Add.{
  add, set_mac, subscribe, run_op, run_op-next_id, run_op-IsValid, create-IsValid, length-live,
  add-reads, add-full,
}
use l4_maglev_lb.Backend.Snapshots.{ids_in, snapshots_select}
use l4_maglev_lb.Backend.Generator.{
  TableGenerator, table_generator_create, table_generator_install_as_subscriber,
}
use l4_maglev_lb.Backend.Rebuild.{Reaches, rebuild-routes}
use l4_maglev_lb.Config.Parse.{ConfigBackend, Config, Opt, Strtol, done, config_parse_args}
use l4_maglev_lb.Config.Ranges.{config_parse_args-InRange}
use l4_maglev_lb.Startup.Wiring.{Env, unless_full, add_backends, first_table}

-- An eligible backend stands under some id.
abbrev HasEligible : BackendManager → Type 0
HasEligible bm = (id : ℕ) × (some_is is_eligible (view bm id) ≡ true)

some_eligible :
    (bm : BackendManager)
    → IsValid bm
    → HasEligible bm
    → 0 < length (backend_manager_snapshot_eligible bm backend_max)
some_eligible bm v (id, e) =
    let bs = backend_manager_snapshot_eligible bm backend_max in
    let one : count id (ids_in bs) ≡ 1 = (snapshots_select bm v id).0 ∙ ap to_nat e in
    omega (arith, one, count-le-length id (ids_in bs), length-map (λ (b : Backend). b.id) bs)

-- A manager that has been through a turn of the loop, with room for `budget` more ids.
record HasRoom (budget : ℕ) (bm : BackendManager) : Type 0 where
  valid : IsValid bm
  room : bm.next_id + budget ≤ 200

module _ (bm : BackendManager) (addr port : ℕ) (mac : List ℕ) (budget : ℕ)
    (h : HasRoom (suc (suc budget)) bm)
    (added : (backend_manager_add bm addr port).1 == uint32_max ≡ false) where
  abbrev after_add : BackendManager
  after_add = (backend_manager_add bm addr port).0

  some_room : length (live bm.slots) < backend_max
  some_room = elim (ℕ_discrete (length (live bm.slots)) backend_max) [
    | no less ↦ omega (arith, less, length-live bm.slots, h.valid.size)
    | yes full ↦ absurd (clash (ap (λ r. r.1 == uint32_max) (add-full bm addr port h.valid full)))
  ]
    where
      clash : (backend_manager_add bm addr port).1 == uint32_max ≡ true → ⊥
      clash e = ground (arith, e, added)

  add-HasRoom : HasRoom (suc budget) after_add
  unfolding run_op
  add-HasRoom = record {
    valid = run_op-IsValid (add addr port) bm (omega (arith, h.room)) h.valid;
    room = omega (arith, run_op-next_id (add addr port) bm (omega (arith, h.room)), h.room);
  }

  abbrev turned : ℕ → BackendManager
  turned id = (backend_manager_set_mac after_add id mac).0

  turned-HasRoom : (id : ℕ) → HasRoom budget (turned id)
  unfolding run_op
  turned-HasRoom id = record {
    valid =
        run_op-IsValid (set_mac id mac) after_add (omega (arith, add-HasRoom.room))
          add-HasRoom.valid;
    room = omega (
      arith,
      run_op-next_id (set_mac id mac) after_add (omega (arith, add-HasRoom.room)),
      add-HasRoom.room,
    );
  }

  turned-HasEligible : HasEligible (turned (backend_manager_add bm addr port).1)
  turned-HasEligible =
      let n = bm.next_id in
      let (same, new, reads, calls) =
        add-reads bm addr port h.valid some_room (omega (arith, h.room)) n in
      let there : view after_add n ≡ some (fresh_backend n addr port) =
        reads ∙ rw (==_refl n) refl in
      let resolved : view (turned n) n
          ≡ some (record (fresh_backend n addr port) { mac = mac; mac_resolved = true }) =
        (set_mac-reads after_add n mac n).0 ∙ rw (==_refl n, there) refl in
      subst (λ id. HasEligible (turned id)) (sym same) (n, ap (some_is is_eligible) resolved)

-- What a turn of the loop leaves for the rest of it.
record Turned (arp : ℕ → Option (List ℕ)) (i : ℕ) (bs : List ConfigBackend) (end_ : BackendManager)
    : Type 0 where
  next : BackendManager
  ready : HasRoom (2 * length bs) next
  eligible : HasEligible next
  goes_on : add_backends arp (i + 1) bs next ≡ some end_

turn :
    (arp : ℕ → Option (List ℕ)) (i : ℕ) (b : ConfigBackend) (bs : List ConfigBackend)
    (bm end_ : BackendManager)
    → HasRoom (2 * length (b ∷ bs)) bm
    → add_backends arp i (b ∷ bs) bm ≡ some end_
    → Turned arp i bs end_
unfolding add_backends
turn arp i b bs bm end_ h e = by_cases _ refl (arp i) e
  where
    added : BackendManager × ℕ × Bool
    added = backend_manager_add bm b.addr b.port

    budgeted : HasRoom (suc (suc (2 * length bs))) bm
    budgeted = record { valid = h.valid; room = omega (arith, h.room) }

    by_cases :
        (full : Bool)
        → added.1 == uint32_max ≡ full
        → (found : Option (List ℕ))
        → unless_full full found
            (λ mac. add_backends arp (i + 1) bs (backend_manager_set_mac added.0 added.1 mac).0)
          ≡ some end_
        → Turned arp i bs end_
    by_cases true fine found run = absurd (ground (arith, run))
    by_cases false fine none run = absurd (ground (arith, run))
    by_cases false fine (some mac) run = record {
      next = turned bm b.addr b.port mac (2 * length bs) budgeted fine added.1;
      ready = turned-HasRoom bm b.addr b.port mac (2 * length bs) budgeted fine added.1;
      eligible = turned-HasEligible bm b.addr b.port mac (2 * length bs) budgeted fine;
      goes_on = run;
    }

same_manager : {x y : BackendManager} → some x ≡ some y → x ≡ y
same_manager e = cc

-- A valid manager with an eligible backend and ids left.
abbrev Loaded : BackendManager → Type 0
Loaded bm = IsValid bm × (bm.next_id ≤ 200) × HasEligible bm

-- The loop over the backends ends with one that is eligible.
add_backends-Loaded :
    (arp : ℕ → Option (List ℕ)) (i : ℕ) (b : ConfigBackend) (bs : List ConfigBackend)
    (bm end_ : BackendManager)
    → HasRoom (2 * length (b ∷ bs)) bm
    → add_backends arp i (b ∷ bs) bm ≡ some end_
    → Loaded end_
unfolding add_backends
add_backends-Loaded arp i b [] bm end_ h e =
    let t = turn arp i b [] bm end_ h e in
    subst Loaded (same_manager t.goes_on) (t.ready.valid, omega (arith, t.ready.room), t.eligible)
add_backends-Loaded arp i b (c ∷ bs) bm end_ h e =
    let t = turn arp i b (c ∷ bs) bm end_ h e in
    add_backends-Loaded arp (i + 1) c bs t.next end_ t.ready t.goes_on

all_added :
    (arp : ℕ → Option (List ℕ)) (bs : List ConfigBackend) (end_ : BackendManager)
    → 0 < length bs
    → length bs ≤ 64
    → add_backends arp 0 bs backend_manager_create ≡ some end_
    → Loaded end_
unfolding backend_manager_create
all_added arp [] end_ some_b few e = absurd (omega arith)
all_added arp (b ∷ bs) end_ some_b few e =
    add_backends-Loaded arp 0 b bs backend_manager_create end_
      (record { valid = create-IsValid; room = omega arith }) e

-- Where the configuration is accepted, its table size passes the check, every backend could be added
-- and its address resolved, and there is memory: the first table is built, as generation 1, and in
-- its snapshot every flow is sent to an eligible backend that the snapshot resolves, under an id that
-- is not negative as an int32_t.
pub first_table-routes :
    (xxh64 : List ℕ → ℕ → ℕ) (send : List ℕ → ℕ) (env : Env) (inet_pton : List ℕ → Option ℕ)
    (strtol : List ℕ → Strtol) (opts : List Opt) (cfg : Config) (bm : BackendManager)
    → config_parse_args inet_pton strtol opts ≡ done cfg
    → maglev_is_prime cfg.table_size ≡ true
    → add_backends env.arp 0 cfg.backends backend_manager_create ≡ some bm
    → GivenSnapshot env.snapshot_alloc
    → (snap : RoutingSnapshot) × (tg : TableGenerator) × (first_table xxh64 send env cfg bm ≡ ok tg)
      × (tg.active ≡ some snap)
      × (tg.generation ≡ 1)
      × (snap.generation ≡ 1)
      × ((key : FlowKey) → Reaches xxh64 (table_generator_install_as_subscriber bm) snap key)
unfolding first_table table_generator_create table_generator_install_as_subscriber run_op
first_table-routes xxh64 send env inet_pton strtol opts cfg bm parsed prime added memory =
    let r = config_parse_args-InRange inet_pton strtol opts cfg parsed in
    let (valid, few_ids, eligible) =
      all_added env.arp cfg.backends bm r.1 (omega (arith, r.0.backends)) added in
    let small : cfg.table_size < 2 ^ 32 = omega (arith, r.0.table_size) in
    let subscribed = run_op-IsValid subscribe bm (omega (arith, few_ids)) valid in
    rebuild-routes xxh64 env.snapshot_alloc env.retired_given env.regen_us
      (table_generator_install_as_subscriber bm) (table_generator_create cfg.table_size) memory
      subscribed (omega (arith, few_ids)) ((maglev_is_prime-IsPrime cfg.table_size small).0 prime)
      small (some_eligible (table_generator_install_as_subscriber bm) subscribed eligible)
