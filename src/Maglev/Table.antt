-- ===== src/Maglev/Table.antt =====
-- src/maglev/maglev_table.c: table generation, lookup, and the routing snapshot.
--
-- A slot is an int32_t kept as its 32-bit pattern, so -1 is `vacant` and a backend id is itself.
-- Memory that an allocation does not give is an argument (`Alloc`); `Result.stuck` says that a
-- loop ran out of fuel.
use l4_maglev_lb.Common.{
  ℕ, zero, suc, ◌+◌, ◌-◌, ◌%◌, ◌≡◌, Bool, true, false, Option, none, some, List, [], ◌∷◌, map, ltb,
  ◌==◌, if◌then◌else◌, ◌>>=◌, length, get_or, set, replicate, find?, u32, uint32_max,
}
use l4_maglev_lb.Net.Key.{FlowKey}
use l4_maglev_lb.Maglev.Cycle.{slot_of}
use l4_maglev_lb.Maglev.Hash.{backend_name, maglev_hash_offset, maglev_hash_skip, flow_hash}

pub record BackendView : Type 0 where
  pub id : ℕ
  pub addr : ℕ
  pub port : ℕ
  pub mac : List ℕ

pub record MaglevTable : Type 0 where
  pub m : ℕ
  pub lookup : List ℕ

abbrev pub vacant : ℕ
vacant = uint32_max

-- `qsort` by `backend_view_cmp_by_id`
unfoldable pub insert_by_id : BackendView → List BackendView → List BackendView
insert_by_id v [] = v ∷ []
insert_by_id v (w ∷ ws) = if ltb w.id v.id then w ∷ insert_by_id v ws else v ∷ w ∷ ws

unfoldable pub sort_by_id : List BackendView → List BackendView
unfolding insert_by_id
sort_by_id [] = []
sort_by_id (v ∷ vs) = insert_by_id v (sort_by_id vs)

-- `sorted[i].id`, `offset[i]`, `skip[i]` and `next[i]` of the scratch arrays.
pub record Entry : Type 0 where
  pub id : ℕ
  pub offset : ℕ
  pub skip : ℕ
  pub next : ℕ

abbrev pub no_entry : Entry
no_entry = record { id = 0; offset = 0; skip = 0; next = 0 }

-- The inner `while (t->lookup[c] != -1)`; its result is the final `j`.
unfoldable pub probe : ℕ → ℕ → List ℕ → Entry → ℕ → Option ℕ
probe zero m lookup e j = none
probe (suc fuel) m lookup e j =
    let rest = probe fuel m lookup e (u32 (j + 1)) in
    if get_or lookup (slot_of m e.offset e.skip j) vacant == vacant then some j else rest

-- The variables of the outer loop.
pub record Populate : Type 0 where
  pub lookup : List ℕ
  pub entries : List Entry
  pub filled : ℕ
  pub round_robin : ℕ

-- The body after the probe: the slot is given to the backend whose turn it is.
unfoldable pub place : ℕ → Populate → ℕ → Populate
place m s j =
    let b = s.round_robin % length s.entries in
    let e = get_or s.entries b no_entry in
    record {
      lookup = set s.lookup (slot_of m e.offset e.skip j) e.id;
      entries = set s.entries b (record e { next = u32 (j + 1) });
      filled = s.filled + 1;
      round_robin = s.round_robin + 1;
    }

-- One pass through the body of `while (filled < m)`.
unfoldable pub populate_step : ℕ → Populate → Option Populate
unfolding probe place
populate_step m s =
    let e = get_or s.entries (s.round_robin % length s.entries) no_entry in
    probe m m s.lookup e e.next >>= λ j. some (place m s j)

-- The outer loop; each pass fills a slot, so `m` passes are enough.
unfoldable pub populate : ℕ → ℕ → Populate → Option Populate
unfolding populate_step
populate zero m s = if ltb s.filled m then none else some s
populate (suc fuel) m s =
    let rest = populate_step m s >>= populate fuel m in if ltb s.filled m then rest else some s

pub data Result {ℓ} (A : Type ℓ) : Type ℓ where
  ok : A → Result A
  null : Result A
  stuck : Result A

-- Which allocations succeed: the table and its slots, the four scratch arrays together, the
-- snapshot and its copy of the backends.
pub record Alloc : Type 0 where
  pub table : Bool
  pub lookup : Bool
  pub scratch : Bool
  pub snapshot : Bool
  pub copy : Bool

-- The memory that generation, or the snapshot around it, asks for is given.
abbrev pub Given : Alloc → Type 0
Given alloc = (alloc.table ≡ true) × (alloc.lookup ≡ true) × (alloc.scratch ≡ true)

abbrev pub GivenSnapshot : Alloc → Type 0
GivenSnapshot alloc = Given alloc × (alloc.snapshot ≡ true) × (alloc.copy ≡ true)

abbrev pub finish : ℕ → Option Populate → Result MaglevTable
finish m none = stuck
finish m (some s) = ok (record { m = m; lookup = s.lookup })

pub record RoutingSnapshot : Type 0 where
  pub table : MaglevTable
  pub backends : List BackendView
  pub generation : ℕ

abbrev pub empty_table : ℕ → List ℕ
empty_table m = replicate m vacant

-- `maglev_table_lookup`'s value is negative as an int32_t.
abbrev pub is_negative : ℕ → Bool
is_negative w = if ltb w 0x80000000 then false else true

unfoldable pub routing_snapshot_find_backend : RoutingSnapshot → ℕ → Option BackendView
routing_snapshot_find_backend snap backend_id = find? (λ v. v.id == backend_id) snap.backends

-- The scratch arrays are asked for only where there are backends.
abbrev pub scratch_ok : Alloc → List BackendView → Bool
scratch_ok alloc [] = true
scratch_ok alloc (v ∷ vs) = alloc.scratch

-- So is the copy of the routable backends.
abbrev pub copy_ok : Alloc → List BackendView → Bool
copy_ok alloc [] = true
copy_ok alloc (v ∷ vs) = alloc.copy

abbrev pub with_table : Alloc → List BackendView → ℕ → Result MaglevTable → Result RoutingSnapshot
with_table alloc routable generation null = null
with_table alloc routable generation stuck = stuck
with_table alloc routable generation (ok table) =
    if alloc.snapshot
    then if copy_ok alloc routable
      then ok (record { table = table; backends = routable; generation = generation })
      else null
    else null

module _ (xxh64 : List ℕ → ℕ → ℕ) where
  unfoldable pub entry_of : ℕ → BackendView → Entry
  unfolding maglev_hash_offset maglev_hash_skip backend_name
  entry_of m v =
      let name = backend_name v.addr v.port in
      record {
        id = v.id;
        offset = maglev_hash_offset xxh64 name % m;
        skip = maglev_hash_skip xxh64 name % (m - 1) + 1;
        next = 0;
      }

  -- The state before the outer loop.
  unfoldable pub populate_start : ℕ → List BackendView → Populate
  unfolding sort_by_id entry_of
  populate_start m backends = record {
    lookup = empty_table m;
    entries = map (entry_of m) (sort_by_id backends);
    filled = 0;
    round_robin = 0;
  }

  -- The table without its allocations; no backends leave every slot at -1.
  unfoldable pub fill_table : ℕ → List BackendView → Result MaglevTable
  unfolding populate_start populate
  fill_table m [] = ok (record { m = m; lookup = empty_table m })
  fill_table m (v ∷ vs) = finish m (populate m m (populate_start m (v ∷ vs)))

  unfoldable pub maglev_table_generate : Alloc → List BackendView → ℕ → Result MaglevTable
  unfolding fill_table
  maglev_table_generate alloc backends m =
      if alloc.table
      then if alloc.lookup
        then if scratch_ok alloc backends then fill_table m backends else null
        else null
      else null

  unfoldable pub maglev_table_lookup : MaglevTable → FlowKey → ℕ
  unfolding flow_hash
  maglev_table_lookup t key = get_or t.lookup (u32 (flow_hash xxh64 key % t.m)) vacant

  unfoldable pub routing_snapshot_create :
      Alloc → List BackendView → List BackendView → ℕ → ℕ → Result RoutingSnapshot
  unfolding maglev_table_generate
  routing_snapshot_create alloc routable candidates m generation =
      with_table alloc routable generation (maglev_table_generate alloc candidates m)
