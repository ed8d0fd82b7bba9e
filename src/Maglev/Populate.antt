-- ===== src/Maglev/Populate.antt =====
-- The populate loop of `maglev_table_generate`: over a prime table size every probe ends, every
-- pass fills one vacant slot, and the loop ends with no slot vacant.
use l4_maglev_lb.Common.{
  ℕ, zero, suc, ◌+◌, ◌%◌, ◌^◌, ◌≤◌, ◌<◌, ◌≡◌, refl, sym, ap, ◌∙◌, ◌≢◌, inl, inr, some, List, [],
  ◌∷◌, false, arith, ◌==◌, to_nat, length, get_or, set, count, count-set, count_index, length-set,
  get_or-set_self, get_or-set_eq, get_or-set_ne, u32, Bool-cases,
}
use native.Mathlib.Decide.{ℕ_discrete, dec_le, dec_lt}
use l4_maglev_lb.Maglev.Prime.{IsPrime}
use l4_maglev_lb.Maglev.Cycle.{slot_of, slot_of-lt, slot_of-covers}
use l4_maglev_lb.Maglev.Table.{Entry, no_entry, vacant, probe, Populate, populate_step, place}

-- What a probe from `j` finds: the first vacant slot of the permutation from there on.
pub record Finds (m : ℕ) (lookup : List ℕ) (e : Entry) (j j' : ℕ) : Type 0 where
  pub after : j ≤ j'
  pub below : j' < m
  pub free : get_or lookup (slot_of m e.offset e.skip j') vacant ≡ vacant
  pub passed :
      (k : ℕ) → j ≤ k → k < j' → get_or lookup (slot_of m e.offset e.skip k) vacant ≢ vacant

probe_next :
    (fuel m : ℕ) (lookup : List ℕ) (e : Entry) (j : ℕ)
    → (get_or lookup (slot_of m e.offset e.skip j) vacant == vacant) ≡ false
    → j + 1 < 2 ^ 32
    → probe (suc fuel) m lookup e j ≡ probe fuel m lookup e (j + 1)
unfolding probe
probe_next fuel m lookup e j taken small =
    let wraps : u32 (j + 1) ≡ j + 1 = omega arith in rw (taken, wraps)

pub probe-Finds :
    (fuel m : ℕ) (lookup : List ℕ) (e : Entry) (j j₀ : ℕ)
    → m < 2 ^ 32
    → j ≤ j₀
    → j₀ < m
    → j₀ < fuel + j
    → get_or lookup (slot_of m e.offset e.skip j₀) vacant ≡ vacant
    → (j' : ℕ) × (probe fuel m lookup e j ≡ some j') × Finds m lookup e j j'
unfolding probe
probe-Finds zero m lookup e j j₀ small le lt enough free = absurd (omega arith)
probe-Finds (suc fuel) m lookup e j j₀ small le lt enough free =
    elim (Bool-cases (get_or lookup (slot_of m e.offset e.skip j) vacant == vacant)) [
      | inl here ↦ (
        j,
        rw here,
        record {
          after = omega arith;
          below = omega arith;
          free = ground arith;
          passed = λ k p q. absurd (omega arith);
        },
      )
      | inr taken ↦
          let busy : get_or lookup (slot_of m e.offset e.skip j) vacant ≢ vacant = ground arith in
          let later : j ≢ j₀ = λ same. busy (rw same free) in
          let (j', run, f) =
            probe-Finds fuel m lookup e (j + 1) j₀ small (omega arith) lt (omega arith) free in
          (
            j',
            probe_next fuel m lookup e j taken (omega arith) ∙ run,
            record {
              after = omega (arith, f.after);
              below = f.below;
              free = f.free;
              passed = λ k p q. elim (ℕ_discrete j k) [
                | yes same ↦ rw (← same) busy
                | no other ↦ f.passed k (omega arith) q
              ];
            },
          )
    ]

-- A backend's scratch data: a proper permutation, an id that is not the vacant mark, and every
-- slot before `next` taken.
pub record EntryOk (m : ℕ) (lookup : List ℕ) (e : Entry) : Type 0 where
  pub offset : e.offset < m
  pub skip_pos : 0 < e.skip
  pub skip : e.skip < m
  pub named : e.id ≢ vacant
  pub next : e.next ≤ m
  pub taken : (k : ℕ) → k < e.next → get_or lookup (slot_of m e.offset e.skip k) vacant ≢ vacant

abbrev pub entry_at : Populate → ℕ → Entry
entry_at s b = get_or s.entries b no_entry

pub record Inv (m : ℕ) (s : Populate) : Type 0 where
  pub width : length s.lookup ≡ m
  pub some_entry : 0 < length s.entries
  pub entries : (b : ℕ) → b < length s.entries → EntryOk m s.lookup (entry_at s b)
  pub filled : s.filled + count vacant s.lookup ≡ m
  pub owned :
      (c : ℕ)
      → get_or s.lookup c vacant ≢ vacant
      → (b : ℕ) × (b < length s.entries) × ((entry_at s b).id ≡ get_or s.lookup c vacant)

-- What one pass does.
pub record Passes (m : ℕ) (s s' : Populate) : Type 0 where
  pub inv : Inv m s'
  pub filled : s'.filled ≡ s.filled + 1
  pub round_robin : s'.round_robin ≡ s.round_robin + 1
  pub size : length s'.entries ≡ length s.entries
  pub ids : (b : ℕ) → (entry_at s' b).id ≡ (entry_at s b).id
  pub counts :
      (v : ℕ)
      → v ≢ vacant
      → count v s'.lookup
        ≡ count v s.lookup + to_nat ((entry_at s (s.round_robin % length s.entries)).id == v)

starts_after :
    {m : ℕ} (lookup : List ℕ) (e : Entry)
    → EntryOk m lookup e
    → (j : ℕ) → get_or lookup (slot_of m e.offset e.skip j) vacant ≡ vacant
    → e.next ≤ j
starts_after lookup e ok j free = elim (dec_le e.next j) [
  | yes le ↦ le
  | no before ↦ absurd (ok.taken j (omega arith) free)
]

-- A slot that is written is taken, and one that was taken stays so.
set_keeps :
    (lookup : List ℕ) (c v i : ℕ)
    → v ≢ vacant
    → get_or lookup i vacant ≢ vacant
    → get_or (set lookup c v) i vacant ≢ vacant
set_keeps [] c v i named busy = busy
set_keeps (x ∷ xs) zero v zero named busy = named
set_keeps (x ∷ xs) zero v (suc i) named busy = busy
set_keeps (x ∷ xs) (suc c) v zero named busy = busy
set_keeps (x ∷ xs) (suc c) v (suc i) named busy = set_keeps xs c v i named busy

EntryOk-set :
    (m : ℕ) (lookup : List ℕ) (c v : ℕ) (e : Entry)
    → v ≢ vacant
    → EntryOk m lookup e
    → EntryOk m (set lookup c v) e
EntryOk-set m lookup c v e named ok = record {
  offset = ok.offset;
  skip_pos = ok.skip_pos;
  skip = ok.skip;
  named = ok.named;
  next = ok.next;
  taken = λ k h. set_keeps lookup c v _ named (ok.taken k h);
}

-- The backend whose turn it was: its `next` moves past the slot that it got.
EntryOk-advance :
    (m : ℕ) (lookup : List ℕ) (e : Entry) (j : ℕ)
    → m < 2 ^ 32
    → length lookup ≡ m
    → EntryOk m lookup e
    → Finds m lookup e e.next j
    → EntryOk m (set lookup (slot_of m e.offset e.skip j) e.id) (record e { next = u32 (j + 1) })
EntryOk-advance m lookup e j small width ok f =
    let wraps : u32 (j + 1) ≡ j + 1 = omega (arith, f.below) in
    record {
      offset = ok.offset;
      skip_pos = ok.skip_pos;
      skip = ok.skip;
      named = ok.named;
      next = omega (arith, f.below);
      taken = λ k h. elim (ℕ_discrete k j) [
        | yes same ↦
            rw
              (
                same,
                get_or-set_self lookup (slot_of m e.offset e.skip j) e.id vacant
                    (omega (arith, slot_of-lt m e.offset e.skip j (omega (arith, f.below)))),
              )
              ok.named
        | no other ↦ elim (dec_lt k e.next) [
          | yes old ↦ set_keeps lookup _ e.id _ ok.named (ok.taken k old)
          | no new ↦ set_keeps lookup _ e.id _ ok.named (f.passed k (omega arith) (omega arith))
        ]
      ];
    }

module _ (m : ℕ) (s : Populate) (inv : Inv m s) (j : ℕ) (small : m < 2 ^ 32) where
  turn : ℕ
  turn = s.round_robin % length s.entries

  module _ (f : Finds m s.lookup (entry_at s turn) (entry_at s turn).next j) where
    turn_inside : turn < length s.entries
    unfolding turn
    turn_inside = omega (arith, inv.some_entry)

    slot_inside : slot_of m (entry_at s turn).offset (entry_at s turn).skip j < length s.lookup
    slot_inside = omega (
      arith,
      slot_of-lt m (entry_at s turn).offset (entry_at s turn).skip j (omega (arith, f.below)),
      inv.width,
    )

    place-ids : (b : ℕ) → (entry_at (place m s j) b).id ≡ (entry_at s b).id
    unfolding place turn
    place-ids b = elim (ℕ_discrete turn b) [
      | yes same ↦
          ap (λ (e : Entry). e.id) (get_or-set_eq s.entries turn b _ no_entry same turn_inside)
          ∙ ap (λ (i : ℕ). (entry_at s i).id) same
      | no other ↦ ap (λ (e : Entry). e.id) (get_or-set_ne s.entries turn b _ no_entry other)
    ]

    place-counts :
        (v : ℕ)
        → v ≢ vacant
        → count v (place m s j).lookup ≡ count v s.lookup + to_nat ((entry_at s turn).id == v)
    unfolding place turn
    place-counts v named =
        ground (arith, count-set v s.lookup _ (entry_at s turn).id vacant slot_inside, f.free)

    place-entries :
        (b : ℕ) → b < length s.entries → EntryOk m (place m s j).lookup (entry_at (place m s j) b)
    unfolding place turn
    place-entries b h = elim (ℕ_discrete turn b) [
      | yes same ↦ rw (get_or-set_eq s.entries turn b _ no_entry same turn_inside) (
          EntryOk-advance m s.lookup (entry_at s turn) j small inv.width
            (inv.entries turn turn_inside) f)
      | no other ↦ rw (get_or-set_ne s.entries turn b _ no_entry other) (
          EntryOk-set m s.lookup _ _ (entry_at s b) (inv.entries turn turn_inside).named
            (inv.entries b h))
    ]

    place-owned :
        (c : ℕ)
        → get_or (place m s j).lookup c vacant ≢ vacant
        → (b : ℕ) × (b < length (place m s j).entries)
          × ((entry_at (place m s j) b).id ≡ get_or (place m s j).lookup c vacant)
    unfolding place turn
    place-owned c busy =
        elim (ℕ_discrete (slot_of m (entry_at s turn).offset (entry_at s turn).skip j) c) [
          | yes same ↦ (
            turn,
            rw length-set turn_inside,
            place-ids turn
                ∙ sym (get_or-set_eq s.lookup _ c (entry_at s turn).id vacant same slot_inside),
          )
          | no other ↦
              let kept =
                get_or-set_ne s.lookup (slot_of m (entry_at s turn).offset (entry_at s turn).skip j)
                  c (entry_at s turn).id vacant other in
              let (b, inside, e) = inv.owned c (λ z. busy (kept ∙ z)) in
              (b, rw length-set inside, place-ids b ∙ e ∙ sym kept)
        ]

    place-Passes : Passes m s (place m s j)
    unfolding place turn
    place-Passes = record {
      inv = record {
        width = rw length-set inv.width;
        some_entry = rw length-set inv.some_entry;
        entries = λ b h. place-entries b (rw length-set at h);
        filled = ground (
          arith,
          count-set vacant s.lookup _ (entry_at s turn).id vacant slot_inside,
          f.free,
          inv.filled,
          (inv.entries turn turn_inside).named,
        );
        owned = place-owned;
      };
      filled = refl;
      round_robin = refl;
      size = length-set s.entries _ _;
      ids = place-ids;
      counts = place-counts;
    }

module _ (m : ℕ) (prime : IsPrime m) (small : m < 2 ^ 32) where
  probe_ends :
      (lookup : List ℕ) (e : Entry)
      → length lookup ≡ m
      → 0 < count vacant lookup
      → EntryOk m lookup e
      → (j : ℕ) × (probe m m lookup e e.next ≡ some j) × Finds m lookup e e.next j
  probe_ends lookup e width free ok =
      let (c, inside, mark) = count_index vacant lookup vacant free in
      let (j₀, below, hits) =
        slot_of-covers m prime small e.offset e.skip ok.offset ok.skip_pos ok.skip c
          (omega arith) in
      let open_slot : get_or lookup (slot_of m e.offset e.skip j₀) vacant ≡ vacant = rw hits mark in
      let after : e.next ≤ j₀ = starts_after lookup e ok j₀ open_slot in
      probe-Finds m m lookup e e.next j₀ small after below (omega arith) open_slot

  pub populate_step-Passes :
      (s : Populate)
      → Inv m s
      → s.filled < m
      → (s' : Populate) × (populate_step m s ≡ some s') × Passes m s s'
  unfolding populate_step turn
  populate_step-Passes s inv room =
      let b = s.round_robin % length s.entries in
      let e = entry_at s b in
      let inside : b < length s.entries = omega (arith, inv.some_entry) in
      let ok = inv.entries b inside in
      let (j, run, f) = probe_ends s.lookup e inv.width (omega (arith, inv.filled)) ok in
      (place m s j, rw run, place-Passes m s inv j small f)
