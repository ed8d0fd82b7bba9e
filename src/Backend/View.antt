-- ===== src/Backend/View.antt =====
-- What the backend table means: a partial map from ids to backends, and the operations as updates
-- of that map.

use l4_maglev_lb.Common.{
  ℕ, zero, suc, ◌≤◌, ◌<◌, ◌≡◌, refl, true, false, not, Option, none, some, List, [], ◌∷◌, map,
  arith, ◌==◌, if◌then◌else◌, length, get_or, set, count,
}
use l4_maglev_lb.Backend.State.{Backend, Slot, zero_slot, BackendManager}
use l4_maglev_lb.Backend.Manager.{holds, index_of}

-- The backend under an id: the first used slot that holds it.
unfoldable pub view_slots : List Slot → ℕ → Option Backend
view_slots [] j = none
view_slots (s ∷ ss) j = if holds j s then some s.backend else view_slots ss j

abbrev pub view : BackendManager → ℕ → Option Backend
view bm = view_slots bm.slots

abbrev pub live : List Slot → List Backend
live [] = []
live (s ∷ ss) = if s.used then s.backend ∷ live ss else live ss

abbrev pub ids : List Slot → List ℕ
ids slots = map (λ b. b.id) (live slots)

-- A search that succeeds finds a used slot with the id, and the map's value there.
pub record Located (slots : List Slot) (id i : ℕ) : Type 0 where
  pub inside : i < length slots
  pub used : (get_or slots i zero_slot).used ≡ true
  pub same : (get_or slots i zero_slot).backend.id ≡ id
  pub reads : view_slots slots id ≡ some (get_or slots i zero_slot).backend

module _ (id : ℕ) where
  pub index_of-none :
      (slots : List Slot) → index_of (holds id) slots ≡ none → view_slots slots id ≡ none
  unfolding index_of view_slots
  index_of-none [] e = refl
  index_of-none (s ∷ ss) e = ground (arith, index_of-none ss)

  pub index_of-Located :
      (slots : List Slot) (i : ℕ) → index_of (holds id) slots ≡ some i → Located slots id i
  unfolding index_of view_slots
  index_of-Located [] i e = cc
  index_of-Located (s ∷ ss) zero e = record {
    inside = omega arith;
    used = ground arith;
    same = ground arith;
    reads = ground arith;
  }
  index_of-Located (s ∷ ss) (suc i) e =
      let rest : index_of (holds id) ss ≡ some i = ground arith in
      let miss : holds id s ≡ false = ground arith in
      let l = index_of-Located ss i rest in
      record {
        inside = omega (arith, l.inside);
        used = l.used;
        same = l.same;
        reads = rw miss l.reads;
      }

-- Overwriting the located backend updates the map there and nowhere else.
pub view-store :
    (slots : List Slot) (id i : ℕ) (b : Backend) (j : ℕ)
    → index_of (holds id) slots ≡ some i
    → b.id ≡ id
    → view_slots (set slots i (record (get_or slots i zero_slot) { backend = b })) j
      ≡ (if j == id then some b else view_slots slots j)
unfolding index_of view_slots
view-store [] id i b j e same = cc
view-store (s ∷ ss) id zero b j e same = ground arith
view-store (s ∷ ss) id (suc i) b j e same =
    let rest : index_of (holds id) ss ≡ some i = ground arith in
    let miss : holds id s ≡ false = ground arith in ground (arith, view-store ss id i b j rest same)

-- Putting a backend with a new id into a free slot adds it to the map.
pub view-add :
    (slots : List Slot) (i : ℕ) (b : Backend) (j : ℕ)
    → index_of (λ s. not s.used) slots ≡ some i
    → view_slots slots b.id ≡ none
    → view_slots (set slots i (record { used = true; backend = b })) j
      ≡ (if j == b.id then some b else view_slots slots j)
unfolding index_of view_slots
view-add [] i b j e new = cc
view-add (s ∷ ss) zero b j e new = ground arith
view-add (s ∷ ss) (suc i) b j e new =
    let rest : index_of (λ t. not t.used) ss ≡ some i = ground arith in
    ground (arith, view-add ss i b j rest)

pub view_count : (slots : List Slot) (j : ℕ) → count j (ids slots) ≡ 0 → view_slots slots j ≡ none
unfolding view_slots
view_count [] j h = refl
view_count (s ∷ ss) j h = ground (arith, view_count ss j)

-- Freeing the located slot takes the id out of the map, if no other slot holds it.
pub view-free :
    (slots : List Slot) (id i j : ℕ)
    → index_of (holds id) slots ≡ some i
    → count id (ids slots) ≤ 1
    → view_slots (set slots i (record (get_or slots i zero_slot) { used = false })) j
      ≡ (if j == id then none else view_slots slots j)
unfolding index_of view_slots
view-free [] id i j e once = cc
view-free (s ∷ ss) id zero j e once = ground (arith, view_count ss j)
view-free (s ∷ ss) id (suc i) j e once =
    let rest : index_of (holds id) ss ≡ some i = ground arith in
    let miss : holds id s ≡ false = ground arith in ground (arith, view-free ss id i j rest)
