-- ===== src/Conntrack/Touch.antt =====
-- The lookups and the insertions of src/conntrack/conntrack.c between the visits of the reaper: what
-- they touch is not idle, so that what has been swept stays swept.
use l4_maglev_lb.Common.{
  ℕ, zero, suc, ◌+◌, ◌%◌, ◌≤◌, ◌≡◌, refl, ap, ◌∙◌, subst, Bool, false, Option, none, some, inl, inr,
  List, [], ◌∷◌, arith, to_nat, get_or, set, length-set, List-cases, Option-cases,
}
use l4_maglev_lb.Net.Key.{FlowKey}
use l4_maglev_lb.Conntrack.Table.{
  Entry, ConntrackTable, refresh, bucket_of, pin, after_walk, store_chain, conntrack_lookup,
  conntrack_insert,
}
use l4_maglev_lb.Conntrack.Tally.{chain_tally}
use l4_maglev_lb.Conntrack.Sweep.{Swept}

refresh-tally-le :
    (w : Entry → ℕ) (key : FlowKey) (now_ns : ℕ) (es es' : List Entry) (id : ℕ)
    → ((e : Entry) → w (record e { last_seen_ns = now_ns }) ≤ w e)
    → refresh key now_ns es ≡ some (id, es')
    → chain_tally w es' ≤ chain_tally w es
unfolding refresh
refresh-tally-le w key now_ns [] es' id less h = absurd (ground (arith, h))
refresh-tally-le w key now_ns (e ∷ es) es' id less h = elim (Option-cases (refresh key now_ns es)) [
  | inl miss ↦ ground (arith, less e)
  | inr ((i, c), hit) ↦ ground (arith, less e, refresh-tally-le w key now_ns es c i less hit)
]

set-still :
    (w : Entry → ℕ) (bs : List (List Entry)) (i j : ℕ) (c : List Entry)
    → chain_tally w c ≤ chain_tally w (get_or bs i [])
    → chain_tally w (get_or bs j []) ≡ 0
    → chain_tally w (get_or (set bs i c) j []) ≡ 0
set-still w [] i j c h z = z
set-still w (b ∷ bs) zero zero c h z = omega (arith, h, z)
set-still w (b ∷ bs) zero (suc j) c h z = z
set-still w (b ∷ bs) (suc i) zero c h z = z
set-still w (b ∷ bs) (suc i) (suc j) c h z = set-still w bs i j c h z

module _ (idle : Entry → Bool) (m c0 k now_ns : ℕ)
    (touched : (e : Entry) → e.last_seen_ns ≡ now_ns → idle e ≡ false) (ct : ConntrackTable)
    (h : Swept idle m c0 k ct) where
  abbrev w : Entry → ℕ
  w e = to_nat (idle e)

  touched-w : (e : Entry) → e.last_seen_ns ≡ now_ns → w e ≡ 0
  touched-w e p = ap to_nat (touched e p)

  store-Swept :
      (i : ℕ) (c : List Entry)
      → chain_tally w c ≤ chain_tally w (get_or ct.buckets i [])
      → Swept idle m c0 k (store_chain ct i c)
  store-Swept i c less = record {
    size = length-set ct.buckets i c ∙ h.size;
    count = h.count;
    cursor = h.cursor;
    clean = λ d p. set-still w ct.buckets i ((c0 + d) % m) c less (h.clean d p);
  }

  module _ (xxh64 : List ℕ → ℕ → ℕ) (key : FlowKey) where
    pub lookup-Swept : Swept idle m c0 k (conntrack_lookup xxh64 ct key now_ns).1
    unfolding conntrack_lookup
    lookup-Swept = walked (refresh key now_ns (get_or ct.buckets (bucket_of xxh64 ct key) [])) refl
      where
        walked :
            (r : Option (ℕ × List Entry))
            → refresh key now_ns (get_or ct.buckets (bucket_of xxh64 ct key) []) ≡ r
            → Swept idle m c0 k (after_walk ct (bucket_of xxh64 ct key) r).1
        walked none e = h
        walked (some (id, c)) e = store-Swept _ c (
            refresh-tally-le w key now_ns _ c id
              (λ x. omega (arith, touched-w (record x { last_seen_ns = now_ns }) refl)) e)

    pin-Swept :
        (slot : ℕ) (free : List ℕ) (backend_id : ℕ)
        → Swept idle m c0 k (pin xxh64 ct slot free key backend_id now_ns)
    unfolding pin
    pin-Swept slot free backend_id =
        let e : Entry = record {
          slot = slot;
          key = key;
          backend_id = backend_id;
          last_seen_ns = now_ns;
        } in
        let s =
          store-Swept (bucket_of xxh64 ct key) (e ∷ get_or ct.buckets (bucket_of xxh64 ct key) [])
            (omega (arith, touched-w e refl)) in
        record { size = s.size; count = s.count; cursor = s.cursor; clean = s.clean }

    pub insert-Swept :
        (backend_id : ℕ) (ct' : ConntrackTable)
        → conntrack_insert xxh64 ct key backend_id now_ns ≡ some ct'
        → Swept idle m c0 k ct'
    unfolding conntrack_insert
    insert-Swept backend_id ct' done = elim (List-cases ct.free_list) [
      | inl empty ↦ absurd (ground (arith, empty))
      | inr (slot, free, e) ↦
          subst (Swept idle m c0 k) (ground arith) (pin-Swept slot free backend_id)
    ]
