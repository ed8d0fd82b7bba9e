-- ===== src/Conntrack/Lookup.antt =====
-- What the flow table of src/conntrack/conntrack.c answers: the entry that a flow is pinned to, and
-- how each operation changes it.
use l4_maglev_lb.Common.{
  ◌≤◌, ℕ, zero, suc, ◌+◌, ◌^◌, ◌%◌, ◌-◌, bit_and, ◌<◌, min, ◌≡◌, refl, sym, ap, subst, ◌∙◌, true,
  false, Option, none, some, List, [], ◌∷◌, inl, inr, arith, ◌==◌, if◌then◌else◌, find?, length,
  get_or, set, get_or-set_ne, get_or-set_eq, List-cases, Option-cases, Bool-cases, ==_iff,
}
use l4_maglev_lb.Net.Key.{FlowKey, same_key, same_key-eq}
use l4_maglev_lb.Conntrack.Table.{
  Entry, ConntrackTable, Clock, Sweep, refresh, after_walk, store_chain, bucket_of, pin,
  conntrack_lookup, conntrack_insert, is_expired, evict, reap_chain, reap_bucket, reap_loop,
  conntrack_reap_slice,
}
use l4_maglev_lb.Maglev.Hash.{flow_hash}
use l4_maglev_lb.Conntrack.Stock.{reap_chain-frame}
use l4_maglev_lb.Conntrack.Invariant.{IsValid, bucket_of-lt}

-- The first entry of a key in a chain, and its backend.
abbrev pub entry_for : FlowKey → List Entry → Option Entry
entry_for key = find? (λ e. same_key e.key key)

abbrev pub backend_of : Option Entry → Option ℕ
backend_of none = none
backend_of (some e) = some e.backend_id

refresh-none :
    (key : FlowKey) (now_ns : ℕ) (es : List Entry)
    → refresh key now_ns es ≡ none
    → entry_for key es ≡ none
unfolding refresh
refresh-none key now_ns [] h = refl
refresh-none key now_ns (e ∷ es) h = elim (Option-cases (refresh key now_ns es)) [
  | inl miss ↦ ground (arith, refresh-none key now_ns es miss)
  | inr ((i, c), hit) ↦ ground arith
]

refresh-some :
    (key : FlowKey) (now_ns : ℕ) (es c : List Entry) (id : ℕ)
    → refresh key now_ns es ≡ some (id, c)
    → (backend_of (entry_for key es) ≡ some id)
      × ((k : FlowKey) → backend_of (entry_for k c) ≡ backend_of (entry_for k es))
unfolding refresh
refresh-some key now_ns [] c id h = absurd (ground arith)
refresh-some key now_ns (e ∷ es) c id h = elim (Option-cases (refresh key now_ns es)) [
  | inl miss ↦ (ground arith, λ k. ground arith)
  | inr ((i, d), hit) ↦
      let rest = refresh-some key now_ns es d i hit in
      (ground (arith, rest.0), λ k. ground (arith, rest.1 k))
]

module _ (xxh64 : List ℕ → ℕ → ℕ) where
  -- The entry that a flow is pinned by.
  unfoldable pub pinned : ConntrackTable → FlowKey → Option Entry
  unfolding bucket_of
  pinned ct key = entry_for key (get_or ct.buckets (bucket_of xxh64 ct key) [])

  get_or-set_if :
      (bs : List (List Entry)) (i j : ℕ) (c : List Entry)
      → i < length bs
      → get_or (set bs i c) j [] ≡ (if i == j then c else get_or bs j [])
  get_or-set_if bs i j c h =
      ground (arith, ==_iff i j, get_or-set_eq bs i j c [], get_or-set_ne bs i j c [])

  bucket_of_same :
      (ct : ConntrackTable) (a b : FlowKey)
      → same_key a b ≡ true
      → bucket_of xxh64 ct a ≡ bucket_of xxh64 ct b
  bucket_of_same ct a b h = ap (bucket_of xxh64 ct) (same_key-eq a b h)

  module _ (max_flows : ℕ) (fits : max_flows < 2 ^ 64) (ct : ConntrackTable)
      (v : IsValid max_flows ct) where
    -- What a write of a bucket's chain does to the pinned entries.
    pinned-set :
        (key k : FlowKey) (c : List Entry)
        → pinned (store_chain ct (bucket_of xxh64 ct key) c) k
          ≡ entry_for k (
              if bucket_of xxh64 ct key == bucket_of xxh64 ct k
              then c
              else get_or ct.buckets (bucket_of xxh64 ct k) [])
    unfolding pinned bucket_of
    pinned-set key k c = ap (entry_for k) (
        get_or-set_if ct.buckets (bucket_of xxh64 ct key) (bucket_of xxh64 ct k) c
          (bucket_of-lt max_flows fits ct v xxh64 key))

    -- A lookup in a valid table answers with the backend that the flow is pinned to, if it is, and does not change
    -- where this or any other flow is pinned.
    pub conntrack_lookup-answers :
        (key k : FlowKey) (now_ns : ℕ)
        → ((conntrack_lookup xxh64 ct key now_ns).0 ≡ backend_of (pinned ct key))
          × (backend_of (pinned (conntrack_lookup xxh64 ct key now_ns).1 k)
              ≡ backend_of (pinned ct k))
    unfolding conntrack_lookup pinned
    conntrack_lookup-answers key k now_ns =
        let es = get_or ct.buckets (bucket_of xxh64 ct key) [] in
        walked (refresh key now_ns es) refl
      where
        walked :
            (r : Option (ℕ × List Entry))
            → refresh key now_ns (get_or ct.buckets (bucket_of xxh64 ct key) []) ≡ r
            → ((after_walk ct (bucket_of xxh64 ct key) r).0 ≡ backend_of (pinned ct key))
              × (backend_of (pinned (after_walk ct (bucket_of xxh64 ct key) r).1 k)
                  ≡ backend_of (pinned ct k))
        walked none h = (ap backend_of (sym (refresh-none key now_ns _ h)), refl)
        walked (some (id, c)) h =
            let found =
              refresh-some key now_ns (get_or ct.buckets (bucket_of xxh64 ct key) []) c id h in
            (
              sym found.0,
              ap backend_of (pinned-set key k c)
                  ∙ elim (Bool-cases (bucket_of xxh64 ct key == bucket_of xxh64 ct k)) [
                    | inl here ↦ rw here (
                        found.1 k
                        ∙ ap (λ i. backend_of (entry_for k (get_or ct.buckets i [])))
                            ((==_iff (bucket_of xxh64 ct key) (bucket_of xxh64 ct k)).0 here))
                    | inr there ↦ rw there refl
                  ],
            )

    pin-pins :
        (key k : FlowKey) (slot : ℕ) (free : List ℕ) (id now_ns : ℕ)
        → backend_of (pinned (pin xxh64 ct slot free key id now_ns) k)
          ≡ (if same_key key k then some id else backend_of (pinned ct k))
    unfolding pin pinned
    pin-pins key k slot free id now_ns =
        let i = bucket_of xxh64 ct key in
        let j = bucket_of xxh64 ct k in
        let e : Entry = record { slot = slot; key = key; backend_id = id; last_seen_ns = now_ns } in
        let old = get_or ct.buckets i [] in
        ap (λ es. backend_of (entry_for k es))
          (get_or-set_if ct.buckets i j (e ∷ old) (bucket_of-lt max_flows fits ct v xxh64 key))
        ∙ elim (Bool-cases (i == j)) [
          | inl here ↦ rw here (elim (Bool-cases (same_key key k)) [
            | inl same ↦ rw same refl
            | inr other ↦
                rw other (
                  ap (λ b. backend_of (entry_for k (get_or ct.buckets b []))) ((==_iff i j).0 here))
          ])
          | inr there ↦ rw there (elim (Bool-cases (same_key key k)) [
            | inl same ↦ absurd (ground (arith, there, ==_iff i j, bucket_of_same ct key k same))
            | inr other ↦ rw other refl
          ])
        ]

    -- After an insertion into a valid table that succeeds, the flow is pinned to the backend given,
    -- and every other flow is pinned as it was.
    pub conntrack_insert-pins :
        (key k : FlowKey) (id now_ns : ℕ) (ct' : ConntrackTable)
        → conntrack_insert xxh64 ct key id now_ns ≡ some ct'
        → backend_of (pinned ct' k) ≡ (if same_key key k then some id else backend_of (pinned ct k))
    unfolding conntrack_insert
    conntrack_insert-pins key k id now_ns ct' done = elim (List-cases ct.free_list) [
      | inl empty ↦ absurd (ground (arith, empty))
      | inr (slot, free, e) ↦
          subst
            (λ t.
              backend_of (pinned t k)
              ≡ (if same_key key k then some id else backend_of (pinned ct k)))
            (ground arith) (pin-pins key k slot free id now_ns)
    ]

  set-live :
      (k : FlowKey) (e : Entry) (bs : List (List Entry)) (i j : ℕ) (c : List Entry)
      → entry_for k (get_or bs j []) ≡ some e
      → (i ≡ j → entry_for k c ≡ some e)
      → entry_for k (get_or (set bs i c) j []) ≡ some e
  set-live k e [] i j c old new = old
  set-live k e (b ∷ bs) zero zero c old new = new refl
  set-live k e (b ∷ bs) zero (suc j) c old new = old
  set-live k e (b ∷ bs) (suc i) zero c old new = old
  set-live k e (b ∷ bs) (suc i) (suc j) c old new = set-live k e bs i j c old (λ h. new (ap suc h))

  module _ {S : Type 0} (on_evict : ℕ → S → S) (c : Clock) where
    recent-live :
        (e : Entry)
        → c.now_ns < 2 ^ 64
        → e.last_seen_ns ≤ c.now_ns
        → c.now_ns
          ≤ e.last_seen_ns + (if e.key.proto == 6 then c.tcp_timeout_ns else c.udp_timeout_ns)
        → is_expired c e ≡ false
    unfolding is_expired
    recent-live e below past recent = ground (arith, below, past, recent)

    reap_chain-live :
        (k : FlowKey) (es : List Entry) (s : Sweep S) (e : Entry)
        → entry_for k es ≡ some e
        → is_expired c e ≡ false
        → entry_for k (reap_chain on_evict c es s).0 ≡ some e
    unfolding reap_chain
    reap_chain-live k [] s e found live = absurd (ground arith)
    reap_chain-live k (d ∷ es) s e found live = ground (
      arith,
      reap_chain-live k es s e,
      reap_chain-live k es (evict on_evict c d s) e,
      ap (is_expired c),
    )

    reap_bucket-live :
        (k : FlowKey) (s : Sweep S) (e : Entry)
        → pinned s.table k ≡ some e
        → is_expired c e ≡ false
        → pinned (reap_bucket on_evict c s).table k ≡ some e
    unfolding reap_bucket pinned bucket_of
    reap_bucket-live k s e found live =
        let i = s.table.sweep_cursor in
        let es = get_or s.table.buckets i [] in
        let moved = record s {
          table = record s.table { sweep_cursor = (i + 1) % s.table.bucket_count };
        } in
        let kept = (reap_chain on_evict c es moved).0 in
        let frame = reap_chain-frame on_evict c es moved in
        let h = flow_hash xxh64 k in
        ap
          (λ bs. entry_for k (
            get_or (set bs i kept)
              (bit_and h ((reap_chain on_evict c es moved).1.table.bucket_count - 1)) []))
          frame.0
        ∙ (ap (λ n. entry_for k (get_or (set s.table.buckets i kept) (bit_and h (n - 1)) []))
              frame.1
            ∙ set-live k e s.table.buckets i (bucket_of xxh64 s.table k) kept found (λ here.
              reap_chain-live k es moved e
                (ap (λ b. entry_for k (get_or s.table.buckets b [])) here ∙ found) live))

    reap_loop-live :
        (n : ℕ) (k : FlowKey) (s : Sweep S) (e : Entry)
        → pinned s.table k ≡ some e
        → is_expired c e ≡ false
        → pinned (reap_loop on_evict c n s).table k ≡ some e
    unfolding reap_loop
    reap_loop-live zero k s e found live = found
    reap_loop-live (suc n) k s e found live =
        reap_loop-live n k (reap_bucket on_evict c s) e (reap_bucket-live k s e found live) live

    -- A tick of the reaper leaves a flow pinned as it was, by the same entry, where this was last
    -- seen at or before the reaper's time, which is below 2^64, and no longer ago than the timeout of
    -- TCP, for a flow of protocol 6, or of UDP, for another.
    pub reap_slice-live :
        (ct : ConntrackTable) (max_buckets : ℕ) (ctx : S) (k : FlowKey) (e : Entry)
        → pinned ct k ≡ some e
        → c.now_ns < 2 ^ 64
        → e.last_seen_ns ≤ c.now_ns
        → c.now_ns
          ≤ e.last_seen_ns + (if e.key.proto == 6 then c.tcp_timeout_ns else c.udp_timeout_ns)
        → pinned (conntrack_reap_slice on_evict c ct max_buckets ctx).table k ≡ some e
    unfolding conntrack_reap_slice
    reap_slice-live ct max_buckets ctx k e found below past recent =
        reap_loop-live (min max_buckets ct.bucket_count) k _ e found
          (recent-live e below past recent)
