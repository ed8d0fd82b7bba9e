-- ===== src/Ui/Fits.antt =====
-- The text of src/ui/metrics_http.c fits its buffer, and how the buffer fills.
use native.Mathlib.Nat.{mul-le-mul_right}
use Prim.Native.String.{String}
use l4_maglev_lb.Common.{
  ℕ, zero, suc, ◌+◌, ◌-◌, ◌*◌, ◌≤◌, ◌<◌, ◌≡◌, refl, sym, ap, ◌∙◌, Bool, true, false, List, [], ◌∷◌,
  ◌++◌, map, arith, inl, inr, length, length-append, length-take, take, codes, ◌/◌, ◌%◌, ◌^◌, leb,
  ltb, lt→ltb, ltb→lt, Bool-cases,
}
use mathlib.Core.List.{append_assoc, append-nil}
use l4_maglev_lb.Maglev.Hash.{decimal, decimal_u64, length-decimal_digits}
use l4_maglev_lb.Net.Headers.{ipv4_format}
use l4_maglev_lb.Backend.State.{Backend, Slot, backend_max}
use l4_maglev_lb.Backend.Manager.{snapshot, backend_manager_snapshot_all}
use l4_maglev_lb.Ui.Metrics.{
  MetricsBuf, mb_appendf, mb_append_all, metrics_body_cap, MetricsHttp, Append, text, value, each,
  labelled, rendered, all_rendered, all_backends, metrics_lines, build_metrics_body,
}

abbrev total : List (List ℕ) → ℕ
total [] = 0
total (t ∷ ts) = length t + total ts

abbrev pub joined : List (List ℕ) → List ℕ
joined [] = []
joined (t ∷ ts) = t ++ joined ts

-- At most so many bytes, for `n` backends.
abbrev cost : ℕ → Append → ℕ
cost n (text s) = length (codes s)
cost n (value s k) = length (codes s) + 21
cost n (each s f) = n * (length (codes s) + 89)

abbrev costs : ℕ → List Append → ℕ
costs n [] = 0
costs n (a ∷ rest) = cost n a + costs n rest

total-append : (xs ys : List (List ℕ)) → total (xs ++ ys) ≡ total xs + total ys
total-append [] ys = omega arith
total-append (x ∷ xs) ys = omega (arith, total-append xs ys)

length-decimal : (n : ℕ) → length (decimal n) ≤ 10
unfolding decimal
length-decimal n = omega (arith, length-decimal_digits 10 n [])

pub length-decimal_u64 : (n : ℕ) → length (decimal_u64 n) ≤ 20
unfolding decimal_u64
length-decimal_u64 n = omega (arith, length-decimal_digits 20 n [])

length-ipv4_format : (addr : ℕ) → length (ipv4_format addr 16) ≤ 15
unfolding ipv4_format
length-ipv4_format addr = omega (
  arith,
  length-take 15 (
      decimal (addr % 2 ^ 8)
      ++ 46
        ∷ (decimal (addr / 2 ^ 8 % 2 ^ 8)
            ++ 46 ∷ (decimal (addr / 2 ^ 16 % 2 ^ 8) ++ 46 ∷ decimal (addr / 2 ^ 24 % 2 ^ 8)))),
)

labelled-cost : (s : String) (b : Backend) (n : ℕ) → length (labelled s b n) ≤ length (codes s) + 89
labelled-cost s b n =
    let t4 = decimal_u64 n ++ codes "\n" in
    let t3 = decimal b.port ++ (codes "\"} " ++ t4) in
    let t2 = ipv4_format b.addr 16 ++ (codes ":" ++ t3) in
    let t1 = decimal b.id ++ (codes "\",backend_addr=\"" ++ t2) in
    omega (
      arith,
      length-append (codes s) (codes "{backend_id=\"" ++ t1),
      length-append (decimal b.id) (codes "\",backend_addr=\"" ++ t2),
      length-append (ipv4_format b.addr 16) (codes ":" ++ t3),
      length-append (decimal b.port) (codes "\"} " ++ t4),
      length-append (decimal_u64 n) (codes "\n"),
      length-decimal b.id,
      length-decimal b.port,
      length-decimal_u64 n,
      length-ipv4_format b.addr,
    )

each-cost :
    (s : String) (f : Backend → ℕ) (bs : List Backend)
    → total (map (λ b. labelled s b (f b)) bs) ≤ length bs * (length (codes s) + 89)
each-cost s f [] = omega arith
each-cost s f (b ∷ bs) =
    let step : length (b ∷ bs) * (length (codes s) + 89)
        ≡ length (codes s) + 89 + length bs * (length (codes s) + 89) =
      grind arith in
    omega (arith, step, labelled-cost s b (f b), each-cost s f bs)

rendered-cost :
    (n : ℕ) (bs : List Backend) (a : Append) → length bs ≤ n → total (rendered bs a) ≤ cost n a
rendered-cost n bs (text s) few = omega arith
rendered-cost n bs (value s k) few = omega (
  arith,
  length-append (codes s) (decimal_u64 k ++ codes "\n"),
  length-append (decimal_u64 k) (codes "\n"),
  length-decimal_u64 k,
)
rendered-cost n bs (each s f) few =
    omega (arith, each-cost s f bs, mul-le-mul_right (length (codes s) + 89) few)

all_rendered-costs :
    (n : ℕ) (bs : List Backend) (rest : List Append)
    → length bs ≤ n
    → total (all_rendered bs rest) ≤ costs n rest
all_rendered-costs n bs [] few = omega arith
all_rendered-costs n bs (a ∷ rest) few = omega (
  arith,
  total-append (rendered bs a) (all_rendered bs rest),
  rendered-cost n bs a few,
  all_rendered-costs n bs rest few,
)

-- At most 64 backends make less than 128 KiB.
metrics-costs : (m : MetricsHttp) → costs backend_max (metrics_lines m) ≡ 65908
metrics-costs m = refl

length-snapshot :
    (p : Backend → Bool) (room : ℕ) (slots : List Slot) → length (snapshot p room slots) ≤ room
unfolding snapshot
length-snapshot p zero slots = omega arith
length-snapshot p (suc room) [] = omega arith
length-snapshot p (suc room) (s ∷ ss) =
    ground (arith, length-snapshot p room ss, length-snapshot p (suc room) ss)

length-joined : (ts : List (List ℕ)) → length (joined ts) ≡ total ts
length-joined [] = refl
length-joined (t ∷ ts) = omega (arith, length-append t (joined ts), length-joined ts)

mb_appendf-whole :
    (t : List ℕ) (b : MetricsBuf)
    → length b.data_ + length t < b.cap
    → mb_appendf b t ≡ record b { data_ = b.data_ ++ t }
unfolding mb_appendf
mb_appendf-whole t b room =
    let open_ : leb b.cap (length b.data_) ≡ false = ground (arith, room) in
    let below : ltb (length t) (b.cap - length b.data_) ≡ true =
      lt→ltb (length t) (b.cap - length b.data_) (omega (arith, room)) in
    rw (open_, below) refl

-- While there is room, every text is appended whole.
mb_append_all-whole :
    (ts : List (List ℕ)) (b : MetricsBuf)
    → length b.data_ + total ts < b.cap
    → (mb_append_all ts b).data_ ≡ b.data_ ++ joined ts
unfolding mb_append_all
mb_append_all-whole [] b room = sym (append-nil b.data_)
mb_append_all-whole (t ∷ ts) b room =
    ap (λ c. (mb_append_all ts c).data_) (mb_appendf-whole t b (omega (arith, room)))
    ∙ (mb_append_all-whole ts (record b { data_ = b.data_ ++ t })
          (omega (arith, room, length-append b.data_ t))
        ∙ append_assoc b.data_ t (joined ts))

mb_appendf-le :
    (t : List ℕ) (b : MetricsBuf)
    → length b.data_ ≤ b.cap
    → (length (mb_appendf b t).data_ ≤ b.cap) × ((mb_appendf b t).cap ≡ b.cap)
unfolding mb_appendf
mb_appendf-le t b h = elim (Bool-cases (leb b.cap (length b.data_))) [
  | inl full ↦ rw full (h, refl)
  | inr open_ ↦ elim (Bool-cases (ltb (length t) (b.cap - length b.data_))) [
    | inl below ↦
        let lt = ltb→lt (length t) (b.cap - length b.data_) below in
        rw (open_, below) (omega (arith, length-append b.data_ t, lt), refl)
    | inr over ↦
        let k = b.cap - length b.data_ - 1 in
        let some_room : length b.data_ < b.cap = ground (arith, open_) in
        rw (open_, over)
          (
            omega (
              arith,
              length-append b.data_ (take k t ++ 0 ∷ []),
              length-append (take k t) (0 ∷ []),
              length-take k t,
              some_room,
            ),
            refl,
          )
  ]
]

-- However much is appended, the length of a buffer never passes its capacity.
pub mb_append_all-le :
    (ts : List (List ℕ)) (b : MetricsBuf)
    → length b.data_ ≤ b.cap
    → length (mb_append_all ts b).data_ ≤ b.cap
unfolding mb_append_all
mb_append_all-le [] b h = h
mb_append_all-le (t ∷ ts) b h =
    let step = mb_appendf-le t b h in
    omega (arith, mb_append_all-le ts (mb_appendf b t) (omega (arith, step.0, step.1)), step.1)

abbrev pub empty_body : MetricsBuf
empty_body = record { data_ = []; cap = metrics_body_cap }

-- In an empty buffer of 128 KiB, the text of the metrics is written whole, whatever the state of
-- the balancer is: nothing is cut off, and no terminator is part of it.
pub build_metrics_body-whole :
    (m : MetricsHttp)
    → ((build_metrics_body m empty_body).data_
        ≡ joined (all_rendered (all_backends m) (metrics_lines m)))
      × (length (build_metrics_body m empty_body).data_ ≤ 65908)
unfolding build_metrics_body all_backends backend_manager_snapshot_all
build_metrics_body-whole m =
    let bs = all_backends m in
    let ts = all_rendered bs (metrics_lines m) in
    let few : length bs ≤ backend_max = length-snapshot (λ b. true) backend_max m.bm.slots in
    let small : total ts ≤ 65908 =
      omega (arith, all_rendered-costs backend_max bs (metrics_lines m) few, metrics-costs m) in
    let whole = mb_append_all-whole ts empty_body (omega (arith, small)) in
    (whole, omega (arith, ap length whole, length-joined ts, small))
