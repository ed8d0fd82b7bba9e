-- ===== src/Ui/Http.antt =====
-- The HTTP side of src/ui/metrics_http.c. What the calls on sockets and threads give is an
-- argument; a request is not read for what it says.
use l4_maglev_lb.Common.{
  ℕ, zero, suc, ◌≤◌, ◌<◌, ◌≡◌, refl, ap, Bool, true, false, Option, none, some, List, [], ◌∷◌, ◌++◌,
  arith, length, length-append, take, codes,
}
use l4_maglev_lb.Maglev.Hash.{decimal_u64}
use l4_maglev_lb.Ui.Metrics.{
  MetricsHttp, all_backends, all_rendered, metrics_lines, build_metrics_body,
}
use l4_maglev_lb.Ui.Fits.{joined, empty_body, length-decimal_u64, build_metrics_body-whole}

abbrev pub header_start : List ℕ
header_start =
    codes "HTTP/1.1 200 OK\r\nContent-Type: text/plain; version=0.0.4\r\nContent-Length: "

abbrev pub header_end : List ℕ
header_end = codes "\r\nConnection: close\r\n\r\n"

-- The header before it is cut to its buffer.
abbrev pub header_text : ℕ → List ℕ
header_text len = header_start ++ (decimal_u64 len ++ header_end)

-- The header and the body that are sent, where there is memory for the body.
unfoldable pub handle_client : Bool → MetricsHttp → Option (List ℕ × List ℕ)
unfolding build_metrics_body
handle_client false m = none
handle_client true m =
    let mb = build_metrics_body m empty_body in
    some (take 255 (header_text (length mb.data_)), mb.data_)

-- What one `poll` finds: nothing or an error; the descriptor that asks to stop, with whatever else;
-- a client that is accepted or not, and the state and the memory when it is served.
pub data Poll : Type 0 where
  nothing : Poll
  stop_asked : Poll
  client : Bool → Bool → MetricsHttp → Poll

abbrev pub answered : Option (List ℕ × List ℕ) → List (List ℕ × List ℕ) → List (List ℕ × List ℕ)
answered none rest = rest
answered (some reply) rest = reply ∷ rest

-- The answers of `thread_main`, and whether it has ended.
unfoldable pub thread_main : List Poll → List (List ℕ × List ℕ) × Bool
unfolding handle_client
thread_main [] = ([], false)
thread_main (nothing ∷ polls) = thread_main polls
thread_main (stop_asked ∷ polls) = ([], true)
thread_main (client false given m ∷ polls) = thread_main polls
thread_main (client true given m ∷ polls) =
    let rest = thread_main polls in (answered (handle_client given m) rest.0, rest.1)

pub record Endpoint : Type 0 where
  pub listening : Bool
  pub running : Bool

pub record StartEnv : Type 0 where
  pub socket : Bool
  pub bound : Bool
  pub listens : Bool
  pub thread : Bool

abbrev pub down : Endpoint
down = record { listening = false; running = false }

-- 0 is `true`, and -1 is `false`.
unfoldable pub metrics_http_start : StartEnv → Endpoint × Bool
metrics_http_start env = elim env.socket [
  | false ↦ (down, false)
  | true ↦ elim env.bound [
    | false ↦ (down, false)
    | true ↦ elim env.listens [
      | false ↦ (down, false)
      | true ↦ elim env.thread [
        | false ↦ (down, false)
        | true ↦ (record { listening = true; running = true }, true)
      ]
    ]
  ]
]

unfoldable pub metrics_http_stop : Endpoint → Endpoint
metrics_http_stop e = elim e.running [ false ↦ e | true ↦ record e { running = false } ]

take_all : (k : ℕ) (xs : List ℕ) → length xs ≤ k → take k xs ≡ xs
take_all zero [] h = refl
take_all zero (x ∷ xs) h = absurd (omega arith)
take_all (suc k) [] h = refl
take_all (suc k) (x ∷ xs) h = ap (λ ys. x ∷ ys) (take_all k xs (omega arith))

-- A client is sent the whole text of the metrics, of at most 65908 bytes, after a header which fits
-- its buffer of 256 bytes with the terminator and which gives the length of what follows it.
pub handle_client-whole :
    (m : MetricsHttp)
    → (body : List ℕ) × (handle_client true m ≡ some (header_text (length body), body))
      × (body ≡ joined (all_rendered (all_backends m) (metrics_lines m)))
      × (length body ≤ 65908)
      × (length (header_text (length body)) < 256)
unfolding handle_client
handle_client-whole m =
    let body = (build_metrics_body m empty_body).data_ in
    let (whole, small) = build_metrics_body-whole m in
    let short : length (header_text (length body)) ≤ 255 = omega (
      arith,
      length-append (decimal_u64 (length body)) header_end,
      length-decimal_u64 (length body),
    ) in
    (
      body,
      ap (λ h. some (h, body)) (take_all 255 (header_text (length body)) short),
      whole,
      small,
      omega arith,
    )
