-- ===== src/Forward/Accounts.antt =====
-- The accounts of `handle_packet` of src/forward/datapath.c: what becomes of a packet is in the
-- counters.
use l4_maglev_lb.Common.{
  ℕ, zero, suc, ◌<◌, ◌≡◌, true, false, Option, none, some, List, [], ◌∷◌, ◌⊎◌, ◌==◌, ltb,
  if◌then◌else◌,
}
use l4_maglev_lb.Net.Flow.{
  FlowExtractResult, ParseStatus, parse_ok, parse_truncated, parse_unsupported,
}
use l4_maglev_lb.Stats.{Counters, plus}
use l4_maglev_lb.Forward.Datapath.{DatapathConfig, Datapath}

-- The counters of the drops, by their reasons.
abbrev pub drops : Counters → List ℕ
drops c =
    c.drops_parse_error ∷ c.drops_no_backend ∷ c.drops_backend_unhealthy ∷ c.drops_conntrack_full
    ∷ []

-- What has come in and gone out.
abbrev pub traffic : Counters → ℕ × ℕ × ℕ × ℕ
traffic c = (c.rx_packets, c.rx_bytes, c.tx_packets, c.tx_bytes)

-- The datapath with one more packet received, of `n` bytes, and nothing else changed.
abbrev pub received : ℕ → Datapath → Datapath
received n dp = record dp {
  stats = record dp.stats {
    counters = record dp.stats.counters {
      rx_packets = plus dp.stats.counters.rx_packets 1;
      rx_bytes = plus dp.stats.counters.rx_bytes n;
    };
  };
}

-- With one more parse error, and nothing else changed.
abbrev pub malformed : Datapath → Datapath
malformed dp = record dp {
  stats = record dp.stats {
    counters = record dp.stats.counters {
      drops_parse_error = plus dp.stats.counters.drops_parse_error 1;
    };
  };
}

-- One more at this place.
abbrev pub bump : ℕ → List ℕ → List ℕ
bump i [] = []
bump zero (x ∷ xs) = plus x 1 ∷ xs
bump (suc i) (x ∷ xs) = x ∷ bump i xs

-- What `n` bytes sent add.
abbrev pub sent : ℕ → ℕ × ℕ × ℕ × ℕ → ℕ × ℕ × ℕ × ℕ
sent n (packets_in, bytes_in, packets, total) =
    if ltb 0 n
    then (packets_in, bytes_in, plus packets 1, plus total n)
    else (packets_in, bytes_in, packets, total)

module _ (send : List ℕ → ℕ) (ds : List ℕ) (ts : ℕ × ℕ × ℕ × ℕ)
    (r : Datapath × Option (List ℕ)) where
  -- No frame, and one more drop of one reason.
  pub record Dropped : Type 0 where
    pub reason : ℕ
    pub known : reason < 4
    pub silent : r.1 ≡ none
    pub noted : drops r.0.stats.counters ≡ bump reason ds
    pub unsent : traffic r.0.stats.counters ≡ ts

  -- One frame, and no drop.
  pub record Forwarded : Type 0 where
    pub frame : List ℕ
    pub emitted : r.1 ≡ some frame
    pub undropped : drops r.0.stats.counters ≡ ds
    pub noted : traffic r.0.stats.counters ≡ sent (send frame) ts

module _ (cfg : DatapathConfig) (send : List ℕ → ℕ) where
  -- Of the two, one.
  abbrev pub Outcome : Counters → Datapath × Option (List ℕ) → Type 0
  Outcome c r = Dropped send (drops c) (traffic c) r ⊎ Forwarded send (drops c) (traffic c) r

  module _ (xxh64 : List ℕ → ℕ → ℕ) (now : ℕ) where
    -- What is not for the balancer: another protocol, or another address.
    abbrev pub Ignorable : ParseStatus → Type 0
    Ignorable ps =
        (ps ≡ parse_unsupported)
        ⊎ ((fx : FlowExtractResult) × (ps ≡ parse_ok fx) × ((fx.key.dst_ip == cfg.vip) ≡ false))

    -- What is: a flow to the virtual address.
    abbrev pub Addressed : ParseStatus → Type 0
    Addressed ps =
        (fx : FlowExtractResult) × (ps ≡ parse_ok fx) × ((fx.key.dst_ip == cfg.vip) ≡ true)

    -- No two of the three cases are of the same packet.
    abbrev pub Account : ParseStatus → Datapath → Datapath × Option (List ℕ) → Type 0
    Account ps dp r =
        (Ignorable ps × (r ≡ (dp, none)))
        ⊎ (((ps ≡ parse_truncated) × (r ≡ (malformed dp, none)))
            ⊎ (Addressed ps × Outcome dp.stats.counters r))
