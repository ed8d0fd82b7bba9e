-- ===== src/Net/Arp.antt =====
-- The exchange of src/net/arp_resolve.c. What the calls on the socket give is an argument; a list of
-- waits ends at the deadline.
use l4_maglev_lb.Common.{
  ℕ, ◌<◌, Bool, true, false, Option, none, some, List, [], ◌∷◌, ◌++◌, bytes32, load32, be16,
  byte_at, length, drop, ◌==◌, if◌then◌else◌, ◌⊎◌, ◌≢◌,
}
use l4_maglev_lb.Net.Headers.{mac_bytes, eth_type_arp, eth_build, build_arp_frame, arp_reply}

-- The calls before the wait; the request is what is sent.
pub record ArpEnv : Type 0 where
  pub socket : Bool
  pub interface : Bool
  pub bound : Bool
  pub send : List ℕ → Bool

-- What `poll` gives, with the frame that is then received.
pub data ArpWait : Type 0 where
  interrupted : ArpWait
  wait_failed : ArpWait
  nothing : ArpWait
  received : List ℕ → ArpWait

abbrev pub or_wait : Option (List ℕ) → Option (List ℕ) → Option (List ℕ)
or_wait (some mac) rest = some mac
or_wait none rest = rest

-- The loop; `none` is -1.
unfoldable pub await_reply : ℕ → List ArpWait → Option (List ℕ)
unfolding arp_reply
await_reply target_ip [] = none
await_reply target_ip (interrupted ∷ waits) = await_reply target_ip waits
await_reply target_ip (wait_failed ∷ waits) = none
await_reply target_ip (nothing ∷ waits) = await_reply target_ip waits
await_reply target_ip (received rx ∷ waits) =
    let rest = await_reply target_ip waits in or_wait (arp_reply target_ip rx) rest

unfoldable pub arp_resolve : ArpEnv → ℕ → List ℕ → ℕ → List ArpWait → Option (List ℕ)
unfolding build_arp_frame await_reply
arp_resolve env target_ip src_mac src_ip waits = elim env.socket [
  | false ↦ none
  | true ↦ elim env.interface [
    | false ↦ none
    | true ↦ elim env.bound [
      | false ↦ none
      | true ↦ elim (env.send (build_arp_frame src_mac src_ip target_ip)) [
        | false ↦ none
        | true ↦ await_reply target_ip waits
      ]
    ]
  ]
]

-- The reply that a host sends to a request, by RFC 826.
abbrev pub arp_answer : List ℕ → ℕ → List ℕ → ℕ → List ℕ
arp_answer host_mac host_ip asker_mac asker_ip =
    eth_build asker_mac host_mac eth_type_arp
    ++ 0
      ∷ 1
      ∷ 8
      ∷ 0
      ∷ 6
      ∷ 4
      ∷ 0
      ∷ 2
      ∷ (mac_bytes host_mac ++ (bytes32 host_ip ++ (mac_bytes asker_mac ++ bytes32 asker_ip)))

-- What a host does with a frame, by RFC 826: it answers a request for its own address, to the one
-- who asks.
abbrev pub arp_host : List ℕ → ℕ → List ℕ → Option (List ℕ)
arp_host host_mac host_ip request =
    if be16 (byte_at request 12) (byte_at request 13) == 0x0806
    then if be16 (byte_at request 20) (byte_at request 21) == 1
      then if load32 request 38 == host_ip
        then some (arp_answer host_mac host_ip (mac_bytes (drop 22 request)) (load32 request 28))
        else none
      else none
    else none

-- A frame that is no reply from the target: it is shorter than an ARP frame, of another type, no
-- reply, or another host has sent it.
abbrev pub FromOther : ℕ → List ℕ → Type 0
FromOther target_ip rx =
    (length rx < 42)
    ⊎ ((be16 (byte_at rx 12) (byte_at rx 13) ≢ 0x0806)
        ⊎ ((be16 (byte_at rx 20) (byte_at rx 21) ≢ 2) ⊎ (load32 rx 28 ≢ target_ip)))

-- No failure of `poll`, and only frames of that kind.
abbrev pub Silent : ℕ → List ArpWait → Type 0
Silent target_ip [] = Unit
Silent target_ip (interrupted ∷ waits) = Silent target_ip waits
Silent target_ip (wait_failed ∷ waits) = ⊥
Silent target_ip (nothing ∷ waits) = Silent target_ip waits
Silent target_ip (received rx ∷ waits) = FromOther target_ip rx × Silent target_ip waits
