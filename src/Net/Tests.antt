-- ===== src/Net/Tests.antt =====
-- The theorems on src/net/ at a concrete UDP packet to 10.0.0.1.
use l4_maglev_lb.Common.{ℕ, ◌*◌, ◌≡◌, refl, true, some, List, [], ◌∷◌, arith}
use l4_maglev_lb.Net.Arp.{ArpEnv, ArpWait, interrupted, nothing, received, arp_answer}
use l4_maglev_lb.Net.Headers.{gre_encap_build}
use l4_maglev_lb.Net.Flow.{FlowExtractResult, parse_ok, packet_extract_flow}
use l4_maglev_lb.Net.Encap.{Carries, gre_encap_build-Carries}

-- An Ethernet frame with an IPv4 packet of 28 bytes: from 10.0.0.9:53 to 10.0.0.1:80 over UDP.
abbrev pub sample_frame : List ℕ
sample_frame =
    2 ∷ 0 ∷ 0 ∷ 0 ∷ 0 ∷ 1 ∷ 2 ∷ 0 ∷ 0 ∷ 0 ∷ 0 ∷ 9 ∷ 8 ∷ 0 ∷ 0x45 ∷ 0 ∷ 0 ∷ 28 ∷ 0 ∷ 0 ∷ 0x40 ∷ 0
    ∷ 64 ∷ 17 ∷ 0 ∷ 0 ∷ 10 ∷ 0 ∷ 0 ∷ 9 ∷ 10 ∷ 0 ∷ 0 ∷ 1 ∷ 0 ∷ 53 ∷ 0 ∷ 80 ∷ 0 ∷ 8 ∷ 0 ∷ 0 ∷ []

abbrev pub sample_flow : FlowExtractResult
sample_flow = record {
  key = record {
    src_ip = 0x0900000a;
    dst_ip = 0x0100000a;
    src_port = 53 * 256;
    dst_port = 80 * 256;
    proto = 17;
  };
  ip_offset = 14;
  ip_total_len = 28;
}

pub sample_extracted : packet_extract_flow sample_frame ≡ parse_ok sample_flow
unfolding packet_extract_flow
sample_extracted = refl

gre_encap_build-Carries_example :
    (frame : List ℕ) × (gre_encap_build 2048 [] [] 0x0100000a 0x0200000a 64 (0x45 ∷ 0 ∷ 0 ∷ [])
      ≡ some frame)
    × Carries [] [] 0x0100000a 0x0200000a (0x45 ∷ 0 ∷ 0 ∷ []) frame
gre_encap_build-Carries_example =
    gre_encap_build-Carries [] [] 0x0100000a 0x0200000a 64 (0x45 ∷ 0 ∷ 0 ∷ []) (omega arith)
      (omega arith) (omega arith) (omega arith) 2048 (omega arith)

abbrev sample_arp : ArpEnv
sample_arp = record { socket = true; interface = true; bound = true; send = λ frame. true }

abbrev asker : List ℕ
asker = 2 ∷ 0 ∷ 0 ∷ 0 ∷ 0 ∷ 1 ∷ []

abbrev host : List ℕ
host = 2 ∷ 0 ∷ 0 ∷ 0 ∷ 0 ∷ 7 ∷ []

-- A UDP packet and another host's reply come first.
abbrev other_traffic : List ArpWait
other_traffic =
    interrupted
    ∷ nothing
    ∷ received sample_frame
    ∷ received (arp_answer host 0x0300000a asker 0x0500000a)
    ∷ []
