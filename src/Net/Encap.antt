-- ===== src/Net/Encap.antt =====
-- `gre_encap_build` of src/net/gre.c: the frame that a backend receives.
use l4_maglev_lb.Common.{
  ℕ, ◌+◌, ◌*◌, ◌/◌, ◌%◌, ◌^◌, ◌≤◌, ◌<◌, ◌≡◌, refl, ap, ◌>>=◌, some, List, ◌++◌, arith, ltb, false,
  length, take, drop, u16, load32, bytes32,
}
use l4_maglev_lb.Net.Headers.{
  eth_type_ip, mac_bytes, ipproto_gre, eth_parse, eth_build, ipv4_parse, ipv4_header, ipv4_checksum,
  gre_parse, gre_build, gre_encap_build,
}
use l4_maglev_lb.Net.Checksum.{ipv4_build-verifies}

pub load32-bytes32 :
    (x : ℕ)
    → x < 2 ^ 32
    → x % 2 ^ 8
        + x / 2 ^ 8 % 2 ^ 8 * 2 ^ 8
        + x / 2 ^ 16 % 2 ^ 8 * 2 ^ 16
        + x / 2 ^ 24 % 2 ^ 8 * 2 ^ 24
      ≡ x
load32-bytes32 x h = omega arith

-- What a receiver reads in the frame.
pub record Carries (dst_mac src_mac : List ℕ) (src_ip dst_ip : ℕ) (inner frame : List ℕ)
    : Type 0 where
  pub size : length frame ≡ length inner + 38
  pub link :
      eth_parse frame
      ≡ some (record {
        dst_mac = mac_bytes dst_mac;
        src_mac = mac_bytes src_mac;
        ethertype = eth_type_ip;
      })
  pub network :
      ipv4_parse (drop 14 frame)
      ≡ some (record {
        ihl_words = 5;
        protocol = ipproto_gre;
        total_length = length inner + 24;
        src_ip = src_ip;
        dst_ip = dst_ip;
        header_len_bytes = 20;
      })
  pub checksum : ipv4_checksum (take 20 (drop 14 frame)) ≡ some 0
  pub tunnel :
      gre_parse (drop 34 frame) ≡ some (record { flags_version = 0; protocol_type = eth_type_ip })
  pub payload : drop 38 frame ≡ inner

module _ (dst_mac src_mac : List ℕ) (src_ip dst_ip ttl : ℕ) (inner : List ℕ)
    (src_fits : src_ip < 2 ^ 32) (dst_fits : dst_ip < 2 ^ 32) (ttl_fits : ttl < 2 ^ 8)
    (short : length inner + 24 < 2 ^ 16) where
  abbrev frame_of : ℕ → List ℕ
  frame_of csum =
      eth_build dst_mac src_mac eth_type_ip
      ++ (ipv4_header src_ip dst_ip ipproto_gre (u16 (20 + 4 + length inner)) ttl csum
          ++ (gre_build eth_type_ip ++ inner))

  frame-Carries :
      (csum : ℕ)
      → ipv4_checksum (ipv4_header src_ip dst_ip ipproto_gre (u16 (20 + 4 + length inner)) ttl csum)
        ≡ some 0
      → Carries dst_mac src_mac src_ip dst_ip inner (frame_of csum)
  unfolding eth_build gre_build eth_parse ipv4_parse gre_parse bytes32 load32
  frame-Carries csum ok = record {
    size = omega arith;
    link = ground arith;
    network = ground (arith, load32-bytes32 src_ip src_fits, load32-bytes32 dst_ip dst_fits);
    checksum = ok;
    tunnel = ground arith;
    payload = refl;
  }

  -- With room for it, addresses of 32 bits and a time to live of 8, a packet of at most 65511
  -- bytes is put into a frame in which a receiver reads the given link and network addresses, IP
  -- in GRE in IP, the right lengths and a checksum that verifies, and behind the headers the
  -- packet itself, byte for byte.
  pub gre_encap_build-Carries :
      (out_cap : ℕ)
      → length inner + 38 ≤ out_cap
      → (frame : List ℕ) × (gre_encap_build out_cap dst_mac src_mac src_ip dst_ip ttl inner
          ≡ some frame)
        × Carries dst_mac src_mac src_ip dst_ip inner frame
  unfolding gre_encap_build
  gre_encap_build-Carries out_cap room =
      let total = u16 (20 + 4 + length inner) in
      let (csum, built, verifies) =
        ipv4_build-verifies src_ip dst_ip ipproto_gre total ttl (omega arith) ttl_fits in
      let fits : ltb out_cap (14 + 20 + 4 + length inner) ≡ false = ground arith in
      (
        frame_of csum,
        rw fits (
            ap
              (λ h. h >>= λ ip.
                some (
                  eth_build dst_mac src_mac eth_type_ip
                  ++ (ip ++ (gre_build eth_type_ip ++ inner))))
              built),
        frame-Carries csum verifies,
      )
