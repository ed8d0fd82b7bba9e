-- ===== src/Net/Headers.antt =====
-- src/net/{eth,ipv4,tcp_udp,gre}.c and the request frame of src/net/arp_resolve.c. A buffer with
-- its length is the list of its bytes; a builder's result is the bytes that it writes.
use l4_maglev_lb.Common.{
  ℕ, zero, suc, ◌+◌, ◌-◌, ◌*◌, ◌/◌, ◌%◌, ◌^◌, Option, none, some, List, [], ◌∷◌, ◌++◌, ltb, ◌==◌,
  ◌||◌, not, if◌then◌else◌, ◌>>=◌, length, take, drop, u16, u32, hi8, lo8, be16, byte_at, load16,
  load32, bytes32,
}
use l4_maglev_lb.Maglev.Hash.{decimal}

abbrev pub eth_hdr_len : ℕ
eth_hdr_len = 14

abbrev pub ipv4_min_hdr_len : ℕ
ipv4_min_hdr_len = 20

abbrev pub gre_hdr_len : ℕ
gre_hdr_len = 4

abbrev pub eth_type_ip : ℕ
eth_type_ip = 0x0800

abbrev pub eth_type_arp : ℕ
eth_type_arp = 0x0806

abbrev pub ipproto_gre : ℕ
ipproto_gre = 47

-- The six bytes at the start of a buffer.
abbrev pub mac_bytes : List ℕ → List ℕ
mac_bytes b = byte_at b 0 ∷ byte_at b 1 ∷ byte_at b 2 ∷ byte_at b 3 ∷ byte_at b 4 ∷ byte_at b 5 ∷ []

pub record EthHdrView : Type 0 where
  pub dst_mac : List ℕ
  pub src_mac : List ℕ
  pub ethertype : ℕ

unfoldable pub eth_parse : List ℕ → Option EthHdrView
eth_parse buf =
    if ltb (length buf) eth_hdr_len
    then none
    else some (record {
      dst_mac = mac_bytes buf;
      src_mac = mac_bytes (drop 6 buf);
      ethertype = be16 (byte_at buf 12) (byte_at buf 13);
    })

unfoldable pub eth_build : List ℕ → List ℕ → ℕ → List ℕ
eth_build dst_mac src_mac ethertype =
    mac_bytes dst_mac ++ (mac_bytes src_mac ++ hi8 ethertype ∷ lo8 ethertype ∷ [])

pub record Ipv4HdrView : Type 0 where
  pub ihl_words : ℕ
  pub protocol : ℕ
  pub total_length : ℕ
  pub src_ip : ℕ
  pub dst_ip : ℕ
  pub header_len_bytes : ℕ

unfoldable pub ipv4_parse : List ℕ → Option Ipv4HdrView
unfolding load32
ipv4_parse buf =
    let len = length buf in
    let version = byte_at buf 0 / 2 ^ 4 in
    let ihl = byte_at buf 0 % 2 ^ 4 in
    let header_len = ihl * 4 in
    let total_length = be16 (byte_at buf 2) (byte_at buf 3) in
    if ltb len ipv4_min_hdr_len
    then none
    else if not (version == 4) || ltb ihl 5
    then none
    else if ltb len header_len
    then none
    else if ltb total_length header_len || ltb len total_length
    then none
    else some (record {
      ihl_words = ihl;
      protocol = byte_at buf 9;
      total_length = total_length;
      src_ip = load32 buf 12;
      dst_ip = load32 buf 16;
      header_len_bytes = header_len;
    })

-- The two loops that add up the 16-bit words and a last odd byte.
unfoldable pub sum_words : List ℕ → ℕ → ℕ
sum_words [] sum = sum
sum_words (a ∷ []) sum = u32 (sum + a * 2 ^ 8)
sum_words (a ∷ b ∷ rest) sum = sum_words rest (u32 (sum + be16 a b))

-- `while (sum >> 16)`
unfoldable pub fold_sum : ℕ → ℕ → Option ℕ
fold_sum zero sum = none
fold_sum (suc fuel) sum =
    let rest = fold_sum fuel (sum % 2 ^ 16 + sum / 2 ^ 16) in
    if sum / 2 ^ 16 == 0 then some sum else rest

-- Two folds bring a 32-bit sum below 2^16, so three rounds are enough.
unfoldable pub ipv4_checksum : List ℕ → Option ℕ
unfolding sum_words fold_sum
ipv4_checksum bytes = fold_sum 3 (sum_words bytes 0) >>= λ sum. some (2 ^ 16 - 1 - sum % 2 ^ 16)

-- The header with a given checksum field.
abbrev pub ipv4_header : ℕ → ℕ → ℕ → ℕ → ℕ → ℕ → List ℕ
ipv4_header src_ip dst_ip protocol total_len ttl csum =
    0x45
    ∷ 0x00
    ∷ hi8 total_len
    ∷ lo8 total_len
    ∷ 0x00
    ∷ 0x00
    ∷ 0x40
    ∷ 0x00
    ∷ ttl
    ∷ protocol
    ∷ hi8 csum
    ∷ lo8 csum
    ∷ (bytes32 src_ip ++ bytes32 dst_ip)

unfoldable pub ipv4_build : ℕ → ℕ → ℕ → ℕ → ℕ → Option (List ℕ)
unfolding ipv4_checksum bytes32
ipv4_build src_ip dst_ip protocol total_len ttl =
    ipv4_checksum (ipv4_header src_ip dst_ip protocol total_len ttl 0) >>= λ csum.
    some (ipv4_header src_ip dst_ip protocol total_len ttl csum)

-- The text without its terminator, cut to the buffer as `snprintf` does.
unfoldable pub ipv4_format : ℕ → ℕ → List ℕ
unfolding decimal
ipv4_format addr out_cap = take (out_cap - 1) (
    decimal (addr % 2 ^ 8)
    ++ 46
      ∷ (decimal (addr / 2 ^ 8 % 2 ^ 8)
          ++ 46 ∷ (decimal (addr / 2 ^ 16 % 2 ^ 8) ++ 46 ∷ decimal (addr / 2 ^ 24 % 2 ^ 8))))

unfoldable pub tcp_parse_ports : List ℕ → Option (ℕ × ℕ)
unfolding load16
tcp_parse_ports buf = if ltb (length buf) 20 then none else some (load16 buf 0, load16 buf 2)

unfoldable pub udp_parse_ports : List ℕ → Option (ℕ × ℕ)
unfolding load16
udp_parse_ports buf = if ltb (length buf) 8 then none else some (load16 buf 0, load16 buf 2)

pub record GreHdrView : Type 0 where
  pub flags_version : ℕ
  pub protocol_type : ℕ

unfoldable pub gre_parse : List ℕ → Option GreHdrView
gre_parse buf =
    let flags = be16 (byte_at buf 0) (byte_at buf 1) in
    if ltb (length buf) gre_hdr_len
    then none
    else if flags == 0
    then some
        (record { flags_version = flags; protocol_type = be16 (byte_at buf 2) (byte_at buf 3) })
    else none

unfoldable pub gre_build : ℕ → List ℕ
gre_build protocol_type = 0x00 ∷ 0x00 ∷ hi8 protocol_type ∷ lo8 protocol_type ∷ []

-- `none` is the 0 for an output buffer that is too small.
unfoldable pub gre_encap_build : ℕ → List ℕ → List ℕ → ℕ → ℕ → ℕ → List ℕ → Option (List ℕ)
unfolding eth_build ipv4_build gre_build
gre_encap_build out_cap dst_mac src_mac outer_src_ip outer_dst_ip ttl inner =
    let total = eth_hdr_len + ipv4_min_hdr_len + gre_hdr_len + length inner in
    let outer_total_len = u16 (ipv4_min_hdr_len + gre_hdr_len + length inner) in
    let header = ipv4_build outer_src_ip outer_dst_ip ipproto_gre outer_total_len ttl in
    if ltb out_cap total
    then none
    else header >>= λ ip.
        some (eth_build dst_mac src_mac eth_type_ip ++ (ip ++ (gre_build eth_type_ip ++ inner)))

unfoldable pub build_arp_frame : List ℕ → ℕ → ℕ → List ℕ
unfolding eth_build bytes32
build_arp_frame src_mac src_ip target_ip =
    eth_build (0xff ∷ 0xff ∷ 0xff ∷ 0xff ∷ 0xff ∷ 0xff ∷ []) src_mac eth_type_arp
    ++ 0x00
      ∷ 1
      ∷ 0x08
      ∷ 0x00
      ∷ 6
      ∷ 4
      ∷ 0x00
      ∷ 1
      ∷ (mac_bytes src_mac ++ (bytes32 src_ip ++ (0 ∷ 0 ∷ 0 ∷ 0 ∷ 0 ∷ 0 ∷ bytes32 target_ip)))

-- What `arp_resolve` does with a received frame: the sender's address, if the frame is a reply
-- from the target.
unfoldable pub arp_reply : ℕ → List ℕ → Option (List ℕ)
unfolding eth_parse load32
arp_reply target_ip rx =
    if ltb (length rx) 42
    then none
    else eth_parse rx >>= λ eth.
        let p = drop eth_hdr_len rx in
        if eth.ethertype == eth_type_arp
        then if be16 (byte_at p 6) (byte_at p 7) == 2
          then if load32 p 14 == target_ip then some (mac_bytes (drop 8 p)) else none
          else none
        else none
