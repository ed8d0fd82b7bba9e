-- ===== src/Net/Flow.antt =====
-- `packet_extract_flow` of src/net/flow.c: it never reads or reports beyond the frame.
use l4_maglev_lb.Common.{
  ℕ, zero, suc, [], ◌∷◌, ap, ◌∙◌, ◌⊎◌, load32, byte_at, ◌+◌, ◌≤◌, ◌*◌, ◌%◌, ◌^◌, be16, load16, ◌≡◌,
  refl, sym, Option, none, some, List, arith, ltb, ◌==◌, if◌then◌else◌, length, drop, Option-cases,
  Bool-cases, inl, inr, length-drop,
}
use l4_maglev_lb.Net.Key.{FlowKey}
use l4_maglev_lb.Net.Headers.{
  eth_hdr_len, ipv4_min_hdr_len, eth_type_ip, EthHdrView, Ipv4HdrView, eth_parse, ipv4_parse,
  tcp_parse_ports, udp_parse_ports,
}

pub record FlowExtractResult : Type 0 where
  pub key : FlowKey
  pub ip_offset : ℕ
  pub ip_total_len : ℕ

pub data ParseStatus : Type 0 where
  parse_ok : FlowExtractResult → ParseStatus
  parse_truncated parse_unsupported : ParseStatus

-- The end of the function, from the result of the port parser on.
abbrev pub with_ports : Ipv4HdrView → Option (ℕ × ℕ) → ParseStatus
with_ports ip none = parse_truncated
with_ports ip (some (src_port, dst_port)) = parse_ok (record {
  key = record {
    src_ip = ip.src_ip;
    dst_ip = ip.dst_ip;
    src_port = src_port;
    dst_port = dst_port;
    proto = ip.protocol;
  };
  ip_offset = eth_hdr_len;
  ip_total_len = ip.total_length;
})

abbrev pub with_ip : List ℕ → Option Ipv4HdrView → ParseStatus
with_ip buf none = parse_truncated
with_ip buf (some ip) =
    let l4 = drop (eth_hdr_len + ip.header_len_bytes) buf in
    if ip.protocol == 6
    then with_ports ip (tcp_parse_ports l4)
    else if ip.protocol == 17
    then with_ports ip (udp_parse_ports l4)
    else parse_unsupported

abbrev pub with_eth : List ℕ → Option EthHdrView → ParseStatus
with_eth buf none = parse_truncated
with_eth buf (some eth) =
    if eth.ethertype == eth_type_ip
    then if ltb (length buf) eth_hdr_len
      then parse_truncated
      else with_ip buf (ipv4_parse (drop eth_hdr_len buf))
    else parse_unsupported

unfoldable pub packet_extract_flow : List ℕ → ParseStatus
unfolding eth_parse ipv4_parse tcp_parse_ports udp_parse_ports
packet_extract_flow buf = with_eth buf (eth_parse buf)

-- Where the TCP or UDP header is: behind as many words of 32 bits as the IPv4 header says.
abbrev pub l4_offset : List ℕ → ℕ
l4_offset buf = eth_hdr_len + byte_at buf eth_hdr_len % 2 ^ 4 * 4

-- What an extracted flow tells of the frame.
pub record Extracts (buf : List ℕ) (r : FlowExtractResult) : Type 0 where
  pub offset : r.ip_offset ≡ eth_hdr_len
  pub inside : r.ip_offset + r.ip_total_len ≤ length buf
  pub header : ipv4_min_hdr_len ≤ r.ip_total_len
  pub routed : (r.key.proto ≡ 6) ⊎ (r.key.proto ≡ 17)
  pub source : r.key.src_ip ≡ load32 buf (eth_hdr_len + 12)
  pub target : r.key.dst_ip ≡ load32 buf (eth_hdr_len + 16)
  pub declared :
      r.ip_total_len ≡ be16 (byte_at buf (eth_hdr_len + 2)) (byte_at buf (eth_hdr_len + 3))
  pub protocol : r.key.proto ≡ byte_at buf (eth_hdr_len + 9)
  pub source_port : r.key.src_port ≡ load16 buf (l4_offset buf)
  pub target_port : r.key.dst_port ≡ load16 buf (l4_offset buf + 2)

pub byte_at-drop : (n : ℕ) (buf : List ℕ) (i : ℕ) → byte_at (drop n buf) i ≡ byte_at buf (n + i)
byte_at-drop zero buf i = let e : i ≡ 0 + i = omega arith in ap (byte_at buf) e
byte_at-drop (suc n) [] i = refl
byte_at-drop (suc n) (b ∷ buf) i =
    let e : suc (n + i) ≡ suc n + i = omega arith in byte_at-drop n buf i ∙ ap (byte_at (b ∷ buf)) e

ipv4_parse-inside :
    (buf : List ℕ) (ip : Ipv4HdrView)
    → ipv4_parse buf ≡ some ip
    → (ip.total_length ≤ length buf)
      × (ipv4_min_hdr_len ≤ ip.header_len_bytes)
      × (ip.header_len_bytes ≤ ip.total_length)
      × (ip.src_ip ≡ load32 buf 12)
      × (ip.dst_ip ≡ load32 buf 16)
      × (ip.total_length ≡ be16 (byte_at buf 2) (byte_at buf 3))
      × (ip.protocol ≡ byte_at buf 9)
      × (ip.header_len_bytes ≡ byte_at buf 0 % 2 ^ 4 * 4)
unfolding ipv4_parse
ipv4_parse-inside buf ip h = ground arith

with_ports-inside :
    (ip : Ipv4HdrView) (o : Option (ℕ × ℕ)) (r : FlowExtractResult)
    → with_ports ip o ≡ parse_ok r
    → (r.ip_offset ≡ eth_hdr_len)
      × (r.ip_total_len ≡ ip.total_length)
      × (r.key.proto ≡ ip.protocol)
      × (r.key.src_ip ≡ ip.src_ip)
      × (r.key.dst_ip ≡ ip.dst_ip)
with_ports-inside ip o r h = ground arith

with_ip-inside :
    (buf : List ℕ) (ip : Ipv4HdrView) (r : FlowExtractResult)
    → with_ip buf (some ip) ≡ parse_ok r
    → (r.ip_offset ≡ eth_hdr_len)
      × (r.ip_total_len ≡ ip.total_length)
      × (r.key.src_ip ≡ ip.src_ip)
      × (r.key.dst_ip ≡ ip.dst_ip)
      × ((r.key.proto ≡ 6) ⊎ (r.key.proto ≡ 17))
with_ip-inside buf ip r h =
    let l4 = drop (eth_hdr_len + ip.header_len_bytes) buf in
    ground (
      arith,
      with_ports-inside ip (tcp_parse_ports l4) r,
      with_ports-inside ip (udp_parse_ports l4) r,
    )

with_ip-ports :
    (buf : List ℕ) (ip : Ipv4HdrView) (r : FlowExtractResult)
    → with_ip buf (some ip) ≡ parse_ok r
    → (r.key.src_port ≡ load16 (drop (eth_hdr_len + ip.header_len_bytes) buf) 0)
      × (r.key.dst_port ≡ load16 (drop (eth_hdr_len + ip.header_len_bytes) buf) 2)
unfolding tcp_parse_ports udp_parse_ports load16
with_ip-ports buf ip r h = ground arith

load16-drop : (n : ℕ) (buf : List ℕ) (i : ℕ) → load16 (drop n buf) i ≡ load16 buf (n + i)
unfolding load16
load16-drop n buf i = ground (arith, byte_at-drop n buf i, byte_at-drop n buf (i + 1))

l4_offset-header :
    (buf : List ℕ) (ip : Ipv4HdrView)
    → ipv4_parse (drop eth_hdr_len buf) ≡ some ip
    → eth_hdr_len + ip.header_len_bytes ≡ l4_offset buf
l4_offset-header buf ip parsed =
    let f = ipv4_parse-inside (drop eth_hdr_len buf) ip parsed in
    ground (arith, f, byte_at-drop eth_hdr_len buf 0)

with_ip-Extracts :
    (buf : List ℕ) (r : FlowExtractResult)
    → eth_hdr_len ≤ length buf
    → with_ip buf (ipv4_parse (drop eth_hdr_len buf)) ≡ parse_ok r
    → Extracts buf r
unfolding load32
with_ip-Extracts buf r long h = elim (Option-cases (ipv4_parse (drop eth_hdr_len buf))) [
  | inl bad ↦ absurd (nothing (sym (ap (with_ip buf) bad) ∙ h))
  | inr (ip, parsed) ↦
      let f = ipv4_parse-inside (drop eth_hdr_len buf) ip parsed in
      let size = length-drop eth_hdr_len buf in
      let at = byte_at-drop eth_hdr_len buf in
      let ports = with_ip-ports buf ip r (sym (ap (with_ip buf) parsed) ∙ h) in
      let behind = l4_offset-header buf ip parsed in
      let g = with_ip-inside buf ip r (sym (ap (with_ip buf) parsed) ∙ h) in
      record {
        offset = g.0;
        inside = omega (arith, f, g.0, g.1, size);
        header = omega (arith, f, g.1);
        routed = g.4;
        source = ground (arith, f, g, at 12, at 13, at 14, at 15);
        target = ground (arith, f, g, at 16, at 17, at 18, at 19);
        declared = ground (arith, f, g, at 2, at 3);
        protocol = ground (arith, f, g, at 9);
        source_port =
            ports.0
            ∙ (load16-drop (eth_hdr_len + ip.header_len_bytes) buf 0
                ∙ ap (load16 buf) (omega (arith, behind)));
        target_port =
            ports.1
            ∙ (load16-drop (eth_hdr_len + ip.header_len_bytes) buf 2
                ∙ ap (λ n. load16 buf (n + 2)) behind);
      }
]
  where
    nothing : parse_truncated ≡ parse_ok r → ⊥
    nothing e = ground arith

pub packet_extract_flow-Extracts :
    (buf : List ℕ) (r : FlowExtractResult) → packet_extract_flow buf ≡ parse_ok r → Extracts buf r
unfolding packet_extract_flow eth_parse
packet_extract_flow-Extracts buf r h = elim (Bool-cases (ltb (length buf) eth_hdr_len)) [
  | inl short ↦ absurd (ground (arith, short))
  | inr long ↦ with_ip-Extracts buf r (ground arith) (ground arith)
]
