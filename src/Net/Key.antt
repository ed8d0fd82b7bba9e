-- ===== src/Net/Key.antt =====
-- `struct flow_key` of src/net/flow.h and its packed bytes. Addresses and ports are the opaque
-- values that the code copies out of the packet.
use l4_maglev_lb.Common.{
  ℕ, Bool, List, [], ◌∷◌, ◌++◌, ◌&&◌, ◌==◌, ◌≡◌, true, arith, bytes16, bytes32,
}

pub record FlowKey : Type 0 where
  pub src_ip : ℕ
  pub dst_ip : ℕ
  pub src_port : ℕ
  pub dst_port : ℕ
  pub proto : ℕ

-- The 13 bytes of the packed struct, which are what is hashed.
unfoldable pub key_bytes : FlowKey → List ℕ
key_bytes k =
    bytes32 k.src_ip
    ++ (bytes32 k.dst_ip ++ (bytes16 k.src_port ++ (bytes16 k.dst_port ++ k.proto ∷ [])))

-- `memcmp(&a, &b, sizeof(a)) == 0` on the packed struct: every field agrees.
unfoldable pub same_key : FlowKey → FlowKey → Bool
same_key a b =
    a.src_ip == b.src_ip
    && (a.dst_ip == b.dst_ip
        && (a.src_port == b.src_port && (a.dst_port == b.dst_port && a.proto == b.proto)))

-- The test finds exactly the same flow.
pub same_key-eq : (a b : FlowKey) → same_key a b ≡ true → a ≡ b
unfolding same_key
same_key-eq a b h = ground arith

pub same_key_refl : (a : FlowKey) → same_key a a ≡ true
unfolding same_key
same_key_refl a = ground arith
