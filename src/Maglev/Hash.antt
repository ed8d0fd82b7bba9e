-- ===== src/Maglev/Hash.antt =====
-- src/maglev/hash.c, and the backend's name from src/maglev/maglev_table.c. `XXH64` (third-party)
-- is the parameter `xxh64`, from bytes and seed to a 64-bit number.
use l4_maglev_lb.Common.{
  ℕ, zero, suc, ◌+◌, ◌/◌, ◌%◌, ◌^◌, ◌<◌, ◌≤◌, List, [], ◌∷◌, ◌++◌, arith, ◌==◌, if◌then◌else◌,
  length, length-append, bytes32, byte_at,
}
use l4_maglev_lb.Net.Key.{FlowKey, key_bytes}

-- `%u`: the decimal digits, pushed in front of `acc`; ten digits serve every 32-bit number.
unfoldable pub decimal_digits : ℕ → ℕ → List ℕ → List ℕ
decimal_digits zero n acc = acc
decimal_digits (suc fuel) n acc =
    let digit = (b'0' + n % 10) ∷ acc in
    let rest = decimal_digits fuel (n / 10) digit in if n / 10 == 0 then digit else rest

unfoldable pub decimal : ℕ → List ℕ
unfolding decimal_digits
decimal n = decimal_digits 10 n []

-- `snprintf(name, sizeof(name), "%u.%u.%u.%u:%u", ip[0], ip[1], ip[2], ip[3], port)`
unfoldable pub backend_name : ℕ → ℕ → List ℕ
unfolding decimal
backend_name addr port =
    let ip = bytes32 addr in
    decimal (byte_at ip 0)
    ++ b'.'
      ∷ (decimal (byte_at ip 1)
          ++ b'.'
            ∷ (decimal (byte_at ip 2) ++ b'.' ∷ (decimal (byte_at ip 3) ++ b':' ∷ decimal port)))

-- `%llu` and `%zu`, with digits for every 64-bit number.
unfoldable pub decimal_u64 : ℕ → List ℕ
unfolding decimal_digits
decimal_u64 n = decimal_digits 20 n []

abbrev pub maglev_seed_offset : ℕ
maglev_seed_offset = 0x4d61676c65764f66

abbrev pub maglev_seed_skip : ℕ
maglev_seed_skip = 0x4d61676c6576536b

abbrev pub flow_hash_seed : ℕ
flow_hash_seed = 0x466c6f7748617368

module _ (xxh64 : List ℕ → ℕ → ℕ) where
  unfoldable pub maglev_hash_offset : List ℕ → ℕ
  maglev_hash_offset name = xxh64 name maglev_seed_offset

  unfoldable pub maglev_hash_skip : List ℕ → ℕ
  maglev_hash_skip name = xxh64 name maglev_seed_skip

  unfoldable pub flow_hash : FlowKey → ℕ
  flow_hash key = xxh64 (key_bytes key) flow_hash_seed

length-decimal_byte : (n : ℕ) → n < 2 ^ 8 → length (decimal n) ≤ 3
unfolding decimal
length-decimal_byte n h = ground arith

length-decimal_port : (n : ℕ) → n < 2 ^ 16 → length (decimal n) ≤ 5
unfolding decimal
length-decimal_port n h = ground arith

-- For a port of 16 bits the name fits the 32-byte buffer with its terminator, so the printed
-- length that is hashed never runs past what was written.
pub length-backend_name : (addr port : ℕ) → port < 2 ^ 16 → length (backend_name addr port) < 32
unfolding backend_name bytes32
length-backend_name addr port h = simp length-append (
    omega (
      arith,
      length-decimal_byte (addr % 2 ^ 8) (omega arith),
      length-decimal_byte (addr / 2 ^ 8 % 2 ^ 8) (omega arith),
      length-decimal_byte (addr / 2 ^ 16 % 2 ^ 8) (omega arith),
      length-decimal_byte (addr / 2 ^ 24 % 2 ^ 8) (omega arith),
      length-decimal_port port h,
    ))

pub length-decimal_digits :
    (fuel n : ℕ) (acc : List ℕ) → length (decimal_digits fuel n acc) ≤ fuel + length acc
unfolding decimal_digits
length-decimal_digits zero n acc = omega arith
length-decimal_digits (suc fuel) n acc =
    ground (arith, length-decimal_digits fuel (n / 10) ((b'0' + n % 10) ∷ acc))
