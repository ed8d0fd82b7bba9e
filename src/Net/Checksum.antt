-- ===== src/Net/Checksum.antt =====
-- The header checksum of src/net/ipv4.c.
use l4_maglev_lb.Common.{
  ℕ, ◌+◌, ◌-◌, ◌/◌, ◌%◌, ◌^◌, ◌<◌, ◌≡◌, ap, ◌∙◌, ◌>>=◌, some, List, [], ◌∷◌, arith, hi8, lo8, be16,
  bytes32,
}
use l4_maglev_lb.Net.Headers.{sum_words, fold_sum, ipv4_checksum, ipv4_header, ipv4_build}

-- Two folds.
abbrev pub folded : ℕ → ℕ
folded s = let t = s % 2 ^ 16 + s / 2 ^ 16 in t % 2 ^ 16 + t / 2 ^ 16

fold_sum-folded : (s : ℕ) → s < 2 ^ 32 → fold_sum 3 s ≡ some (folded s)
unfolding fold_sum
fold_sum-folded s h = ground arith

sum_words-lt : (xs : List ℕ) (s : ℕ) → s < 2 ^ 32 → sum_words xs s < 2 ^ 32
unfolding sum_words
sum_words-lt [] s h = h
sum_words-lt (a ∷ []) s h = omega arith
sum_words-lt (a ∷ b ∷ xs) s h = sum_words-lt xs _ (omega arith)

-- The checksum of any bytes is computed, so its folding loop ends, and it is a 16-bit word.
pub ipv4_checksum-folded :
    (bytes : List ℕ) → (c : ℕ) × (ipv4_checksum bytes ≡ some c) × (c < 2 ^ 16)
unfolding ipv4_checksum
ipv4_checksum-folded bytes =
    let s = sum_words bytes 0 in
    (
      2 ^ 16 - 1 - folded s % 2 ^ 16,
      ap (λ r. r >>= λ sum. some (2 ^ 16 - 1 - sum % 2 ^ 16))
          (fold_sum-folded s (sum_words-lt bytes 0 (omega arith))),
      omega arith,
    )

-- The words of a header with a checksum field, added up.
abbrev words_sum : ℕ → ℕ → ℕ → ℕ → ℕ → ℕ → ℕ
words_sum src_ip dst_ip protocol total_len ttl csum =
    0x4500
    + be16 (hi8 total_len) (lo8 total_len)
    + 0x4000
    + be16 ttl protocol
    + csum
    + be16 (src_ip % 2 ^ 8) (src_ip / 2 ^ 8 % 2 ^ 8)
    + be16 (src_ip / 2 ^ 16 % 2 ^ 8) (src_ip / 2 ^ 24 % 2 ^ 8)
    + be16 (dst_ip % 2 ^ 8) (dst_ip / 2 ^ 8 % 2 ^ 8)
    + be16 (dst_ip / 2 ^ 16 % 2 ^ 8) (dst_ip / 2 ^ 24 % 2 ^ 8)

header-sum :
    (src_ip dst_ip protocol total_len ttl csum : ℕ)
    → protocol < 2 ^ 8
    → ttl < 2 ^ 8
    → csum < 2 ^ 16
    → sum_words (ipv4_header src_ip dst_ip protocol total_len ttl csum) 0
      ≡ words_sum src_ip dst_ip protocol total_len ttl csum
unfolding sum_words bytes32
header-sum src_ip dst_ip protocol total_len ttl csum p t c = omega arith

-- Adding the complement of a sum makes it fold to all ones.
complement : (s : ℕ) → s < 2 ^ 20 → folded (s + (2 ^ 16 - 1 - folded s % 2 ^ 16)) ≡ 2 ^ 16 - 1
complement s h = omega arith

pub ipv4_build-verifies :
    (src_ip dst_ip protocol total_len ttl : ℕ)
    → protocol < 2 ^ 8
    → ttl < 2 ^ 8
    → (csum : ℕ) × (ipv4_build src_ip dst_ip protocol total_len ttl
        ≡ some (ipv4_header src_ip dst_ip protocol total_len ttl csum))
      × (ipv4_checksum (ipv4_header src_ip dst_ip protocol total_len ttl csum) ≡ some 0)
unfolding ipv4_build ipv4_checksum
ipv4_build-verifies src_ip dst_ip protocol total_len ttl p t =
    let header = ipv4_header src_ip dst_ip protocol total_len ttl in
    let s = words_sum src_ip dst_ip protocol total_len ttl 0 in
    let csum = 2 ^ 16 - 1 - folded s % 2 ^ 16 in
    let small : s < 2 ^ 20 = omega arith in
    let whole : words_sum src_ip dst_ip protocol total_len ttl csum ≡ s + csum = omega arith in
    let bare = header-sum src_ip dst_ip protocol total_len ttl 0 p t (omega arith) in
    let full = header-sum src_ip dst_ip protocol total_len ttl csum p t (omega arith) in
    (
      csum,
      ap (λ r. (r >>= λ sum. some (2 ^ 16 - 1 - sum % 2 ^ 16)) >>= λ c. some (header c))
          (ap (fold_sum 3) bare ∙ fold_sum-folded s (omega arith)),
      ap (λ r. r >>= λ sum. some (2 ^ 16 - 1 - sum % 2 ^ 16))
          (ap (fold_sum 3) (full ∙ whole)
            ∙ (fold_sum-folded (s + csum) (omega arith) ∙ ap some (complement s small))),
    )
