-- ===== src/Maglev/Tests.antt =====
-- The theorems on src/maglev/ at concrete tables, with a hash that adds up its bytes.
use mathlib.Core.List.{Perm}
use l4_maglev_lb.Common.{ℕ, ◌+◌, ◌*◌, ◌%◌, ◌≡◌, ◌≢◌, ◌↔◌, refl, true, List, [], ◌∷◌, arith}
use l4_maglev_lb.Maglev.Prime.{maglev_is_prime, IsPrime, maglev_is_prime-IsPrime}
use l4_maglev_lb.Maglev.Table.{BackendView, MaglevTable, Alloc, ok, stuck, maglev_table_generate}
use l4_maglev_lb.Maglev.Sort.{DistinctIds}
use l4_maglev_lb.Maglev.Start.{IsFull, IsEven}
use l4_maglev_lb.Maglev.Generate.{
  maglev_table_generate-IsFull, maglev_table_generate-IsEven, maglev_table_generate-ne-stuck,
  maglev_table_generate-perm,
}

abbrev pub sum_hash : List ℕ → ℕ → ℕ
sum_hash [] seed = seed
sum_hash (x ∷ xs) seed = sum_hash xs (seed * 31 % 65521 + x)

abbrev pub first_backend : BackendView
first_backend = record { id = 0; addr = 0x0100000a; port = 80; mac = [] }

abbrev pub second_backend : BackendView
second_backend = record { id = 1; addr = 0x0200000a; port = 80; mac = [] }

abbrev pub two_backends : List BackendView
two_backends = first_backend ∷ second_backend ∷ []

abbrev pub all_given : Alloc
all_given = record { table = true; lookup = true; scratch = true; snapshot = true; copy = true }

pub seven-IsPrime : IsPrime 7
unfolding maglev_is_prime
seven-IsPrime = (maglev_is_prime-IsPrime 7 (omega arith)).0 refl

two_DistinctIds : DistinctIds two_backends
two_DistinctIds x = ground arith

maglev_is_prime-IsPrime_example : (maglev_is_prime 65537 ≡ true) ↔ IsPrime 65537
maglev_is_prime-IsPrime_example = maglev_is_prime-IsPrime 65537 (omega arith)

abbrev slot_two : ℕ
slot_two = 2

maglev_table_generate-IsFull_example :
    (t : MaglevTable) × (maglev_table_generate sum_hash all_given two_backends 7 ≡ ok t)
    × IsFull 7 two_backends t
maglev_table_generate-IsFull_example =
    maglev_table_generate-IsFull sum_hash 7 seven-IsPrime (omega arith) all_given two_backends
      (refl, refl, refl) (omega arith) (omega arith, (omega arith, tt))

maglev_table_generate-IsEven_example :
    (t : MaglevTable) × (maglev_table_generate sum_hash all_given two_backends 7 ≡ ok t)
    × IsEven 7 two_backends t
maglev_table_generate-IsEven_example =
    maglev_table_generate-IsEven sum_hash 7 seven-IsPrime (omega arith) all_given two_backends
      (refl, refl, refl) (omega arith) (omega arith, (omega arith, tt)) two_DistinctIds

maglev_table_generate-ne-stuck_example :
    maglev_table_generate sum_hash all_given two_backends 7 ≢ stuck
maglev_table_generate-ne-stuck_example =
    maglev_table_generate-ne-stuck sum_hash 7 seven-IsPrime (omega arith) all_given two_backends
      (omega arith, (omega arith, tt))

swapped : Perm two_backends (second_backend ∷ first_backend ∷ [])
swapped = mathlib.Core.List.Perm.swap second_backend first_backend []

maglev_table_generate-perm_example :
    maglev_table_generate sum_hash all_given two_backends 7
    ≡ maglev_table_generate sum_hash all_given (second_backend ∷ first_backend ∷ []) 7
maglev_table_generate-perm_example =
    maglev_table_generate-perm sum_hash all_given 7 swapped two_DistinctIds
