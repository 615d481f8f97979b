-- ===== src/LinkFree/HashTable/Buckets.antt =====
-- The buckets of LinkFree/LinkFreeHashTable.h and SOFT/SOFTHashTable.h.
use efficient_lock_free_dura.Common.{
  ℕ, zero, suc, refl, ◌+◌, ◌-◌, ◌*◌, ◌/◌, ◌%◌, ◌^◌, ◌≤◌, ◌<◌, ◌≡◌, ◌⊎◌, inl, inr, leb, Bool-cases,
  arith,
}
use efficient_lock_free_dura.Common.Int.{neg, minus, remainder, abs}
use native.Mathlib.Nat.{mod-lt, div-add-mod'}
use efficient_lock_free_dura.LinkFree.Memory.{Key}
use efficient_lock_free_dura.LinkFree.HashTable.{get_bucket}
use efficient_lock_free_dura.Soft.HashTable

-- `b` is an index of the table, and the key is a multiple of the number of buckets away from `b` or,
-- for a key below zero, from minus `b`.
abbrev pub IsBucketOf : (bucket_num : ℕ) → Key → ℕ → Type 0
IsBucketOf bucket_num k b =
    (b < bucket_num)
    × ((q : ℕ) × (((2 ^ 63 ≤ k) × (k ≡ 2 ^ 63 + (q * bucket_num + b)))
          ⊎ ((k < 2 ^ 63) × (k + (q * bucket_num + b) ≡ 2 ^ 63))))

abs-neg : (n : ℕ) → abs (neg n) ≡ n
abs-neg zero = refl
abs-neg (suc n) = refl

abs-remainder-neg : (n b : ℕ) → abs (remainder (neg n) b) ≡ n % b
abs-remainder-neg zero b = omega arith
abs-remainder-neg (suc n) b = abs-neg (suc n % b)

remainder-IsBucketOf :
    (bucket_num k : ℕ)
    → 0 < bucket_num
    → IsBucketOf bucket_num k (abs (remainder (minus k (2 ^ 63)) bucket_num))
remainder-IsBucketOf bucket_num k some_bucket = elim (Bool-cases (leb (2 ^ 63) k)) [
  | inl high ↦
      let above : 2 ^ 63 ≤ k = ground (arith, high) in
      rw high (
        mod-lt (k - 2 ^ 63) some_bucket,
        (
          (k - 2 ^ 63) / bucket_num,
          inl (above, omega (arith, above, div-add-mod' (k - 2 ^ 63) bucket_num)),
        ),
      )
  | inr low ↦
      let under : k < 2 ^ 63 = ground (arith, low) in
      rw (low, abs-remainder-neg (2 ^ 63 - k) bucket_num)
        (
          mod-lt (2 ^ 63 - k) some_bucket,
          (
            (2 ^ 63 - k) / bucket_num,
            inr (under, omega (arith, under, div-add-mod' (2 ^ 63 - k) bucket_num)),
          ),
        )
]

-- Both hash tables put a key into a bucket of the table whose number is the distance of the key
-- from a multiple of the number of buckets, the nearest towards zero: a key from zero on is that
-- multiple plus the bucket, a key below zero is that multiple less the bucket. The condition:
-- there is a bucket.
pub get_bucket-IsBucketOf :
    (bucket_num k : ℕ)
    → 0 < bucket_num
    → IsBucketOf bucket_num k (get_bucket bucket_num k)
      × IsBucketOf bucket_num k (HashTable.get_bucket bucket_num k)
unfolding get_bucket HashTable.get_bucket
get_bucket-IsBucketOf bucket_num k some_bucket =
    (remainder-IsBucketOf bucket_num k some_bucket, remainder-IsBucketOf bucket_num k some_bucket)
