-- ===== src/Soft/HashTable.antt =====
-- SOFT/SOFTHashTable.h: a table of SOFT lists. `bucket_num` is the macro `BUCKET_NUM` of the
-- build, `table` gives the head of each bucket's list.
use efficient_lock_free_dura.Common.{ℕ, ◌^◌, Bool}
use efficient_lock_free_dura.Common.Int.{minus, remainder, abs}
use efficient_lock_free_dura.Soft.Memory.{Ptr, Key, Cmd}
use efficient_lock_free_dura.Soft.List

-- `std::abs(k % BUCKET_NUM)`; a key is its distance from INTPTR_MIN, so `k` is that less 2 ^ 63.
unfoldable pub get_bucket : ℕ → Key → ℕ
get_bucket bucket_num k = abs (remainder (minus k (2 ^ 63)) bucket_num)

unfoldable pub insert : ℕ → (ℕ → Ptr) → (rounds walk fuel : ℕ) → Key → ℕ → Cmd Bool
insert bucket_num table rounds walk fuel k item =
    List.insert rounds walk fuel (table (get_bucket bucket_num k)) k item

unfoldable pub remove : ℕ → (ℕ → Ptr) → (walk fuel : ℕ) → Key → Cmd Bool
remove bucket_num table walk fuel k = List.remove walk fuel (table (get_bucket bucket_num k)) k

unfoldable pub contains : ℕ → (ℕ → Ptr) → (walk : ℕ) → Key → Cmd Bool
contains bucket_num table walk k = List.contains walk (table (get_bucket bucket_num k)) k
