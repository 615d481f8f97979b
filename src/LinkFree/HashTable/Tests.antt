-- ===== src/LinkFree/HashTable/Tests.antt =====
-- The theorem on the buckets at a concrete key, minus seven with four buckets.
use efficient_lock_free_dura.Common.{◌-◌, ◌^◌, arith}
use efficient_lock_free_dura.LinkFree.HashTable.{get_bucket}
use efficient_lock_free_dura.LinkFree.HashTable.Buckets.{IsBucketOf, get_bucket-IsBucketOf}
use efficient_lock_free_dura.Soft.HashTable

get_bucket-IsBucketOf_example :
    IsBucketOf 4 (2 ^ 63 - 7) (get_bucket 4 (2 ^ 63 - 7))
    × IsBucketOf 4 (2 ^ 63 - 7) (HashTable.get_bucket 4 (2 ^ 63 - 7))
get_bucket-IsBucketOf_example = get_bucket-IsBucketOf 4 (2 ^ 63 - 7) (omega arith)
