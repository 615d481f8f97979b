-- ===== src/LinkFree/SkipList/Tests.antt =====
-- Runs of the operations of the link-free skip list.
use efficient_lock_free_dura.Common.{
  ◌+◌, ◌^◌, ◌≡◌, refl, Bool, true, false, Option, none, some, List, [], ◌∷◌,
}
use efficient_lock_free_dura.Common.Prog.{Prog, Outcome, done, ◌>>=◌, ◌>>◌}
use efficient_lock_free_dura.LinkFree.Utilities.{
  flip_v1, is_valid, make_valid, is_marked, get_ref, mark,
}
use efficient_lock_free_dura.LinkFree.SkipList
use efficient_lock_free_dura.LinkFree.SkipList.Memory.{
  Ptr, Key, Tower, Memory, construct, is_wild, write, exec, perform,
}
use efficient_lock_free_dura.LinkFree.SkipList.Search

abbrev blank_tower : Tower
blank_tower = record {
  meta_data = 0;
  insert_flag = false;
  delete_flag = false;
  top_level = 0;
  key = 0;
  value = 0;
  next = λ i. 0;
}

-- Head at 64, last at 128, and two objects in the pool.
abbrev empty : Memory
empty = construct 64 128 (record {
  cached = λ p. blank_tower;
  durable = λ p. blank_tower;
  pool = 192 ∷ 256 ∷ [];
  freed = [];
})

abbrev zero_key : Key
zero_key = 2 ^ 63

abbrev answer : {A : Type 0} → Outcome Memory A → Option (A × List Ptr)
answer (done a m) = some (a, m.freed)
answer _ = none

-- Two keys are inserted, in towers of one and of three levels; the first is there, and is removed.
insert_and_remove :
    answer {A = Bool × (Bool × Bool)} (
      exec
        (SkipList.insert 1 3 1 9 (λ t. 1) 64 (zero_key + 5) 1
          >> SkipList.insert 1 3 1 9 (λ t. 3) 64 (zero_key + 9) 1
          >> SkipList.contains 9 64 (zero_key + 5)
          >>= λ there.
              (SkipList.remove 3 1 9 64 (zero_key + 5) >>= λ removed.
              SkipList.contains 9 64 (zero_key + 5) >>= λ after.
              Prog.ret (there, (removed, after))))
        empty)
    ≡ some ((true, (true, false)), 192 ∷ [])
unfolding construct SkipList.insert SkipList.link_new SkipList.link_levels SkipList.link_level
    SkipList.store_levels SkipList.alloc_node SkipList.contains SkipList.contains_levels
    SkipList.contains_level SkipList.remove SkipList.mark_node SkipList.mark_levels
    SkipList.mark_level Search.find_no_cleanup Search.find_succs_no_cleanup Search.pass_levels
    Search.pass_level Search.find Search.find_levels Search.find_level Search.skip_marked
    Search.load_next Search.load_key Search.make_valid_of Search.flush_delete Search.flush_insert
    perform write is_wild flip_v1 is_valid make_valid is_marked get_ref mark
insert_and_remove = refl
