-- ===== src/Soft/SkipList/Tests.antt =====
-- Runs of the operations of the SOFT skip list.
use efficient_lock_free_dura.Common.{
  ◌+◌, ◌^◌, ◌≡◌, refl, Bool, true, false, Option, none, some, List, [], ◌∷◌, All,
}
use efficient_lock_free_dura.Common.Prog.{Prog, Outcome, Returns, done, trace, ◌>>=◌, ◌>>◌}
use efficient_lock_free_dura.Soft.Utilities.{get_ref, create_ref, get_state, is_out}
use efficient_lock_free_dura.Soft.SkipList
use efficient_lock_free_dura.Soft.SkipList.Memory.{
  Ptr, Key, Memory, sentinel, construct, is_wild, write, exec, perform,
}
use efficient_lock_free_dura.Soft.SkipList.Search
use efficient_lock_free_dura.Soft.SkipList.Lifecycle.{AllOrNothing, Published, publish-AllOrNothing}

-- Head at 64, last at 128, and two objects in the pool.
abbrev empty : Memory
empty = construct 64 128 (record {
  cached = λ p. sentinel 0 (λ i. 0);
  durable = λ p. sentinel 0 (λ i. 0);
  pool = 192 ∷ 256 ∷ [];
  freed = [];
})

abbrev zero_key : Key
zero_key = 2 ^ 63

abbrev answer : {A : Type 0} → Outcome Memory A → Option (A × List Ptr)
answer (done a m) = some (a, m.freed)
answer _ = none

publish-AllOrNothing_example :
    All
      (λ m'. AllOrNothing 9 40 (m'.cached 192))
      (trace perform (Search.alloc_node 9 40 3 >>= Search.help) empty)
    × Returns
        (λ u m'. Published empty 192 (256 ∷ []) 9 40 m')
        (exec (Search.alloc_node 9 40 3 >>= Search.help) empty)
unfolding construct is_wild Search.is_deleted write
publish-AllOrNothing_example = publish-AllOrNothing empty 192 (256 ∷ []) 9 40 3 refl refl refl

-- Two keys are inserted, in towers of one and of three levels; the first is there, and is removed.
insert_and_remove :
    answer {A = Bool × (Bool × Bool)} (
      exec
        (SkipList.insert 1 3 1 9 (λ t. 1) 64 (zero_key + 5) 1
          >> SkipList.insert 1 3 1 9 (λ t. 3) 64 (zero_key + 9) 1
          >> SkipList.contains 9 64 (zero_key + 5)
          >>= λ there.
              (SkipList.remove 3 1 9 64 (zero_key + 5) >>= λ removed.
              SkipList.contains 9 64 (zero_key + 5) >>= λ after.
              Prog.ret (there, (removed, after))))
        empty)
    ≡ some ((true, (true, false)), 192 ∷ [])
unfolding construct SkipList.insert SkipList.link_new SkipList.help_found SkipList.link_levels
    SkipList.link_level SkipList.store_levels SkipList.contains SkipList.contains_levels
    SkipList.contains_level SkipList.remove SkipList.mark_nodes SkipList.mark_levels
    SkipList.mark_level Search.find_no_cleanup Search.find_succs_no_cleanup Search.pass_levels
    Search.pass_level Search.find Search.find_levels Search.find_level Search.skip_deleted
    Search.load_next Search.load_key Search.alloc_node Search.create Search.help Search.destroy
    Search.state_cas perform write is_wild get_ref create_ref get_state is_out
insert_and_remove = refl
