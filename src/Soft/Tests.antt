-- ===== src/Soft/Tests.antt =====
-- The theorems on persistent nodes at concrete nodes, and runs of the operations of the SOFT list.
mod History
mod Beyond
mod Search
mod Calls
use efficient_lock_free_dura.Common.{
  ◌+◌, ◌≡◌, refl, Bool, true, false, Option, none, some, List, [], ◌∷◌, All, ◌==◌, if◌then◌else◌,
}
use efficient_lock_free_dura.Soft.Transitions.{operations-Obeys}
use efficient_lock_free_dura.Soft.Transitions.Parts.{Lawful}
use efficient_lock_free_dura.Common.Prog.{Obeys, Outcome, Returns, done, trace, ◌>>=◌, ◌>>◌}
use efficient_lock_free_dura.Soft.Memory.{
  Ptr, nullptr, Key, PNode, Memory, is_wild, write, exec, perform,
}
use efficient_lock_free_dura.Soft.Utilities.{get_ref, create_ref, get_state}
use efficient_lock_free_dura.Soft.PersistentNode
use efficient_lock_free_dura.Soft.PersistentNode.{
  is_valid, is_deleted, alloc, create, destroy, recovery_validity,
}
use efficient_lock_free_dura.Soft.PersistentNode.Lifecycle.{
  recovered, AllOrNothing, create-AllOrNothing, destroy-AllOrNothing,
}
use efficient_lock_free_dura.Soft.List
use efficient_lock_free_dura.Soft.List.{construct, volatile_node, int_max, int_min}

abbrev pnode : Bool → Bool → Bool → Key → PNode
pnode start end deleted key = record {
  valid_start = start;
  valid_end = end;
  deleted = deleted;
  key = key;
  value = 0;
}

-- At 64 a free node whose three bits are set, at 96 the node of the key 5.
abbrev pnodes : Ptr → PNode
pnodes p =
    if p == 64
    then pnode true true true 7
    else if p == 96
    then pnode true true false 5
    else pnode false false false 0

abbrev blank : Memory
blank = record {
  nodes = λ p. volatile_node 0 0 nullptr false;
  cached = pnodes;
  durable = pnodes;
  node_pool = 128 ∷ 160 ∷ [];
  pnode_pool = 64 ∷ 192 ∷ [];
  freed_nodes = [];
  freed_pnodes = [];
}

create-AllOrNothing_example :
    All (λ m'. AllOrNothing 9 40 (m'.cached 64)) (trace perform (alloc 64 >>= create 64 9 40) blank)
    × Returns
        (λ a m'. (m'.cached 64 ≡ m'.durable 64) × (recovered (m'.durable 64) ≡ some (9, 40)))
        (exec (alloc 64 >>= create 64 9 40) blank)
unfolding is_wild is_deleted
create-AllOrNothing_example = create-AllOrNothing blank 64 9 40 refl refl

destroy-AllOrNothing_example :
    All
      (λ m'. AllOrNothing 5 0 (m'.cached 96))
      (trace perform (recovery_validity 96 >>= destroy 96) blank)
    × Returns
        (λ a m'. (m'.cached 96 ≡ m'.durable 96) × (is_deleted (m'.durable 96) ≡ true))
        (exec (recovery_validity 96 >>= destroy 96) blank)
unfolding is_wild is_deleted is_valid
destroy-AllOrNothing_example = destroy-AllOrNothing blank 96 5 0 refl refl

operations-Obeys_example :
    Obeys Lawful (List.insert 2 9 3 16 (int_min + 6) 40)
    × (Obeys Lawful (List.remove 9 3 16 (int_min + 6))
        × Obeys Lawful (List.contains 9 16 (int_min + 6)))
operations-Obeys_example = operations-Obeys 2 9 3 16 (int_min + 6) 40

-- Runs on an empty list, head at 16 and tail at 48.
abbrev empty : Memory
empty = construct 16 48 blank

abbrev answer : {A : Type 0} → Outcome Memory A → Option A
answer (done a m) = some a
answer _ = none

abbrev freed_by : {A : Type 0} → Outcome Memory A → List Ptr × List Ptr
freed_by (done a m) = (m.freed_nodes, m.freed_pnodes)
freed_by _ = ([], [])

insert_answers : answer (exec (List.insert 1 3 3 16 (int_min + 6) 40) empty) ≡ some true
unfolding construct List.insert List.insert_at List.link_new List.finish_insert List.advance
    List.state_cas List.alloc_new_volatile_node List.find List.find_loop List.load_next
    List.load_key List.trim PersistentNode.alloc PersistentNode.create perform write is_wild get_ref
    create_ref get_state
insert_answers = refl

-- The removal of a key frees its persistent node; the volatile node is not given back.
remove_frees :
    freed_by
      (exec (List.insert 1 3 3 16 (int_min + 6) 40 >> List.remove 3 3 16 (int_min + 6)) empty)
    ≡ ([], 64 ∷ [])
unfolding construct List.insert List.insert_at List.link_new List.finish_insert List.advance
    List.state_cas List.alloc_new_volatile_node List.find List.find_loop List.load_next
    List.load_key List.trim PersistentNode.alloc PersistentNode.create PersistentNode.destroy
    List.remove List.remove_at List.claim perform write is_wild get_ref create_ref get_state
remove_frees = refl

contains_answers :
    answer (exec (List.insert 1 3 3 16 (int_min + 6) 40 >> List.contains 3 16 (int_min + 6)) empty)
    ≡ some true
unfolding construct List.insert List.insert_at List.link_new List.finish_insert List.advance
    List.state_cas List.alloc_new_volatile_node List.find List.find_loop List.load_next
    List.load_key List.trim PersistentNode.alloc PersistentNode.create List.contains List.seek
    perform write is_wild get_ref create_ref get_state
contains_answers = refl
