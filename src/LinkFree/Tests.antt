-- ===== src/LinkFree/Tests.antt =====
-- The theorems on the link-free list at concrete lists, and runs of the operations.
mod Crash
mod Beyond
mod Search
pub mod History
use efficient_lock_free_dura.Common.{
  ℕ, ◌+◌, ◌≡◌, refl, Bool, true, false, Option, none, some, List, [], ◌∷◌, ◌==◌, if◌then◌else◌,
  bit_and, arith,
}
use efficient_lock_free_dura.Common.Prog.{Heeds, Outcome, Returns, done}
use efficient_lock_free_dura.LinkFree.Memory.{Ptr, Key, Node, Memory, is_wild, write, exec, perform}
use efficient_lock_free_dura.LinkFree.Utilities.{
  is_valid, is_marked, get_ref, mark, make_valid, flip_v1,
}
use efficient_lock_free_dura.LinkFree.List
use efficient_lock_free_dura.LinkFree.List.{int_min, int_max}
use efficient_lock_free_dura.LinkFree.Shape.{Cell, nil, cons, persisted}
use efficient_lock_free_dura.LinkFree.Invariant.{IsList, IsSpare}
use efficient_lock_free_dura.LinkFree.Insert.{Inserted, insert-Inserted}
use efficient_lock_free_dura.LinkFree.Remove.{Removed, remove-Removed}
use efficient_lock_free_dura.LinkFree.Contains.{Looked, contains-Looked}
use efficient_lock_free_dura.LinkFree.Construct.{construct, IsBlank, construct-IsList}
use efficient_lock_free_dura.LinkFree.Find.Step.{At}
use efficient_lock_free_dura.LinkFree.Invariant.{head_cell}
use efficient_lock_free_dura.LinkFree.Recovery.{recover}
use efficient_lock_free_dura.LinkFree.Rebuild.{Recovered, recover-Recovered}
use efficient_lock_free_dura.LinkFree.Rebuild.Waiting.{Image}
use efficient_lock_free_dura.Common.Objects.{objects}
use efficient_lock_free_dura.LinkFree.Transitions.{Lawful, Possible, Any, operations-Heeds}
use efficient_lock_free_dura.LinkFree.Utilities.Validity.{validity_cycle}

abbrev pub node : ℕ → Bool → Bool → Key → Ptr → Node
node meta inserted deleted key next = record {
  meta_data = meta;
  insert_flag = inserted;
  delete_flag = deleted;
  key = key;
  value = 0;
  next = next;
}

-- Head at 16, tail at 48; at 64 a marked node with key `int_min + 5`, not flushed yet; at 96 an
-- unmarked one with key `int_min + 7`, flushed; at 128 a spare object.
abbrev nodes : Ptr → Node
nodes x =
    if x == 16
    then node 0 false false int_min 64
    else if x == 48
    then node 0 false false int_max 0
    else if x == 64
    then node 0x81 true false (int_min + 5) 97
    else if x == 96
    then node 0x81 true false (int_min + 7) 48
    else node 0 false false 0 0

abbrev durable_nodes : Ptr → Node
durable_nodes x = if x == 96 then node 0x81 false false (int_min + 7) 48 else node 0 false false 0 0

abbrev two : Memory
two = record { cached = nodes; durable = durable_nodes; pool = 128 ∷ []; freed = [] }

abbrev dead : Cell
dead = record { ptr = 64; key = int_min + 5; marked = true }

abbrev live : Cell
live = record { ptr = 96; key = int_min + 7; marked = false }

abbrev two_cells : List Cell
two_cells = dead ∷ live ∷ []

two-IsList : IsList two 16 48 two_cells
unfolding is_valid is_marked get_ref is_wild persisted
two-IsList = record {
  here = record {
    held = record {
      sound = refl;
      key_eq = refl;
      mark_eq = refl;
      byte = omega arith;
      valid_of_marked = λ d. refl;
      undeleted = λ l. refl;
      inserted = λ s. refl;
    };
    live = refl;
    next = refl;
    seg =
        cons refl
          (record {
            sound = refl;
            key_eq = refl;
            mark_eq = refl;
            byte = omega arith;
            valid_of_marked = λ d. refl;
            undeleted = λ l. refl;
            inserted = λ s. refl;
          })
          (cons refl
            (record {
              sound = refl;
              key_eq = refl;
              mark_eq = refl;
              byte = omega arith;
              valid_of_marked = λ d. refl;
              undeleted = λ l. refl;
              inserted = λ s. refl;
            })
            (nil refl));
    up = omega arith;
    end = record { sound = refl; key_eq = refl; unmarked = refl };
  };
  settled = λ x ne. ground arith;
  owned = λ x k ne e. ground arith;
}

object-IsSpare : IsSpare nodes 16 48 two_cells 128
unfolding is_wild is_marked is_valid
object-IsSpare = record {
  sound = refl;
  ne_tail = omega arith;
  outside = omega arith;
  byte = omega arith;
  valid = refl;
}

insert-Inserted_example :
    Returns
      (Inserted two 16 48 two_cells (int_min + 6) 128 [])
      (exec (List.insert 1 3 16 (int_min + 6) 40) two)
insert-Inserted_example =
    insert-Inserted {m = two} {rest = []} 0 3 (int_min + 6) 40 two-IsList refl object-IsSpare
      (omega arith) (omega arith) (omega arith)

remove-Removed_example :
    Returns
      (Removed two 16 48 two_cells (int_min + 7))
      (exec (List.remove 1 3 16 (int_min + 7)) two)
remove-Removed_example =
    remove-Removed {m = two} 0 3 (int_min + 7) two-IsList (omega arith) (omega arith) (omega arith)

contains-Looked_example :
    Returns (Looked two 16 48 two_cells (int_min + 5)) (exec (List.contains 3 16 (int_min + 5)) two)
contains-Looked_example =
    contains-Looked {m = two} 3 (int_min + 5) two-IsList (omega arith) (omega arith) (omega arith)

abbrev blank : Memory
blank = record {
  cached = λ x. node 0 false false 0 0;
  durable = λ x. node 0 false false 0 0;
  pool = [];
  freed = [];
}

blank-IsBlank : IsBlank blank
unfolding persisted is_valid is_marked
blank-IsBlank = record { cached = λ x. refl; durable = λ x. refl }

construct-IsList_example : IsList (construct 16 48 blank) 16 48 []
unfolding is_wild is_marked
construct-IsList_example =
    construct-IsList {m = blank} 16 48 blank-IsBlank refl refl (omega arith) (omega arith)

validity_cycle_example :
    (is_valid (flip_v1 0x81) ≡ false)
    × (is_valid (make_valid (flip_v1 0x81)) ≡ true)
    × (bit_and (flip_v1 0x81) 0x7f ≡ bit_and 0x81 0x7f)
    × (bit_and (make_valid (flip_v1 0x81)) 0x80 ≡ bit_and (flip_v1 0x81) 0x80)
    × (bit_and (make_valid (flip_v1 0x81)) 0x7e ≡ bit_and 0x81 0x7e)
unfolding is_valid
validity_cycle_example = validity_cycle 0x81 (omega arith) refl

-- Runs, with the memory they leave.
abbrev answer : {A : Type 0} → Outcome Memory A → Option A
answer (done a m) = some a
answer _ = none

abbrev freed_by : {A : Type 0} → Outcome Memory A → List Ptr
freed_by (done a m) = m.freed
freed_by _ = []

-- The removal of the unmarked node frees the marked one on the way.
remove_frees : freed_by (exec (List.remove 1 3 16 (int_min + 7)) two) ≡ 96 ∷ 64 ∷ []
unfolding List.remove List.remove_at List.find List.find_loop List.load_next List.load_key
    List.make_valid_of List.flush_delete List.trim perform write is_wild is_marked get_ref mark
    is_valid
remove_frees = refl

insert_answers : answer (exec (List.insert 1 3 16 (int_min + 6) 40) two) ≡ some true
unfolding List.insert List.insert_at List.link_new List.alloc_node List.flip_v1_of List.find
    List.find_loop List.load_next List.load_key List.make_valid_of List.flush_insert
    List.flush_delete List.trim perform write is_wild is_marked get_ref mark is_valid make_valid
    flip_v1
insert_answers = refl

-- A key above that of the tail runs off the end of the chain, through the null pointer.
contains_faults : exec (List.contains 9 16 (int_max + 1)) two ≡ Outcome.fault
unfolding List.contains List.seek List.load_next List.load_key perform is_wild is_marked get_ref
contains_faults = refl

operations-Heeds_example :
    Heeds Lawful Possible Any (List.insert 2 9 16 (int_min + 6) 40)
    × Heeds Lawful Possible Any (List.remove 2 9 16 (int_min + 6))
operations-Heeds_example = operations-Heeds 2 9 16 (int_min + 6) 40
