-- ===== src/LinkFree/Tests/Search.antt =====
-- The theorem on the two searches at a concrete list, with no marked node: head at 16, tail at 48, nodes at
-- 64 and 96 with the keys `int_min + 2` and `int_min + 7`.
use efficient_lock_free_dura.Common.{
  ◌+◌, ◌≡◌, refl, true, false, List, [], ◌∷◌, ◌==◌, if◌then◌else◌, arith,
}
use efficient_lock_free_dura.LinkFree.Memory.{Ptr, Node, Memory, is_wild, exec}
use efficient_lock_free_dura.LinkFree.Utilities.{is_valid, is_marked, get_ref}
use efficient_lock_free_dura.LinkFree.List.{find_loop, int_min, int_max}
use efficient_lock_free_dura.LinkFree.Recovery.{quick_find}
use efficient_lock_free_dura.LinkFree.Shape.{Cell, nil, cons}
use efficient_lock_free_dura.LinkFree.Find.Step.{At}
use efficient_lock_free_dura.LinkFree.Invariant.{head_cell}
use efficient_lock_free_dura.LinkFree.Rebuild.Search.{quick_find-find_loop}
use efficient_lock_free_dura.LinkFree.Tests.{node}

abbrev chain_nodes : Ptr → Node
chain_nodes x =
    if x == 16
    then node 0 false false int_min 64
    else if x == 48
    then node 0 false false int_max 0
    else if x == 64
    then node 0x81 true false (int_min + 2) 96
    else if x == 96
    then node 0x81 true false (int_min + 7) 48
    else node 0 false false 0 0

abbrev chain : Memory
chain = record { cached = chain_nodes; durable = chain_nodes; pool = []; freed = [] }

abbrev chain_cells : List Cell
chain_cells =
    record { ptr = 64; key = int_min + 2; marked = false }
    ∷ record { ptr = 96; key = int_min + 7; marked = false }
    ∷ []

chain-At : At chain.cached 48 (head_cell 16) 64 chain_cells
unfolding is_valid is_marked get_ref is_wild
chain-At = record {
  held = record {
    sound = refl;
    key_eq = refl;
    mark_eq = refl;
    byte = omega arith;
    valid_of_marked = λ d. refl;
    undeleted = λ l. refl;
    inserted = λ s. refl;
  };
  live = refl;
  next = refl;
  seg =
      cons refl
        (record {
          sound = refl;
          key_eq = refl;
          mark_eq = refl;
          byte = omega arith;
          valid_of_marked = λ d. refl;
          undeleted = λ l. refl;
          inserted = λ s. refl;
        })
        (cons refl
          (record {
            sound = refl;
            key_eq = refl;
            mark_eq = refl;
            byte = omega arith;
            valid_of_marked = λ d. refl;
            undeleted = λ l. refl;
            inserted = λ s. refl;
          })
          (nil refl));
  up = (omega arith, (omega arith, omega arith));
  end = record { sound = refl; key_eq = refl; unmarked = refl };
}

quick_find-find_loop_example :
    exec (quick_find 4 (int_min + 5) 16 64) chain ≡ exec (find_loop 4 (int_min + 5) 16 64) chain
quick_find-find_loop_example =
    quick_find-find_loop 4 chain (head_cell 16) chain_cells (int_min + 5) chain-At
      (refl, (refl, tt)) refl (omega arith)
