-- ===== src/Soft/Tests/Calls.antt =====
-- The theorems on single calls of the SOFT list, and on `recovery`, at concrete lists.
use efficient_lock_free_dura.Common.{
  ◌+◌, ◌≡◌, refl, true, false, [], ◌∷◌, ◌==◌, if◌then◌else◌, arith,
}
use efficient_lock_free_dura.Common.Prog.{Returns}
use efficient_lock_free_dura.Common.Objects.{objects}
use efficient_lock_free_dura.Soft.Memory.{Ptr, nullptr, Node, PNode, Memory, is_wild, write, exec}
use efficient_lock_free_dura.Soft.Utilities.{get_state}
use efficient_lock_free_dura.Soft.PersistentNode.{is_valid, is_deleted}
use efficient_lock_free_dura.Soft.List.{
  int_min, int_max, construct, volatile_node, insert, remove, contains,
}
use efficient_lock_free_dura.Soft.Recovery.{recovery}
use efficient_lock_free_dura.Soft.Shape.{Cell, nil, cons, has}
use efficient_lock_free_dura.Soft.Invariant.{IsList, IsSpare}
use efficient_lock_free_dura.Soft.Insert.{Inserted, soft_insert-Inserted}
use efficient_lock_free_dura.Soft.Remove.{Removed, soft_remove-Removed}
use efficient_lock_free_dura.Soft.Contains.{soft_contains_answers}
use efficient_lock_free_dura.Soft.Rebuild.{Recovered, soft_recovery-Recovered}

-- Head at 16, tail at 48; at 256 a node with the key `int_min + 5`, whose persistent node is at 64; at 288 a
-- spare node, at 96 a free persistent node.
abbrev nodes : Ptr → Node
nodes x =
    if x == 16
    then record (volatile_node int_min 0 nullptr false) { next = 256 }
    else if x == 48
    then volatile_node int_max 0 nullptr false
    else if x == 256
    then record (volatile_node (int_min + 5) 8 64 true) { next = 48 }
    else volatile_node 0 0 nullptr false

abbrev pnodes : Ptr → PNode
pnodes x =
    if x == 64
    then record {
      valid_start = true;
      valid_end = true;
      deleted = false;
      key = int_min + 5;
      value = 8;
    }
    else record { valid_start = false; valid_end = false; deleted = false; key = 0; value = 0 }

abbrev pub one : Memory
one = record {
  nodes = nodes;
  cached = pnodes;
  durable = pnodes;
  node_pool = 288 ∷ [];
  pnode_pool = 96 ∷ [];
  freed_nodes = [];
  freed_pnodes = [];
}

abbrev pub five : Cell
five = record { ptr = 256; key = int_min + 5; pptr = 64 }

pub one-IsList : IsList one 16 48 (five ∷ [])
unfolding is_wild get_state is_valid is_deleted
one-IsList = record {
  here = record {
    held = record { sound = refl; key_eq = refl; pptr_eq = refl };
    next = refl;
    seg = cons refl (record { sound = refl; key_eq = refl; pptr_eq = refl }) (nil refl);
    up = (omega arith, omega arith);
    end = record { sound = refl; key_eq = refl; state = refl };
  };
  written =
      (record { sound = refl; start_eq = refl; end_eq = refl; live = refl; key_eq = refl }, tt);
  tidy = λ x e. ground arith;
  settled = λ x. refl;
  owned = λ x k v e. ground arith;
}

spare : IsSpare 16 48 (five ∷ []) 288
unfolding is_wild
spare = record { sound = refl; ne_tail = omega arith; outside = (omega arith, (omega arith, tt)) }

soft_insert-Inserted_example :
    Returns
      (Inserted one 16 48 (five ∷ []) (int_min + 3) 4 288 96 [] [])
      (exec (insert 1 9 2 16 (int_min + 3) 4) one)
unfolding is_wild is_deleted
soft_insert-Inserted_example =
    soft_insert-Inserted 0 9 0 (int_min + 3) 4 one-IsList refl refl spare (refl, refl) (omega arith)
      (omega arith) (omega arith)

soft_remove-Removed_example :
    Returns (Removed one 16 48 (five ∷ []) (int_min + 5)) (exec (remove 9 2 16 (int_min + 5)) one)
soft_remove-Removed_example =
    soft_remove-Removed 9 0 (int_min + 5) one-IsList (omega arith) (omega arith) (omega arith)

soft_contains_answers_example :
    Returns
      (λ found m'. (found ≡ has (int_min + 5) (five ∷ [])) × (m' ≡ one))
      (exec (contains 9 16 (int_min + 5)) one)
soft_contains_answers_example =
    soft_contains_answers 9 (int_min + 5) one-IsList (omega arith) (omega arith)

-- After a crash: new sentinels at 16 and 48, and the persistent nodes.
abbrev crashed : Memory
crashed = construct 16 48 (record one {
  nodes = λ x. volatile_node 0 0 nullptr false;
  node_pool = 256 ∷ 288 ∷ [];
  pnode_pool = [];
})

soft_recovery-Recovered_example :
    Returns
      (Recovered crashed 16 48 (objects 32 2 (64 ∷ [])))
      (exec (recovery 1 9 16 32 2 (64 ∷ [])) crashed)
unfolding is_wild get_state is_valid is_deleted construct write
soft_recovery-Recovered_example =
    soft_recovery-Recovered {m = crashed} 0 9 32 2 (64 ∷ [])
      (record {
        held = record { sound = refl; key_eq = refl; pptr_eq = refl };
        next = refl;
        seg = nil refl;
        up = omega arith;
        end = record { sound = refl; key_eq = refl; state = refl };
      })
      (
        (record { sound = refl; ne_tail = omega arith; outside = (omega arith, tt) }),
        ((record { sound = refl; ne_tail = omega arith; outside = (omega arith, tt) }), tt),
      )
      ((omega arith, tt), (tt, tt)) (λ x. refl) (λ x e. ground arith) (λ x keep. ground arith)
      (
        (record {
          sound = refl;
          tidy = λ e. cc;
          above = λ k. omega arith;
          small = λ k. omega arith;
          new = λ k. refl;
        }),
        (
          ((omega arith, λ k l. cc), tt),
          (
            (record {
              sound = refl;
              tidy = λ e. refl;
              above = λ k. cc;
              small = λ k. cc;
              new = λ k. refl;
            }),
            (tt, tt),
          ),
        ),
      )
      (omega arith) (omega arith)
