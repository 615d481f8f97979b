-- ===== src/LinkFree/Tests/Crash.antt =====
-- The theorem on the recovery of the link-free list at a concrete memory.
use efficient_lock_free_dura.Common.{◌+◌, refl, true, false, [], ◌∷◌, ◌==◌, if◌then◌else◌, arith}
use efficient_lock_free_dura.Common.Prog.{Returns}
use efficient_lock_free_dura.LinkFree.Memory.{Ptr, Node, Memory, is_wild, exec}
use efficient_lock_free_dura.LinkFree.Utilities.{is_valid, is_marked}
use efficient_lock_free_dura.LinkFree.List.{int_min, int_max}
use efficient_lock_free_dura.LinkFree.Shape.{nil}
use efficient_lock_free_dura.LinkFree.Find.Step.{At}
use efficient_lock_free_dura.LinkFree.Invariant.{head_cell}
use efficient_lock_free_dura.LinkFree.Recovery.{recover}
use efficient_lock_free_dura.LinkFree.Rebuild.{Recovered, recover-Recovered}
use efficient_lock_free_dura.LinkFree.Rebuild.Waiting.{Image}
use efficient_lock_free_dura.Common.Objects.{objects}
use efficient_lock_free_dura.LinkFree.Tests.{node}

-- After a crash: the sentinels again at 16 and 48, and a chunk of four objects of 32 bytes at 64. Those
-- at 64 and 160 carry keys, the one at 96 is marked, the one at 128 was never used.
abbrev image_nodes : Ptr → Node
image_nodes x =
    if x == 16
    then node 0 false false int_min 48
    else if x == 48
    then node 0 false false int_max 0
    else if x == 64
    then node 0x81 true false (int_min + 7) 48
    else if x == 96
    then node 0x81 true true (int_min + 5) 49
    else if x == 160
    then node 0 false false (int_min + 2) 64
    else node 0 false false 0 0

abbrev crashed : Memory
crashed = record { cached = image_nodes; durable = image_nodes; pool = []; freed = [] }

crashed-At : At crashed.cached 48 (head_cell 16) (crashed.cached 16).next []
unfolding is_valid is_marked is_wild
crashed-At = record {
  held = record {
    sound = refl;
    key_eq = refl;
    mark_eq = refl;
    byte = omega arith;
    valid_of_marked = λ d. refl;
    undeleted = λ l. refl;
    inserted = λ s. refl;
  };
  live = refl;
  next = refl;
  seg = nil refl;
  up = omega arith;
  end = record { sound = refl; key_eq = refl; unmarked = refl };
}

crashed-Image : Image image_nodes 16 48 [] (objects 32 4 (64 ∷ []))
unfolding is_valid is_marked is_wild
crashed-Image = (
  (record {
    sound = refl;
    ne_tail = omega arith;
    outside = (omega arith, tt);
    byte = omega arith;
    undeleted = λ k. refl;
    above = λ k. omega arith;
    small = λ k. omega arith;
    new = λ k. refl;
  }),
  (
    ((omega arith, λ k l. cc), ((omega arith, λ k l. cc), ((omega arith, λ k l. omega arith), tt))),
    (
      (record {
        sound = refl;
        ne_tail = omega arith;
        outside = (omega arith, tt);
        byte = omega arith;
        undeleted = λ k. cc;
        above = λ k. cc;
        small = λ k. cc;
        new = λ k. refl;
      }),
      (
        ((omega arith, λ k l. cc), ((omega arith, λ k l. cc), tt)),
        (
          (record {
            sound = refl;
            ne_tail = omega arith;
            outside = (omega arith, tt);
            byte = omega arith;
            undeleted = λ k. cc;
            above = λ k. cc;
            small = λ k. cc;
            new = λ k. refl;
          }),
          (
            ((omega arith, λ k l. cc), tt),
            (
              (record {
                sound = refl;
                ne_tail = omega arith;
                outside = (omega arith, tt);
                byte = omega arith;
                undeleted = λ k. refl;
                above = λ k. omega arith;
                small = λ k. omega arith;
                new = λ k. refl;
              }),
              (tt, tt),
            ),
          ),
        ),
      ),
    ),
  ),
)

recover-Recovered_example :
    Returns
      (Recovered crashed 16 48 (objects 32 4 (64 ∷ [])))
      (exec (recover 1 9 16 32 4 (64 ∷ [])) crashed)
unfolding is_valid is_marked
recover-Recovered_example =
    recover-Recovered {m = crashed} 0 9 32 4 (64 ∷ []) crashed-At (λ x ne. refl)
      (λ x ne k. ground arith) crashed-Image (omega arith)
