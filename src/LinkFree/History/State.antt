-- ===== src/LinkFree/History/State.antt =====
-- A link-free list that is ready for calls: the invariant of the list, and what the calls need of the
-- objects of the allocator.
use efficient_lock_free_dura.Common.{
  Distinct, member, ◌≤◌, ◌≡◌, true, List, [], ◌∷◌, All, length, arith,
}
use efficient_lock_free_dura.LinkFree.Memory.{Ptr, Key, Memory}
use efficient_lock_free_dura.LinkFree.Utilities.{is_valid}
use efficient_lock_free_dura.LinkFree.Upkeep.{Clean, Upkeep}
use efficient_lock_free_dura.LinkFree.Shape.{Cell, Outside}
use efficient_lock_free_dura.LinkFree.Cells.{remove_cell, lists}
use efficient_lock_free_dura.LinkFree.Find.Walk.{sweep}
use efficient_lock_free_dura.LinkFree.Invariant.{IsList, IsSpare}

-- `objs` are the objects of the chunks of the allocator.
pub record Usable (objs : List Ptr) (head tail : Ptr) (cs : List Cell) (m : Memory) : Type 0 where
  pub list : IsList m head tail cs
  pub clean : Clean m
  pub valid : (x : Ptr) (k : Key) → lists x k cs ≡ true → is_valid (m.cached x).meta_data ≡ true
  pub within : (x : Ptr) (k : Key) → lists x k cs ≡ true → member x objs ≡ true
  pub spares : All (IsSpare m.cached head tail cs) m.pool
  pub distinct : Distinct m.pool
  pub pool_within : All (λ p. member p objs ≡ true) m.pool

-- A call moves the spare objects from one list to the next.
module _ {m m' : Memory} (head tail : Ptr) (cs cs' : List Cell) (up : Upkeep m m')
    (clean : Clean m) where
  IsSpare-move :
      (q : Ptr)
      → (Outside q cs → Outside q cs')
      → IsSpare m.cached head tail cs q
      → IsSpare m'.cached head tail cs' q
  IsSpare-move q out spare = record {
    sound = spare.sound;
    ne_tail = spare.ne_tail;
    outside = (spare.outside.0, out spare.outside.1);
    byte = (up.clean clean q).0;
    valid = up.valid clean q spare.valid;
  }

  pub IsSpare-moves :
      (ps : List Ptr)
      → All (λ q. Outside q cs → Outside q cs') ps
      → All (IsSpare m.cached head tail cs) ps
      → All (IsSpare m'.cached head tail cs') ps
  IsSpare-moves [] outs all = tt
  IsSpare-moves (p ∷ ps) (out, outs) (s, all) = (IsSpare-move p out s, IsSpare-moves ps outs all)

pub Outside-remove_cell :
    (p : Ptr) (key : Key) (cs : List Cell) → Outside p cs → Outside p (remove_cell key cs)
Outside-remove_cell p key [] out = tt
Outside-remove_cell p key (c ∷ cs) (ne, out) = ground (arith, Outside-remove_cell p key cs out)

pub lists-removed :
    (x : Ptr) (k key : Key) (cs : List Cell)
    → lists x k (remove_cell key cs) ≡ true
    → lists x k cs ≡ true
lists-removed x k key [] h = h
lists-removed x k key (c ∷ cs) h = ground (arith, lists-removed x k key cs)

pub length-sweep : (key : Key) (cs : List Cell) → length (sweep key cs) ≤ length cs
length-sweep key [] = omega arith
length-sweep key (c ∷ cs) = ground (arith, length-sweep key cs)

pub length-remove_cell : (key : Key) (cs : List Cell) → length (remove_cell key cs) ≤ length cs
length-remove_cell key [] = omega arith
length-remove_cell key (c ∷ cs) = ground (arith, length-remove_cell key cs)
