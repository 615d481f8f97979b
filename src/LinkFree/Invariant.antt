-- ===== src/LinkFree/Invariant.antt =====
-- The invariant of a link-free list between two calls, in the caches and in NVRAM.
use efficient_lock_free_dura.Common.{
  ◌<◌, ◌≡◌, ◌≢◌, sym, ◌∙◌, refl, true, false, some, List, ◌∷◌, ◌++◌,
}
use efficient_lock_free_dura.LinkFree.Memory.{Ptr, Key, Node, Memory, is_wild}
use efficient_lock_free_dura.LinkFree.Utilities.{is_valid}
use efficient_lock_free_dura.LinkFree.Utilities.Marks.{get_ref_of_unmarked}
use efficient_lock_free_dura.LinkFree.List.{int_min}
use efficient_lock_free_dura.LinkFree.Shape.{
  Cell, Seg, cons, Ascends, IsTail, Outside, persisted, Seg-append,
}
use efficient_lock_free_dura.LinkFree.Cells.{lists, lists-sweep, Ascends-sweep}
use efficient_lock_free_dura.LinkFree.Find.Quiet.{Settled}
use efficient_lock_free_dura.LinkFree.Find.Step.{At, Seg-held, Seg-tail}
use efficient_lock_free_dura.LinkFree.Find.Walk.{sweep, Searched}

abbrev pub head_cell : Ptr → Cell
head_cell head = record { ptr = head; key = int_min; marked = false }

-- An object that `ssmem_alloc` may hand out: none of the list's nodes, with valid metadata.
pub record IsSpare (nodes : Ptr → Node) (head tail : Ptr) (cs : List Cell) (p : Ptr) : Type 0 where
  pub sound : is_wild p ≡ false
  pub ne_tail : tail ≢ p
  pub outside : Outside p (head_cell head ∷ cs)
  pub byte : (nodes p).meta_data < 256
  pub valid : is_valid (nodes p).meta_data ≡ true

-- The chain leads from the head to the tail. Of each object but the head, NVRAM holds what the caches
-- hold, as far as `recover` can tell, and `recover` would insert no object but an unmarked cell, and
-- with its key.
pub record IsList (m : Memory) (head tail : Ptr) (cs : List Cell) : Type 0 where
  pub here : At m.cached tail (head_cell head) (m.cached head).next cs
  pub settled : (x : Ptr) → x ≢ head → Settled m x
  pub owned : (x : Ptr) (k : Key) → x ≢ head → persisted (m.cached x) ≡ some k → lists x k cs ≡ true

-- The place at the first cell of a chain, from the chain.
pub assemble :
    {nodes : Ptr → Node} {tail start : Ptr} {q : Cell} {cs : List Cell}
    → Seg nodes tail start (q ∷ cs)
    → q.marked ≡ false
    → Ascends q.key cs
    → IsTail nodes tail
    → At nodes tail q (nodes q.ptr).next cs
assemble {nodes} {tail} {q} {cs} s live up end = record {
  held = Seg-held s;
  live = live;
  next = refl;
  seg = rw (get_ref_of_unmarked (nodes q.ptr).next ((Seg-held s).mark_eq ∙ live)) at (Seg-tail s);
  up = up;
  end = end;
}

-- The cells that a search has split, in one chain again.
pub join :
    {nodes : Ptr → Node} {tail start curr : Ptr} {r : Cell} {fs bs : List Cell}
    → Seg nodes r.ptr start fs
    → At nodes tail r curr bs
    → Seg nodes tail start (fs ++ r ∷ bs)
join {nodes} {r} front here = Seg-append front (
    cons refl here.held (
      rw (get_ref_of_unmarked (nodes r.ptr).next (here.held.mark_eq ∙ here.live), here.next)
        here.seg))

-- A search leaves a list, without the cells that it unlinked.
pub Searched-IsList :
    {m m' : Memory} {head tail : Ptr} {key : Key} {cs : List Cell} {found : Ptr × Ptr}
    → IsList m head tail cs
    → Searched m tail key (head_cell head) cs found m'
    → IsList m' head tail (sweep key cs)
Searched-IsList {m} {m'} {head} {tail} {key} {cs} is s =
    let f = s.found_at in
    record {
      here =
          assemble (rw f.split at (join f.front f.here)) refl
            (Ascends-sweep int_min key cs is.here.up) f.here.end;
      settled = λ x ne. s.quiet.settled x (is.settled x ne);
      owned = λ x k ne e. lists-sweep x k key cs ∙ is.owned x k ne (sym (s.quiet.content x) ∙ e);
    }
