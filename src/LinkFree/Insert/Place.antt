-- ===== src/LinkFree/Insert/Place.antt =====
-- The chain of a list in which a node has been linked where a search stopped.
use efficient_lock_free_dura.Common.{
  ◌<◌, ◌≡◌, ◌≢◌, ◌∙◌, sym, ap, subst, refl, true, false, List, ◌∷◌, ◌++◌, arith,
}
use efficient_lock_free_dura.LinkFree.Memory.{Ptr, Node, Memory, is_wild}
use efficient_lock_free_dura.LinkFree.Utilities.{is_valid}
use efficient_lock_free_dura.LinkFree.List.{int_min, int_max}
use efficient_lock_free_dura.LinkFree.Shape.{
  Cell, Seg, Ascends, Outside, Outside-of_key, Seg-write, has,
}
use efficient_lock_free_dura.LinkFree.Find.Step.{At}
use efficient_lock_free_dura.LinkFree.Find.Walk.{sweep, Found}
use efficient_lock_free_dura.LinkFree.Invariant.{head_cell, assemble, join}
use efficient_lock_free_dura.LinkFree.Insert.Link.{
  linked, new_cell, All-append_left, Ascends-Reached, Ascends-replace, ne_of_below, linked-At,
}
use efficient_lock_free_dura.LinkFree.Cells.{insert_cell, insert_cell-split, has-split}

module _ {m : Memory} {head tail : Ptr} {cs cells : List Cell} {pred curr p : Ptr} (n : Node)
    (ascends : Ascends int_min cells) (sound : is_wild p ≡ false) (ne_tail : tail ≢ p)
    (outside : Outside p (head_cell head ∷ cells))
    (f : Found m tail n.key (head_cell head) cs pred curr) (same_cells : sweep n.key cs ≡ cells)
    (new : has n.key cells ≡ false) (above : int_min < n.key) (small : n.key < int_max) where
  abbrev nodes' : Ptr → Node
  nodes' = linked m.cached f.r.ptr p n

  abbrev cells' : List Cell
  cells' = insert_cell (new_cell p n.key) cells

  split : f.fs ++ f.r ∷ f.bs ≡ head_cell head ∷ cells
  split = f.split ∙ ap (λ l. head_cell head ∷ l) same_cells

  out : Outside p f.fs × Outside p (f.r ∷ f.bs)
  out = All-append_left (λ c. c.ptr ≢ p) f.fs (f.r ∷ f.bs) (subst (Outside p) (sym split) outside)

  pub place-pred_ne : f.r.ptr ≢ p
  place-pred_ne = out.1.0

  no_key : has n.key f.bs ≡ false
  no_key =
      sym (has-split f.r f.bs n.key f.fs f.below f.before)
      ∙ ap (has n.key) split
      ∙ ground (arith, new)

  above_new : Ascends n.key f.bs
  above_new = Ascends-Reached f.r.key n.key f.bs f.here.up f.reached no_key small

  pred_out : Outside f.r.ptr f.fs
  pred_out =
      Outside-of_key f.r.ptr f.front (rw f.here.held.key_eq (ne_of_below f.r.key f.fs f.below))

  front : Seg nodes' f.r.ptr head f.fs
  front = Seg-write f.r.ptr _ (Seg-write p n f.front out.0) pred_out

  joined :
      f.fs ++ f.r ∷ new_cell p n.key ∷ f.bs ≡ head_cell head ∷ insert_cell (new_cell p n.key) cells
  joined =
      sym (insert_cell-split f.r f.bs (new_cell p n.key) f.fs f.below f.before f.reached)
      ∙ ap (insert_cell (new_cell p n.key)) split
      ∙ ground arith

  pub place-At :
      n.next ≡ curr
      → n.delete_flag ≡ false
      → (n.insert_flag ≡ true → is_valid n.meta_data ≡ true)
      → n.meta_data < 256
      → At nodes' tail (head_cell head) (nodes' head).next cells'
  place-At next fresh flushed byte =
      let here =
        linked-At p n f.here sound place-pred_ne ne_tail out.1.1 next fresh flushed byte f.before
          above_new in
      let up : Ascends int_min cells' =
        (subst (Ascends 0) joined (
          Ascends-replace 0 n.key f.r (new_cell p n.key) f.fs f.bs
            (subst (Ascends 0) (sym split) (omega arith, ascends)) f.before above_new)).1 in
      assemble (subst (Seg nodes' tail head) joined (join front here)) refl up here.end
