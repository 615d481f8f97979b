-- ===== src/Soft/Insert/Chain.antt =====
-- The chain of a SOFT list in which a node has been linked where a search stopped.
use efficient_lock_free_dura.Common.{
  ℕ, ◌<◌, ◌≡◌, ◌≢◌, ◌∙◌, sym, ap, subst, refl, Bool, false, List, ◌∷◌, ◌++◌, arith,
}
use efficient_lock_free_dura.Soft.Memory.{Ptr, Key, Node}
use efficient_lock_free_dura.Soft.List.{int_min, int_max}
use efficient_lock_free_dura.Soft.Commands.{write_self, write_ne}
use efficient_lock_free_dura.Soft.Shape.{
  Cell, Holds, Seg, cons, Ascends, IsTail, IsTail-write, At, Outside, has, Seg-write, Seg-append,
  Outside-above, Outside-below,
}
use efficient_lock_free_dura.Soft.Cells.{
  insert_cell, insert_cell-split, All-append, Ascends-insert_cell,
}
use efficient_lock_free_dura.Soft.Find.{Found}
use efficient_lock_free_dura.Soft.Invariant.{IsSpare, head_cell, assemble}
use efficient_lock_free_dura.Soft.Insert.Link.{content, linked_nodes}

abbrev pub new_cell : Ptr → Key → Ptr → Cell
new_cell n key pn = record { ptr = n; key = key; pptr = pn }

module _ {nodes : Ptr → Node} {head tail : Ptr} {cs : List Cell} {pred curr n : Ptr} {key : Key}
    (pn : Ptr) (v : Bool) (value : ℕ) (up : Ascends int_min cs) (spare : IsSpare head tail cs n)
    (f : Found nodes tail key (head_cell head) cs pred curr) (new : has key cs ≡ false)
    (above : int_min < key) (small : key < int_max) where
  abbrev nodes' : Ptr → Node
  nodes' = linked_nodes nodes n pn v f.r.ptr key value curr

  abbrev nc : Cell
  nc = new_cell n key pn

  abbrev cells' : List Cell
  cells' = insert_cell nc cs

  apart : (Outside n f.fs) × (Outside n (f.r ∷ f.bs))
  apart =
      All-append (λ c. c.ptr ≢ n) f.fs (f.r ∷ f.bs) (subst (Outside n) (sym f.split) spare.outside)

  pub chain-pred_ne : f.r.ptr ≢ n
  chain-pred_ne = apart.1.0

  r_key : (nodes f.r.ptr).key ≡ f.r.key
  r_key = f.here.held.key_eq

  tail_ne : tail ≢ f.r.ptr
  tail_ne e = absurd (omega (arith, r_key, f.here.end.key_eq, f.before, ap (λ x. (nodes x).key) e))

  -- The two writes, away from both nodes.
  keep :
      (bs : List Cell) {stop start : Ptr}
      → Outside n bs
      → Outside f.r.ptr bs
      → Seg nodes stop start bs
      → Seg nodes' stop start bs
  keep bs out_n out_r s = Seg-write _ f.r.ptr _ (Seg-write nodes n _ s out_n) out_r

  pub at_new : nodes' n ≡ content key value pn v curr
  at_new = write_ne _ f.r.ptr _ n (λ e. chain-pred_ne (sym e)) ∙ write_self nodes n _

  at_pred : nodes' f.r.ptr ≡ record (nodes f.r.ptr) { next = n }
  at_pred = write_self _ f.r.ptr _

  front_out : Outside f.r.ptr f.fs
  front_out = Outside-below f.r.ptr f.r.key f.fs (omega (arith, r_key)) f.below f.front

  back_out : Outside f.r.ptr f.bs
  back_out = Outside-above f.r.ptr f.r.key f.bs (omega (arith, r_key)) f.here.up f.here.seg

  new_held : Holds nodes' nc
  new_held = record { sound = spare.sound; key_eq = rw at_new refl; pptr_eq = rw at_new refl }

  r_held : Holds nodes' f.r
  r_held = record {
    sound = f.here.held.sound;
    key_eq = rw at_pred f.here.held.key_eq;
    pptr_eq = rw at_pred f.here.held.pptr_eq;
  }

  chain : Seg nodes' tail head (f.fs ++ f.r ∷ nc ∷ f.bs)
  chain = Seg-append f.fs (f.r ∷ nc ∷ f.bs) (keep f.fs apart.0 front_out f.front) (
      cons refl r_held
        (rw at_pred (cons refl new_held (rw at_new (keep f.bs apart.1.1 back_out f.here.seg)))))

  joined : f.fs ++ f.r ∷ nc ∷ f.bs ≡ head_cell head ∷ cells'
  joined =
      sym (insert_cell-split f.r f.bs nc f.fs f.below f.before f.reached)
      ∙ ap (insert_cell nc) f.split
      ∙ ground arith

  end : IsTail nodes' tail
  end = IsTail-write f.r.ptr _ tail_ne (IsTail-write n _ spare.ne_tail f.here.end)

  pub placed-At : At nodes' tail (head_cell head) (nodes' head).next cells'
  placed-At =
      assemble (subst (Seg nodes' tail head) joined chain)
        (Ascends-insert_cell int_min nc cs up above small new) end
