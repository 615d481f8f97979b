-- ===== src/LinkFree/Remove/Unlinked.antt =====
-- The list after `remove` has marked and unlinked the node with the key.
use efficient_lock_free_dura.Common.{
  ◌<◌, ◌≡◌, ◌≢◌, ◌∙◌, sym, ap, subst, refl, true, false, none, some, List, ◌∷◌, ◌++◌, All, arith,
}
use native.Mathlib.Decide.{ℕ_discrete}
use efficient_lock_free_dura.LinkFree.Memory.{Ptr, Key, Node, Memory, is_wild, write}
use efficient_lock_free_dura.LinkFree.Utilities.{get_ref}
use efficient_lock_free_dura.LinkFree.Utilities.Marks.{is_marked-mark}
use efficient_lock_free_dura.LinkFree.List.{int_min}
use efficient_lock_free_dura.LinkFree.Shape.{
  Cell, Holds-eq, Seg, nil, cons, Outside, Outside-of_key, All-weaken, persisted,
}
use efficient_lock_free_dura.LinkFree.Cells.{
  lists, remove_cell, remove_cell-split, lists-remove_cell, Ascends-remove_cell, lists_unique,
}
use efficient_lock_free_dura.LinkFree.Commands.{after_make_valid, after_flush_delete}
use efficient_lock_free_dura.LinkFree.Upkeep.{
  Upkeep, Upkeep-trans, link-Upkeep, after_make_valid-Upkeep, after_flush_delete-Upkeep,
  detached-Upkeep,
}
use efficient_lock_free_dura.LinkFree.Find.Step.{
  At, held_c, q_ne_c, Seg-sound, clean, not_null, after_trim, after_trim-At,
}
use efficient_lock_free_dura.LinkFree.Invariant.{IsList, head_cell, assemble, join}
use efficient_lock_free_dura.LinkFree.Insert.Link.{ne_of_below}
use efficient_lock_free_dura.LinkFree.Remove.Mark.{marked, dead_cell, marked-At}

-- A segment that the writes spare.
Seg-frame :
    {nodes nodes' : Ptr → Node} {stop start : Ptr} {cs : List Cell} (a b : Ptr)
    → ((x : Ptr) → x ≢ a → x ≢ b → nodes' x ≡ nodes x)
    → Seg nodes stop start cs
    → Outside a cs
    → Outside b cs
    → Seg nodes' stop start cs
Seg-frame a b same (nil e) out_a out_b = nil e
Seg-frame a b same (cons {c} e held s) (ne_a, out_a) (ne_b, out_b) =
    let here = same c.ptr ne_a ne_b in
    cons e (Holds-eq c here held)
      (rw (ap (λ x. get_ref x.next) here) (Seg-frame a b same s out_a out_b))

none-some : {k : Key} → none ≡ some k → ⊥
none-some h = cc

-- After `trim` of the marked node.
abbrev pub removed : Memory → (r b : Cell) → Memory
removed m r b = after_trim (marked m b.ptr) r (dead_cell b)

pub removed-freed : (m : Memory) (r b : Cell) → (removed m r b).freed ≡ b.ptr ∷ m.freed
removed-freed m r b = ground arith

pub removed-pool : (m : Memory) (r b : Cell) → (removed m r b).pool ≡ m.pool
removed-pool m r b = ground arith

pub removed-Upkeep : (m : Memory) (r b : Cell) → Upkeep m (removed m r b)
removed-Upkeep m r b = Upkeep-trans (after_make_valid-Upkeep m b.ptr) (
    Upkeep-trans (link-Upkeep (after_make_valid m b.ptr) b.ptr _) (
      Upkeep-trans (after_flush_delete-Upkeep (marked m b.ptr) b.ptr)
        (detached-Upkeep (after_flush_delete (marked m b.ptr) b.ptr) r.ptr b.ptr)))

module _ {m : Memory} {head tail : Ptr} {key : Key} {cells : List Cell} {b r : Cell}
    {fs bs : List Cell} (is : IsList m head tail cells) (front : Seg m.cached r.ptr head fs)
    (below : All (λ d. d.key < r.key) fs) (here : At m.cached tail r b.ptr (b ∷ bs))
    (split : fs ++ r ∷ b ∷ bs ≡ head_cell head ∷ cells) (live : b.marked ≡ false)
    (b_key : b.key ≡ key) (above : int_min < key) where
  abbrev m4 : Memory
  m4 = removed m r b

  abbrev cells' : List Cell
  cells' = remove_cell key cells

  elsewhere : (x : Ptr) → x ≢ r.ptr → x ≢ b.ptr → m4.cached x ≡ m.cached x
  unfolding write
  elsewhere x ne_r ne_b = ground arith

  place : At m4.cached tail r (get_ref (m4.cached b.ptr).next) bs
  place = after_trim-At (marked m b.ptr) (marked-At m here live) refl

  fs_out_r : Outside r.ptr fs
  fs_out_r = Outside-of_key r.ptr front (rw here.held.key_eq (ne_of_below r.key fs below))

  fs_out_b : Outside b.ptr fs
  fs_out_b = Outside-of_key b.ptr front (
      rw (held_c m here).key_eq
        (ne_of_below b.key fs (All-weaken fs (λ d u. omega (arith, here.up.0)) below)))

  joined : fs ++ r ∷ bs ≡ head_cell head ∷ cells'
  joined =
      sym (remove_cell-split r bs b fs below here.up.0)
      ∙ ap (λ k. remove_cell k (fs ++ r ∷ b ∷ bs)) b_key
      ∙ ap (remove_cell key) split
      ∙ ground arith

  chain : At m4.cached tail (head_cell head) (m4.cached head).next cells'
  chain =
      assemble
        (subst (Seg m4.cached tail head) joined
          (join (Seg-frame r.ptr b.ptr elsewhere front fs_out_r fs_out_b) place))
        refl (Ascends-remove_cell int_min key cells is.here.up) place.end

  next_sound : is_wild (get_ref (m4.cached b.ptr).next) ≡ false
  next_sound = Seg-sound place.seg place.end.sound

  old_content : (x : Ptr) → x ≢ b.ptr → persisted (m4.cached x) ≡ persisted (m.cached x)
  unfolding write persisted
  old_content x ne = elim (ℕ_discrete x r.ptr) [
    | yes at_r ↦ rw at_r (
        ground (
          arith,
          here.next,
          q_ne_c m here,
          not_null b.ptr (held_c m here).sound,
          clean b.ptr (held_c m here).sound,
          not_null _ next_sound,
          clean _ next_sound,
        ))
    | no far ↦ rw (elsewhere x far ne)
  ]

  old_durable : (x : Ptr) → x ≢ b.ptr → m4.durable x ≡ m.durable x
  unfolding write
  old_durable x ne = ground arith

  pub gone : persisted (m4.cached b.ptr) ≡ none
  unfolding write persisted
  gone = ground (arith, is_marked-mark (m.cached b.ptr).next, q_ne_c m here)

  pub gone_durable : persisted (m4.durable b.ptr) ≡ none
  unfolding write persisted
  gone_durable =
      ground
        (arith, is_marked-mark (m.cached b.ptr).next, (held_c m here).undeleted live, q_ne_c m here)

  pub removed-IsList : (b.ptr ≢ head) → lists b.ptr key cells ≡ true → IsList m4 head tail cells'
  removed-IsList ne_head listed = record {
    here = chain;
    settled = λ x ne. elim (ℕ_discrete x b.ptr) [
      | yes e ↦ rw e (gone_durable ∙ sym gone)
      | no far ↦ rw (old_durable x far) (is.settled x ne ∙ sym (old_content x far))
    ];
    owned = λ x k ne e. elim (ℕ_discrete x b.ptr) [
      | yes same ↦ absurd (none-some (sym gone ∙ (rw same at e)))
      | no far ↦
          let old = is.owned x k ne (sym (old_content x far) ∙ e) in
          lists-remove_cell x k key cells (λ k_eq.
            far (lists_unique x b.ptr key int_min cells is.here.up (rw k_eq at old) listed))
          ∙ old
    ];
  }
