-- ===== src/Soft/Remove/Place.antt =====
-- The list after `remove` of SOFT/SOFTList.h has destroyed and unlinked the node with the key.
use efficient_lock_free_dura.Common.{
  ◌<◌, ◌≡◌, ◌≢◌, ◌∙◌, sym, ap, subst, refl, true, List, [], ◌∷◌, ◌++◌, All, arith,
}
use native.Mathlib.Decide.{ℕ_discrete}
use efficient_lock_free_dura.Soft.Memory.{Ptr, Key, PNode, Memory, write}
use efficient_lock_free_dura.Soft.PersistentNode.{is_deleted}
use efficient_lock_free_dura.Soft.PersistentNode.Lifecycle.{repaired, gone}
use efficient_lock_free_dura.Soft.List.{int_min, int_max}
use efficient_lock_free_dura.Soft.Commands.{write_self, write_ne, destroyed}
use efficient_lock_free_dura.Soft.Shape.{
  Cell, Holds, Seg, cons, Ascends-max, IsTail, IsTail-write, At, Outside, lists, Seg-write,
  Seg-append, Outside-above, Outside-below, Seg-held, Seg-tail,
}
use efficient_lock_free_dura.Soft.Cells.{
  remove_cell, remove_cell-split, remove_cell-ne, All-append, All-remove_cell, Ascends-remove_cell,
  lists-remove_cell, lists_unique,
}
use efficient_lock_free_dura.Soft.Invariant.{
  IsList, Written, Written-recovered, head_cell, assemble,
}
use efficient_lock_free_dura.Soft.Insert.Place.{free_unrecovered}
use efficient_lock_free_dura.Soft.Remove.Unlink.{after_remove}

repaired-deleted : (p : PNode) → is_deleted p ≡ true → is_deleted (repaired p) ≡ true
unfolding is_deleted
repaired-deleted p h = ground arith

module _ {m : Memory} {head tail : Ptr} {cs : List Cell} {key : Key} {fs bs : List Cell}
    {r b : Cell} (is : IsList m head tail cs) (front : Seg m.nodes r.ptr head fs)
    (below : All (λ d. d.key < r.key) fs) (here : At m.nodes tail r b.ptr (b ∷ bs))
    (split : fs ++ r ∷ b ∷ bs ≡ head_cell head ∷ cs) (b_key : b.key ≡ key)
    (above : int_min < key) where
  abbrev next : Ptr
  next = (m.nodes b.ptr).next

  abbrev m' : Memory
  m' = after_remove m r.ptr b.ptr next

  held_b : Holds m.nodes b
  held_b = Seg-held here.seg

  rest : Seg m.nodes tail next bs
  rest = Seg-tail here.seg

  r_key : (m.nodes r.ptr).key ≡ r.key
  r_key = here.held.key_eq

  pub pred_ne : r.ptr ≢ b.ptr
  pred_ne e = absurd (omega (arith, r_key, held_b.key_eq, here.up.0, ap (λ x. (m.nodes x).key) e))

  tail_ne : (c : Cell) → Holds m.nodes c → c.key < int_max → tail ≢ c.ptr
  tail_ne c held lt e =
      absurd (omega (arith, held.key_eq, here.end.key_eq, lt, ap (λ x. (m.nodes x).key) e))

  weaken : (ds : List Cell) → All (Written m) ds → All (λ c. c.key ≢ int_min → Written m c) ds
  weaken [] all = tt
  weaken (d ∷ ds) (w, all) = ((λ ne. w), weaken ds all)

  pub Written-b : Written m b
  Written-b =
      let whole =
        subst (All (λ c. c.key ≢ int_min → Written m c)) (sym split)
          ((λ ne. absurd (ne refl)), weaken cs is.written) in
      (All-append (λ c. c.key ≢ int_min → Written m c) fs (r ∷ b ∷ bs) whole).1.1.0
        (omega (arith, b_key))

  pub listed : lists b.pptr key cs ≡ true
  listed =
      subst (λ k. lists b.pptr k cs ≡ true) b_key
        (is.owned b.pptr b.key (m.cached b.pptr).value (Written-recovered b Written-b))

  keep :
      (ds : List Cell) {stop start : Ptr}
      → Outside b.ptr ds
      → Outside r.ptr ds
      → Seg m.nodes stop start ds
      → Seg m'.nodes stop start ds
  keep ds out_b out_r s = Seg-write _ r.ptr _ (Seg-write m.nodes b.ptr _ s out_b) out_r

  fs_r : Outside r.ptr fs
  fs_r = Outside-below r.ptr r.key fs (omega (arith, r_key)) below front

  fs_b : Outside b.ptr fs
  fs_b = Outside-below b.ptr r.key fs (omega (arith, held_b.key_eq, here.up.0)) below front

  bs_r : Outside r.ptr bs
  bs_r = Outside-above r.ptr b.key bs (omega (arith, r_key, here.up.0)) here.up.1 rest

  bs_b : Outside b.ptr bs
  bs_b = Outside-above b.ptr b.key bs (omega (arith, held_b.key_eq)) here.up.1 rest

  at_pred : m'.nodes r.ptr ≡ record (m.nodes r.ptr) { next = next }
  at_pred = write_self _ r.ptr _

  r_held : Holds m'.nodes r
  r_held = record {
    sound = here.held.sound;
    key_eq = rw at_pred here.held.key_eq;
    pptr_eq = rw at_pred here.held.pptr_eq;
  }

  joined : fs ++ r ∷ bs ≡ head_cell head ∷ remove_cell key cs
  joined =
      sym (remove_cell-split r bs b fs below here.up.0)
      ∙ ap (λ k. remove_cell k (fs ++ r ∷ b ∷ bs)) b_key
      ∙ ap (remove_cell key) split
      ∙ ground arith

  chain : Seg m'.nodes tail head (fs ++ r ∷ bs)
  chain =
      Seg-append fs (r ∷ bs) (keep fs fs_b fs_r front)
        (cons refl r_held (rw at_pred (keep bs bs_b bs_r rest)))

  end : IsTail m'.nodes tail
  end =
      let b_max = Ascends-max b.key bs here.up.1 in
      IsTail-write r.ptr _ (tail_ne r here.held (omega (arith, here.up.0, b_max)))
        (IsTail-write b.ptr _ (tail_ne b held_b b_max) here.end)

  placed : At m'.nodes tail (head_cell head) (m'.nodes head).next (remove_cell key cs)
  placed =
      assemble (subst (Seg m'.nodes tail head) joined chain)
        (Ascends-remove_cell int_min key cs is.here.up) end

  pn_eq : (m.nodes b.ptr).pptr ≡ b.pptr
  pn_eq = held_b.pptr_eq

  abbrev dead : PNode
  dead = destroyed (m.cached b.pptr) (m.nodes b.ptr).p_validity

  cached_b : m'.cached b.pptr ≡ dead
  cached_b = rw pn_eq (write_self m.cached b.pptr dead)

  durable_b : m'.durable b.pptr ≡ dead
  durable_b = rw pn_eq (write_self m.durable b.pptr dead)

  dead-deleted : is_deleted dead ≡ true
  dead-deleted =
      subst (λ v. is_deleted (destroyed (m.cached b.pptr) v) ≡ true) Written-b.start_eq
        (gone b.key (m.cached b.pptr).value (m.cached b.pptr) (Written-recovered b Written-b))

  pub wiped : is_deleted (m'.cached b.pptr) ≡ true
  wiped = rw cached_b dead-deleted

  other_cached : (x : Ptr) → x ≢ b.pptr → m'.cached x ≡ m.cached x
  other_cached x ne = rw pn_eq (write_ne m.cached b.pptr dead x ne)

  other_durable : (x : Ptr) → x ≢ b.pptr → m'.durable x ≡ m.durable x
  other_durable x ne = rw pn_eq (write_ne m.durable b.pptr dead x ne)

  pub still_free : (x : Ptr) → is_deleted (m.cached x) ≡ true → is_deleted (m'.cached x) ≡ true
  still_free x free = elim (ℕ_discrete x b.pptr) [
    | yes e ↦ rw e wiped
    | no far ↦ rw (other_cached x far) free
  ]

  same_validity : (x : Ptr) → (m'.nodes x).p_validity ≡ (m.nodes x).p_validity
  unfolding write
  same_validity x = ground arith

  old_Written : (c : Cell) → c.key ≢ key → Written m c → Written m' c
  old_Written c ne w =
      let far : c.pptr ≢ b.pptr =
        λ e. ne (sym w.key_eq ∙ ap (λ x. (m.cached x).key) e ∙ Written-b.key_eq ∙ b_key) in
      let same = other_cached c.pptr far in
      let valid = same_validity c.ptr in
      record {
        sound = w.sound;
        start_eq = rw (same, valid) w.start_eq;
        end_eq = rw (same, valid) w.end_eq;
        live = rw (same, valid) w.live;
        key_eq = rw same w.key_eq;
      }

  olds : (ds : List Cell) → All (λ c. c.key ≢ key) ds → All (Written m) ds → All (Written m') ds
  olds [] ne all = tt
  olds (d ∷ ds) (ne, nes) (w, all) = (old_Written d ne w, olds ds nes all)

  pub removed-IsList : IsList m' head tail (remove_cell key cs)
  removed-IsList = record {
    here = placed;
    written =
        olds (remove_cell key cs) (remove_cell-ne key int_min cs is.here.up)
          (All-remove_cell (Written m) key cs is.written);
    tidy = λ x e. elim (ℕ_discrete x b.pptr) [
      | yes at_b ↦ rw at_b (rw durable_b (repaired-deleted dead dead-deleted))
      | no far ↦ rw (other_durable x far) (is.tidy x (rw (other_durable x far) at e))
    ];
    settled = λ x. elim (ℕ_discrete x b.pptr) [
      | yes e ↦ rw e (rw (cached_b, durable_b) refl)
      | no far ↦ rw (other_cached x far, other_durable x far) (is.settled x)
    ];
    owned = λ x k v e. elim (ℕ_discrete x b.pptr) [
      | yes at_b ↦ absurd (free_unrecovered (m'.cached b.pptr) k v wiped (rw at_b at e))
      | no far ↦
          let old = is.owned x k v (rw (other_cached x far) at e) in
          lists-remove_cell x k key cs
            (λ k_eq. far (lists_unique x b.pptr key int_min cs is.here.up (rw k_eq at old) listed))
          ∙ old
    ];
  }
