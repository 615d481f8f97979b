-- ===== src/Soft/Insert/Place.antt =====
-- The list after a round of `insert` of SOFT/SOFTList.h has linked the new node.
use efficient_lock_free_dura.Common.{
  ℕ, ◌<◌, ◌≡◌, ◌≢◌, ◌∙◌, sym, ap, refl, Bool, true, false, not, Option, none, some, List, [], ◌∷◌,
  All, arith,
}
use native.Mathlib.Decide.{ℕ_discrete}
use efficient_lock_free_dura.Soft.Memory.{Ptr, Key, PNode, Memory, write}
use efficient_lock_free_dura.Soft.PersistentNode.{is_valid, is_deleted}
use efficient_lock_free_dura.Soft.PersistentNode.Lifecycle.{recovered, written}
use efficient_lock_free_dura.Soft.List.{int_min, int_max}
use efficient_lock_free_dura.Soft.Commands.{write_self, write_ne, created}
use efficient_lock_free_dura.Soft.Shape.{Cell, At, Outside, has}
use efficient_lock_free_dura.Soft.Cells.{insert_cell, All-insert_cell, lists-insert_cell}
use efficient_lock_free_dura.Soft.Find.{Found}
use efficient_lock_free_dura.Soft.Invariant.{
  IsList, IsSpare, IsFree, Written, Written-recovered, head_cell,
}
use efficient_lock_free_dura.Soft.Insert.Chain.{new_cell, chain-pred_ne, placed-At, at_new}
use efficient_lock_free_dura.Soft.Insert.Link.{content, validity, after_insert}

pub none-some : {x : Key × ℕ} → none ≡ some x → ⊥
none-some h = cc

pub some_key :
    {k j : Key} {v w : ℕ} → ◌≡◌ {A = Option (Key × ℕ)} (some (k, v)) (some (j, w)) → k ≡ j
some_key {k} e = ap key_of e
  where
    key_of : Option (Key × ℕ) → Key
    key_of none = k
    key_of (some (j, w)) = j

free_deleted : (p : PNode) → is_deleted p ≡ true → p.deleted ≡ not (not p.valid_start)
unfolding is_deleted
free_deleted p free = ground arith

pub free_unrecovered :
    (p : PNode) (k : Key) (v : ℕ) → is_deleted p ≡ true → recovered p ≡ some (k, v) → ⊥
unfolding is_valid is_deleted
free_unrecovered p k v free e = none-some (sym free_none ∙ e)
  where
    free_none : recovered p ≡ none
    free_none = ground arith

module _ {m : Memory} {head tail : Ptr} {cs : List Cell} {pred curr n : Ptr} {key : Key} (pn : Ptr)
    (nrest prest : List Ptr) (value : ℕ) (is : IsList m head tail cs)
    (spare : IsSpare head tail cs n) (free : IsFree m pn)
    (f : Found m.nodes tail key (head_cell head) cs pred curr) (new : has key cs ≡ false)
    (above : int_min < key) (small : key < int_max) where
  abbrev m' : Memory
  m' = after_insert m n pn nrest prest f.r.ptr curr key value

  abbrev nc : Cell
  nc = new_cell n key pn

  abbrev cells' : List Cell
  cells' = insert_cell nc cs

  abbrev v : Bool
  v = validity m pn

  pub pred_ne : f.r.ptr ≢ n
  pred_ne = chain-pred_ne pn v value is.here.up spare f new above small

  placed : At m'.nodes tail (head_cell head) (m'.nodes head).next cells'
  placed = placed-At pn v value is.here.up spare f new above small

  new_node : m'.nodes n ≡ content key value pn v curr
  new_node = at_new pn v value is.here.up spare f new above small

  new_pnode : m'.cached pn ≡ created (m.cached pn) (validity m pn) key value
  new_pnode = write_self m.cached pn _

  new_Written : Written m' nc
  new_Written = record {
    sound = free.0;
    start_eq = rw (new_pnode, new_node) refl;
    end_eq = rw (new_pnode, new_node) refl;
    live = rw (new_pnode, new_node) (free_deleted (m.cached pn) free.1);
    key_eq = rw new_pnode refl;
  }

  same_validity : (x : Ptr) → x ≢ n → (m'.nodes x).p_validity ≡ (m.nodes x).p_validity
  unfolding write
  same_validity x ne = ground (arith, pred_ne)

  old_Written : (c : Cell) → c.ptr ≢ n → Written m c → Written m' c
  old_Written c ne w =
      let far : c.pptr ≢ pn = λ e.
        free_unrecovered (m.cached pn) _ _ free.1
          (ap (λ x. recovered (m.cached x)) (sym e) ∙ Written-recovered c w) in
      let same =
        write_ne m.cached pn (created (m.cached pn) (validity m pn) key value) c.pptr far in
      let valid = same_validity c.ptr ne in
      record {
        sound = w.sound;
        start_eq = rw (same, valid) w.start_eq;
        end_eq = rw (same, valid) w.end_eq;
        live = rw (same, valid) w.live;
        key_eq = rw same w.key_eq;
      }

  olds : (ds : List Cell) → Outside n ds → All (Written m) ds → All (Written m') ds
  olds [] out all = tt
  olds (d ∷ ds) (ne, out) (w, all) = (old_Written d ne w, olds ds out all)

  pub stored : recovered (m'.durable pn) ≡ some (key, value)
  stored =
      rw (write_self m.durable pn (created (m.cached pn) (validity m pn) key value))
        (written key value (m.cached pn) free.1)

  stored_cached : recovered (m'.cached pn) ≡ some (key, value)
  stored_cached = rw new_pnode (written key value (m.cached pn) free.1)

  pub inserted-IsList : IsList m' head tail cells'
  inserted-IsList = record {
    here = placed;
    written = All-insert_cell (Written m') nc cs new_Written (olds cs spare.outside.1 is.written);
    tidy = λ x e. elim (ℕ_discrete x pn) [
      | yes at_pn ↦ absurd (none-some (sym (rw at_pn at e) ∙ stored))
      | no far ↦
          let same =
            write_ne m.durable pn (created (m.cached pn) (validity m pn) key value) x far in
          rw same (is.tidy x (rw same at e))
    ];
    settled = λ x. elim (ℕ_discrete x pn) [
      | yes e ↦ rw e (stored ∙ sym stored_cached)
      | no far ↦
          rw
            (
              write_ne m.durable pn (created (m.cached pn) (validity m pn) key value) x far,
              write_ne m.cached pn (created (m.cached pn) (validity m pn) key value) x far,
            )
            (is.settled x)
    ];
    owned = λ x k v e. elim (ℕ_discrete x pn) [
      | yes at_pn ↦
          let same = some_key (sym stored_cached ∙ (rw at_pn at e)) in
          lists-insert_cell x k nc cs ∙ ground arith
      | no far ↦
          let old = is.owned x k v (
            rw (write_ne m.cached pn (created (m.cached pn) (validity m pn) key value) x far) at
              e) in
          lists-insert_cell x k nc cs ∙ ground arith
    ];
  }
