-- ===== src/LinkFree/History/Image.antt =====
-- What NVRAM holds of a link-free list that is ready for calls, when it crashes: the image that
-- `recover` of LinkFree/LinkFreeList.h reads.
use efficient_lock_free_dura.Common.{
  member, ◌<◌, ◌≡◌, ◌≢◌, ◌∙◌, sym, subst, Bool, true, false, some, List, [], ◌∷◌, ==_iff,
  Bool-cases, inl, inr, arith,
}
use efficient_lock_free_dura.LinkFree.Memory.{Ptr, Key, Node, Memory, is_wild}
use efficient_lock_free_dura.LinkFree.Utilities.{is_valid}
use efficient_lock_free_dura.LinkFree.Utilities.Marks.{get_ref_of_unmarked}
use efficient_lock_free_dura.LinkFree.List.{int_max}
use efficient_lock_free_dura.LinkFree.Shape.{Cell, Seg, cons, Ascends, has, persisted}
use efficient_lock_free_dura.LinkFree.Cells.{lists, lists-has}
use efficient_lock_free_dura.LinkFree.Find.Step.{Seg-sound, Ascends-max, not_null}
use efficient_lock_free_dura.LinkFree.Rebuild.Cells.{carries}
use efficient_lock_free_dura.LinkFree.History.State.{Usable}

pub lists-range :
    (x : Ptr) (k lo : Key) (cs : List Cell)
    → Ascends lo cs
    → lists x k cs ≡ true
    → (lo < k) × (k < int_max)
lists-range x k lo [] up l = cc
lists-range x k lo (c ∷ cs) (h, hs) l =
    ground (arith, lists-range x k c.key cs hs, Ascends-max c.key cs hs)

-- A listed object is sound, unmarked, linked and has its key.
Seg-listed :
    {nodes : Ptr → Node} {tail : Ptr} (cs : List Cell) (x : Ptr) (k : Key) {start : Ptr}
    → Seg nodes tail start cs
    → is_wild tail ≡ false
    → lists x k cs ≡ true
    → is_valid (nodes x).meta_data ≡ true
    → persisted (nodes x) ≡ some k
unfolding persisted
Seg-listed [] x k s sound l valid = cc
Seg-listed {nodes} (c ∷ cs) x k (cons e held s) sound l valid = elim (Bool-cases (lists x k cs)) [
  | inl there ↦ Seg-listed cs x k s sound there valid
  | inr here ↦ at_cell here
]
  where
    at_cell : lists x k cs ≡ false → persisted (nodes x) ≡ some k
    at_cell absent = ground (
      arith,
      held.mark_eq,
      held.key_eq,
      get_ref_of_unmarked (nodes c.ptr).next,
      not_null _ (Seg-sound s sound),
    )

-- Some object is listed with the key.
has-lists : (k : Key) (cs : List Cell) → has k cs ≡ true → (x : Ptr) × (lists x k cs ≡ true)
has-lists k [] h = cc
has-lists k (c ∷ cs) h = elim (Bool-cases (has k cs)) [
  | inl there ↦ let (x, l) = has-lists k cs there in (x, ground arith)
  | inr absent ↦ (c.ptr, ground (arith, ==_iff c.ptr c.ptr))
]

carries-some :
    (nodes : Ptr → Node) (k : Key) (ps : List Ptr)
    → carries nodes ps k ≡ true
    → (x : Ptr) × (member x ps ≡ true) × (persisted (nodes x) ≡ some k)
unfolding persisted
carries-some nodes k [] h = cc
carries-some nodes k (p ∷ ps) h = elim (Bool-cases (carries nodes ps k)) [
  | inl there ↦ let (x, inside, e) = carries-some nodes k ps there in (x, ground arith, e)
  | inr absent ↦ (p, ground (arith, ==_iff p p), at_object absent)
]
  where
    at_object : carries nodes ps k ≡ false → persisted (nodes p) ≡ some k
    at_object absent = ground arith

carries-member :
    (nodes : Ptr → Node) (k : Key) (ps : List Ptr) (x : Ptr)
    → member x ps ≡ true
    → persisted (nodes x) ≡ some k
    → carries nodes ps k ≡ true
unfolding persisted
carries-member nodes k [] x h e = cc
carries-member nodes k (p ∷ ps) x h e = elim (Bool-cases (member x ps)) [
  | inl there ↦ ground (arith, carries-member nodes k ps x there e)
  | inr far ↦ let at_p : p ≡ x = (==_iff _ _).0 (ground arith) in at_object (rw at_p e)
]
  where
    at_object : persisted (nodes p) ≡ some k → carries nodes (p ∷ ps) k ≡ true
    at_object e' = ground arith

-- NVRAM carries exactly the keys of the list, and each in the object that lists it.
module _ {objs : List Ptr} {head tail : Ptr} {cs : List Cell} {m : Memory}
    (u : Usable objs head tail cs m) (apart : member head objs ≡ false) where
  ne_head : (x : Ptr) → member x objs ≡ true → x ≢ head
  ne_head x inside e = clash (subst (λ y. member y objs ≡ true) e inside) apart
    where
      clash : {b : Bool} → b ≡ true → b ≡ false → ⊥
      clash p q = cc

  pub durable_listed :
      (x : Ptr) (k : Key)
      → member x objs ≡ true
      → persisted (m.durable x) ≡ some k
      → lists x k cs ≡ true
  durable_listed x k inside e =
      let ne = ne_head x inside in u.list.owned x k ne (sym (u.list.settled x ne) ∙ e)

  listed_durable : (x : Ptr) (k : Key) → lists x k cs ≡ true → persisted (m.durable x) ≡ some k
  listed_durable x k l =
      u.list.settled x (ne_head x (u.within x k l))
      ∙ Seg-listed cs x k u.list.here.seg u.list.here.end.sound l (u.valid x k l)

  pub carries-has : (k : Key) → carries m.durable objs k ≡ has k cs
  carries-has k = elim (Bool-cases (carries m.durable objs k)) [
    | inl carried ↦
        let (x, inside, e) = carries-some m.durable k objs carried in
        carried ∙ sym (lists-has x k cs (durable_listed x k inside e))
    | inr uncarried ↦ elim (Bool-cases (has k cs)) [
      | inl there ↦
          let (x, l) = has-lists k cs there in
          carries-member m.durable k objs x (u.within x k l) (listed_durable x k l) ∙ sym there
      | inr absent ↦ uncarried ∙ sym absent
    ]
  ]
