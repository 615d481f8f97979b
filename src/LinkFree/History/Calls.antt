-- ===== src/LinkFree/History/Calls.antt =====
-- What a call leaves of a list that is ready for calls.
use efficient_lock_free_dura.Common.{
  member, ◌≡◌, ◌≢◌, ◌∙◌, sym, ap, subst, refl, Bool, true, List, [], ◌∷◌, All, ◌==◌, ◌&&◌,
  if◌then◌else◌, everywhere, ==_iff, Bool-cases, inl, inr, arith,
}
use efficient_lock_free_dura.LinkFree.Memory.{Ptr, Key, Memory}
use efficient_lock_free_dura.LinkFree.Utilities.{is_valid}
use efficient_lock_free_dura.LinkFree.Upkeep.{Upkeep}
use efficient_lock_free_dura.LinkFree.Shape.{Cell, Outside}
use efficient_lock_free_dura.LinkFree.Cells.{
  insert_cell, lists, lists-insert_cell, lists-sweep, Outside-insert_cell,
}
use efficient_lock_free_dura.LinkFree.Find.Walk.{sweep}
use efficient_lock_free_dura.LinkFree.Insert.Link.{new_cell, Outside-sweep}
use efficient_lock_free_dura.LinkFree.Invariant.{IsList}
use efficient_lock_free_dura.LinkFree.History.State.{Usable, IsSpare-moves}

-- A call that adds no cell and allocates nothing.
pub shrink-Usable :
    {objs : List Ptr} {head tail : Ptr} {cs cs' : List Cell} {m m' : Memory}
    → Usable objs head tail cs m
    → IsList m' head tail cs'
    → Upkeep m m'
    → m'.pool ≡ m.pool
    → ((x : Ptr) (k : Key) → lists x k cs' ≡ true → lists x k cs ≡ true)
    → ((q : Ptr) → Outside q cs → Outside q cs')
    → Usable objs head tail cs' m'
shrink-Usable {head} {tail} {cs} {cs'} {m} {m'} u list up pool fewer out = record {
  list = list;
  clean = up.clean u.clean;
  valid = λ x k l. up.valid u.clean x (u.valid x k (fewer x k l));
  within = λ x k l. u.within x k (fewer x k l);
  spares =
      rw pool (IsSpare-moves head tail cs cs' up u.clean m.pool (everywhere m.pool out) u.spares);
  distinct = rw pool u.distinct;
  pool_within = rw pool u.pool_within;
}

module _ (key : Key) (p : Ptr) (cs : List Cell) where
  -- The cells after `insert` has linked the object.
  abbrev pub grown : List Cell
  grown = insert_cell (new_cell p key) (sweep key cs)

  listed_before :
      (x : Ptr) (k : Key) → lists x k grown ≡ (if p == x && key == k then true else lists x k cs)
  listed_before x k =
      lists-insert_cell x k (new_cell p key) (sweep key cs) refl
      ∙ ap (λ b. if p == x && key == k then true else b) (lists-sweep x k key cs)

  -- What holds of the objects of the old cells and of the new object holds of those of the new cells.
  of_listed :
      {P : Ptr → Bool}
      → P p ≡ true
      → ((x : Ptr) (k : Key) → lists x k cs ≡ true → P x ≡ true)
      → (x : Ptr) (k : Key) → lists x k grown ≡ true
      → P x ≡ true
  of_listed {P} new old x k l = elim (Bool-cases (p == x)) [
    | inl e ↦ subst (λ y. P y ≡ true) ((==_iff _ _).0 e) new
    | inr ne ↦ old x k (ground (arith, listed_before x k))
  ]

  others_out : (ps : List Ptr) → All (λ q. q ≢ p) ps → All (λ q. Outside q cs → Outside q grown) ps
  others_out [] ne = tt
  others_out (q ∷ ps) (ne, nes) = (
    (λ out.
        Outside-insert_cell q (new_cell p key) (sweep key cs) (λ e. ne (sym e))
          (Outside-sweep q key cs out)),
    others_out ps nes,
  )

-- `insert` of a key that was missing.
pub grow-Usable :
    {objs : List Ptr} {head tail p : Ptr} {cs : List Cell} {m m' : Memory} {rest : List Ptr}
    (key : Key)
    → Usable objs head tail cs m
    → m.pool ≡ p ∷ rest
    → IsList m' head tail (grown key p cs)
    → Upkeep m m'
    → m'.pool ≡ rest
    → Usable objs head tail (grown key p cs) m'
grow-Usable {objs} {head} {tail} {p} {cs} {m} {m'} {rest} key u pool list up left =
    let spares = rw pool at u.spares in
    let distinct = rw pool at u.distinct in
    let inside = rw pool at u.pool_within in
    record {
      list = list;
      clean = up.clean u.clean;
      valid =
          of_listed key p cs {P = λ x. is_valid (m'.cached x).meta_data}
            (up.valid u.clean p spares.0.valid) λ x k l. up.valid u.clean x (u.valid x k l);
      within = of_listed key p cs {P = λ x. member x objs} inside.0 u.within;
      spares = rw left (
          IsSpare-moves head tail cs (grown key p cs) up u.clean rest
            (others_out key p cs rest distinct.0) spares.1);
      distinct = rw left distinct.1;
      pool_within = rw left inside.1;
    }
