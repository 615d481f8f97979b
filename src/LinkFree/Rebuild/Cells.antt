-- ===== src/LinkFree/Rebuild/Cells.antt =====
-- The cells of the list that recovery builds from the objects, and the objects that it frees.
use efficient_lock_free_dura.Common.{
  member, suc, ◌+◌, ◌≤◌, ◌≡◌, ◌∙◌, sym, subst, refl, ==_iff, Bool, true, false, List, [], ◌∷◌, All,
  length, ◌==◌, ◌&&◌, ◌||◌, Bool-cases, inl, inr, arith,
}
use efficient_lock_free_dura.LinkFree.Memory.{Ptr, Key, Node}
use efficient_lock_free_dura.LinkFree.Shape.{Cell, has}
use efficient_lock_free_dura.LinkFree.Insert.Link.{new_cell}
use efficient_lock_free_dura.LinkFree.Cells.{
  has-insert_cell, lists, lists-insert_cell, length-insert_cell,
}
use efficient_lock_free_dura.LinkFree.Shape.{kept}
use efficient_lock_free_dura.LinkFree.Rebuild.Ready.{add_cell, add_freed}

abbrev pub add_cells : (Ptr → Node) → List Ptr → List Cell → List Cell
add_cells nodes [] cs = cs
add_cells nodes (p ∷ ps) cs = add_cells nodes ps (add_cell nodes p cs)

abbrev pub add_all_freed : (Ptr → Node) → List Ptr → List Ptr → List Ptr
add_all_freed nodes [] freed = freed
add_all_freed nodes (p ∷ ps) freed = add_all_freed nodes ps (add_freed nodes p freed)

-- Some object with the key would be inserted by `recover`.
abbrev pub carries : (Ptr → Node) → List Ptr → Key → Bool
carries nodes [] k = false
carries nodes (p ∷ ps) k = (kept (nodes p) && (nodes p).key == k) || carries nodes ps k

module _ (nodes nodes' : Ptr → Node) where
  pub add_cells-same :
      (ps : List Ptr) (cs : List Cell)
      → All (λ q. nodes' q ≡ nodes q) ps
      → add_cells nodes' ps cs ≡ add_cells nodes ps cs
  add_cells-same [] cs all = refl
  add_cells-same (p ∷ ps) cs (same, all) = rw same (add_cells-same ps (add_cell nodes p cs) all)

  pub add_all_freed-same :
      (ps : List Ptr) (freed : List Ptr)
      → All (λ q. nodes' q ≡ nodes q) ps
      → add_all_freed nodes' ps freed ≡ add_all_freed nodes ps freed
  add_all_freed-same [] freed all = refl
  add_all_freed-same (p ∷ ps) freed (same, all) =
      rw same (add_all_freed-same ps (add_freed nodes p freed) all)

pub length-add_cell :
    (nodes : Ptr → Node) (p : Ptr) (cs : List Cell) → length (add_cell nodes p cs) ≤ suc (length cs)
length-add_cell nodes p cs = ground (arith, length-insert_cell (new_cell p (nodes p).key) cs)

has-add_cell :
    (nodes : Ptr → Node) (k : Key) (p : Ptr) (cs : List Cell)
    → has k (add_cell nodes p cs) ≡ ((kept (nodes p) && (nodes p).key == k) || has k cs)
has-add_cell nodes k p cs = ground (arith, has-insert_cell k (new_cell p (nodes p).key) cs refl)

pub has-add_cells :
    (nodes : Ptr → Node) (k : Key) (ps : List Ptr) (cs : List Cell)
    → has k (add_cells nodes ps cs) ≡ (carries nodes ps k || has k cs)
has-add_cells nodes k [] cs = refl
has-add_cells nodes k (p ∷ ps) cs =
    has-add_cells nodes k ps (add_cell nodes p cs) ∙ ground (arith, has-add_cell nodes k p cs)

lists-add_cell :
    (nodes : Ptr → Node) (x : Ptr) (k : Key) (p : Ptr) (cs : List Cell)
    → lists x k (add_cell nodes p cs)
      ≡ ((kept (nodes p) && (p == x && (nodes p).key == k)) || lists x k cs)
lists-add_cell nodes x k p cs =
    ground (arith, lists-insert_cell x k (new_cell p (nodes p).key) cs refl)

lists_more :
    (nodes : Ptr → Node) (x : Ptr) (k : Key) (ps : List Ptr) (cs : List Cell)
    → lists x k cs ≡ true
    → lists x k (add_cells nodes ps cs) ≡ true
lists_more nodes x k [] cs h = h
lists_more nodes x k (p ∷ ps) cs h =
    lists_more nodes x k ps (add_cell nodes p cs) (ground (arith, lists-add_cell nodes x k p cs))

pub lists-add_cells :
    (nodes : Ptr → Node) (x : Ptr) (ps : List Ptr) (cs : List Cell)
    → kept (nodes x) ≡ true
    → member x ps ≡ true
    → lists x (nodes x).key (add_cells nodes ps cs) ≡ true
lists-add_cells nodes x [] cs keep h = cc
lists-add_cells nodes x (p ∷ ps) cs keep h = elim (Bool-cases (p == x)) [
  | inl here ↦
      lists_more nodes x (nodes x).key ps (add_cell nodes p cs)
        (ground (arith, lists-add_cell nodes x (nodes x).key p cs))
  | inr there ↦ lists-add_cells nodes x ps (add_cell nodes p cs) keep (ground arith)
]

-- A cell that is new is that of an object that was inserted.
pub lists_added :
    (nodes : Ptr → Node) (x : Ptr) (k : Key) (ps : List Ptr) (cs : List Cell)
    → lists x k (add_cells nodes ps cs) ≡ true
    → lists x k cs ≡ false
    → (member x ps ≡ true) × (kept (nodes x) ≡ true)
lists_added nodes x k [] cs l old = cc
lists_added nodes x k (p ∷ ps) cs l old = elim (Bool-cases (lists x k (add_cell nodes p cs))) [
  | inl here ↦
      let hit = sym (lists-add_cell nodes x k p cs) ∙ here in
      let at_p : p ≡ x = (==_iff _ _).0 (ground arith) in
      (ground arith, subst (λ y. kept (nodes y) ≡ true) at_p (ground arith))
  | inr later ↦
      let (inside, keep) = lists_added nodes x k ps (add_cell nodes p cs) l later in
      (ground arith, keep)
]

pub length-add_cells :
    (nodes : Ptr → Node) (ps : List Ptr) (cs : List Cell)
    → length (add_cells nodes ps cs) ≤ length ps + length cs
length-add_cells nodes [] cs = omega arith
length-add_cells nodes (p ∷ ps) cs =
    omega (arith, length-add_cells nodes ps (add_cell nodes p cs), length-add_cell nodes p cs)
