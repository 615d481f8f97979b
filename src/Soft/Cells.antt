-- ===== src/Soft/Cells.antt =====
-- The chain of a SOFT list as a sequence of cells: insertion in front of the first larger key, removal by
-- key, and which keys and persistent nodes such a sequence holds.
use efficient_lock_free_dura.Common.{
  suc, ◌<◌, ◌≤◌, ◌≡◌, ◌≢◌, refl, true, false, List, [], ◌∷◌, ◌++◌, All, length, ltb, ◌==◌, ◌&&◌,
  if◌then◌else◌, Bool-cases, inl, inr, arith,
}
use efficient_lock_free_dura.Soft.Memory.{Ptr, Key}
use efficient_lock_free_dura.Soft.List.{int_max}
use efficient_lock_free_dura.Soft.Shape.{Cell, Ascends, has, lists}
use efficient_lock_free_dura.Soft.Find.{Reached}

abbrev pub insert_cell : Cell → List Cell → List Cell
insert_cell n [] = n ∷ []
insert_cell n (c ∷ cs) = if ltb c.key n.key then c ∷ insert_cell n cs else n ∷ c ∷ cs

abbrev pub remove_cell : Key → List Cell → List Cell
remove_cell key [] = []
remove_cell key (c ∷ cs) = if c.key == key then cs else c ∷ remove_cell key cs

pub has-above : (j lo : Key) (cs : List Cell) → Ascends lo cs → j ≤ lo → has j cs ≡ false
has-above j lo [] up le = refl
has-above j lo (c ∷ cs) (h, hs) le = ground (arith, has-above j c.key cs hs)

pub has-insert_cell :
    (j : Key) (n : Cell) (cs : List Cell)
    → has j (insert_cell n cs) ≡ (if n.key == j then true else has j cs)
has-insert_cell j n [] = ground arith
has-insert_cell j n (c ∷ cs) = ground (arith, has-insert_cell j n cs)

pub has-remove_cell :
    (j key lo : Key) (cs : List Cell)
    → Ascends lo cs
    → has j (remove_cell key cs) ≡ (if key == j then false else has j cs)
has-remove_cell j key lo [] up = ground arith
has-remove_cell j key lo (c ∷ cs) (h, hs) =
    ground (arith, has-remove_cell j key c.key cs hs, has-above j c.key cs hs)

pub lists-insert_cell :
    (x : Ptr) (k : Key) (n : Cell) (cs : List Cell)
    → lists x k (insert_cell n cs) ≡ (if n.pptr == x && n.key == k then true else lists x k cs)
lists-insert_cell x k n [] = ground arith
lists-insert_cell x k n (c ∷ cs) = ground (arith, lists-insert_cell x k n cs)

pub lists-remove_cell :
    (x : Ptr) (k key : Key) (cs : List Cell)
    → k ≢ key
    → lists x k (remove_cell key cs) ≡ lists x k cs
lists-remove_cell x k key [] ne = refl
lists-remove_cell x k key (c ∷ cs) ne = ground (arith, lists-remove_cell x k key cs ne)

pub lists-has : (x : Ptr) (k : Key) (cs : List Cell) → lists x k cs ≡ true → has k cs ≡ true
lists-has x k [] h = cc
lists-has x k (c ∷ cs) h = ground (arith, lists-has x k cs)

-- Only one persistent node has the key.
pub lists_unique :
    (x y : Ptr) (k lo : Key) (cs : List Cell)
    → Ascends lo cs
    → lists x k cs ≡ true
    → lists y k cs ≡ true
    → x ≡ y
lists_unique x y k lo [] up hx hy = cc
lists_unique x y k lo (c ∷ cs) (h, hs) hx hy = ground (
  arith,
  lists_unique x y k c.key cs hs,
  lists-has x k cs,
  lists-has y k cs,
  has-above k c.key cs hs,
)

Ascends-from : (lo' lo : Key) (cs : List Cell) → lo' ≤ lo → Ascends lo cs → Ascends lo' cs
Ascends-from lo' lo [] le h = omega arith
Ascends-from lo' lo (c ∷ cs) le (h, hs) = (omega arith, hs)

-- The key of the new cell is none of the others'.
pub Ascends-insert_cell :
    (lo : Key) (n : Cell) (cs : List Cell)
    → Ascends lo cs
    → lo < n.key
    → n.key < int_max
    → has n.key cs ≡ false
    → Ascends lo (insert_cell n cs)
Ascends-insert_cell lo n [] h lt small new = (lt, small)
Ascends-insert_cell lo n (c ∷ cs) (h, hs) lt small new = elim (Bool-cases (ltb c.key n.key)) [
  | inl below ↦ rw below (h, Ascends-insert_cell c.key n cs hs (ground arith) small (ground arith))
  | inr above ↦ rw above (lt, (ground arith, hs))
]

pub Ascends-remove_cell :
    (lo key : Key) (cs : List Cell) → Ascends lo cs → Ascends lo (remove_cell key cs)
Ascends-remove_cell lo key [] h = h
Ascends-remove_cell lo key (c ∷ cs) (h, hs) = elim (Bool-cases (c.key == key)) [
  | inl hit ↦ rw hit (Ascends-from lo c.key cs (omega arith) hs)
  | inr miss ↦ rw miss (h, Ascends-remove_cell c.key key cs hs)
]

-- A predicate of each cell.
module _ (P : Cell → Type 0) where
  pub All-append : (cs ds : List Cell) → All P (cs ++ ds) → All P cs × All P ds
  All-append [] ds all = (tt, all)
  All-append (c ∷ cs) ds (pc, all) = let (left, right) = All-append cs ds all in ((pc, left), right)

  pub All-insert_cell : (n : Cell) (cs : List Cell) → P n → All P cs → All P (insert_cell n cs)
  All-insert_cell n [] p all = (p, tt)
  All-insert_cell n (c ∷ cs) p (pc, all) = elim (Bool-cases (ltb c.key n.key)) [
    | inl below ↦ rw below (pc, All-insert_cell n cs p all)
    | inr above ↦ rw above (p, (pc, all))
  ]

  pub All-remove_cell : (key : Key) (cs : List Cell) → All P cs → All P (remove_cell key cs)
  All-remove_cell key [] all = tt
  All-remove_cell key (c ∷ cs) (pc, all) = elim (Bool-cases (c.key == key)) [
    | inl hit ↦ rw hit all
    | inr miss ↦ rw miss (pc, All-remove_cell key cs all)
  ]

pub All-ne_key :
    (key lo : Key) (cs : List Cell) → Ascends lo cs → key ≤ lo → All (λ c. c.key ≢ key) cs
All-ne_key key lo [] up le = tt
All-ne_key key lo (c ∷ cs) (h, hs) le = (omega arith, All-ne_key key c.key cs hs (omega arith))

pub remove_cell-ne :
    (key lo : Key) (cs : List Cell) → Ascends lo cs → All (λ c. c.key ≢ key) (remove_cell key cs)
remove_cell-ne key lo [] up = tt
remove_cell-ne key lo (c ∷ cs) (h, hs) = elim (Bool-cases (c.key == key)) [
  | inl hit ↦ rw hit (All-ne_key key c.key cs hs (ground arith))
  | inr miss ↦ rw miss (ground arith, remove_cell-ne key c.key cs hs)
]

-- How the operations act where a search has split the chain.
module _ (r : Cell) (bs : List Cell) where
  pub insert_cell-split :
      (n : Cell) (fs : List Cell)
      → All (λ d. d.key < r.key) fs
      → r.key < n.key
      → Reached n.key bs
      → insert_cell n (fs ++ r ∷ bs) ≡ fs ++ r ∷ n ∷ bs
  insert_cell-split n [] below lt reached = go bs reached
    where
      go : (cs : List Cell) → Reached n.key cs → insert_cell n (r ∷ cs) ≡ r ∷ n ∷ cs
      go [] h = ground arith
      go (b ∷ cs) h = ground arith
  insert_cell-split n (f ∷ fs) (h, below) lt reached =
      ground (arith, insert_cell-split n fs below lt reached)

  pub remove_cell-split :
      (b : Cell) (fs : List Cell)
      → All (λ d. d.key < r.key) fs
      → r.key < b.key
      → remove_cell b.key (fs ++ r ∷ b ∷ bs) ≡ fs ++ r ∷ bs
  remove_cell-split b [] below lt = ground arith
  remove_cell-split b (f ∷ fs) (h, below) lt = ground (arith, remove_cell-split b fs below lt)

  pub has-split :
      (key : Key) (fs : List Cell)
      → All (λ d. d.key < r.key) fs
      → r.key < key
      → has key (fs ++ r ∷ bs) ≡ has key bs
  has-split key [] below lt = ground arith
  has-split key (f ∷ fs) (h, below) lt = ground (arith, has-split key fs below lt)

-- Whether the sought key is there shows at the cell where the search stops.
pub has-Reached :
    (key : Key) (b : Cell) (bs : List Cell) (lo : Key)
    → Ascends lo (b ∷ bs)
    → key ≤ b.key
    → has key (b ∷ bs) ≡ (b.key == key)
has-Reached key b bs lo (h, hs) le = ground (arith, has-above key b.key bs hs)

pub length-insert_cell : (n : Cell) (cs : List Cell) → length (insert_cell n cs) ≡ suc (length cs)
length-insert_cell n [] = refl
length-insert_cell n (c ∷ cs) = ground (arith, length-insert_cell n cs)

pub length-remove_cell : (key : Key) (cs : List Cell) → length (remove_cell key cs) ≤ length cs
length-remove_cell key [] = omega arith
length-remove_cell key (c ∷ cs) = ground (arith, length-remove_cell key cs)
