-- ===== src/LinkFree/Cells.antt =====
-- The chain of a link-free list as a sequence of cells: insertion in front of the first larger key,
-- removal by key, and which keys and objects such a sequence holds.
use efficient_lock_free_dura.Common.{
  suc, ◌<◌, ◌≤◌, ◌≡◌, ◌≢◌, refl, Bool, true, false, not, List, [], ◌∷◌, ◌++◌, All, length, ltb, leb,
  ◌==◌, ◌&&◌, ◌||◌, if◌then◌else◌, Bool-cases, inl, inr, arith,
}
use efficient_lock_free_dura.LinkFree.Memory.{Ptr, Key}
use efficient_lock_free_dura.LinkFree.List.{int_max}
use efficient_lock_free_dura.LinkFree.Shape.{Cell, Ascends, Outside, has}
use efficient_lock_free_dura.LinkFree.Find.Walk.{sweep, Reached}

abbrev pub insert_cell : Cell → List Cell → List Cell
insert_cell n [] = n ∷ []
insert_cell n (c ∷ cs) = if ltb c.key n.key then c ∷ insert_cell n cs else n ∷ c ∷ cs

abbrev pub remove_cell : Key → List Cell → List Cell
remove_cell key [] = []
remove_cell key (c ∷ cs) = if c.key == key then cs else c ∷ remove_cell key cs

-- The object is an unmarked cell with the key.
abbrev pub lists : Ptr → Key → List Cell → Bool
lists x k [] = false
lists x k (c ∷ cs) = (not c.marked && (c.ptr == x && c.key == k)) || lists x k cs

pub has-insert_cell :
    (j : Key) (n : Cell) (cs : List Cell)
    → n.marked ≡ false
    → has j (insert_cell n cs) ≡ (if n.key == j then true else has j cs)
has-insert_cell j n [] live = ground arith
has-insert_cell j n (c ∷ cs) live = ground (arith, has-insert_cell j n cs)

pub has-above : (j lo : Key) (cs : List Cell) → Ascends lo cs → j ≤ lo → has j cs ≡ false
has-above j lo [] up le = refl
has-above j lo (c ∷ cs) (h, hs) le = ground (arith, has-above j c.key cs hs)

pub has-remove_cell :
    (j key lo : Key) (cs : List Cell)
    → Ascends lo cs
    → has j (remove_cell key cs) ≡ (if key == j then false else has j cs)
has-remove_cell j key lo [] up = ground arith
has-remove_cell j key lo (c ∷ cs) (h, hs) =
    ground (arith, has-remove_cell j key c.key cs hs, has-above j c.key cs hs)

pub Outside-insert_cell :
    (x : Ptr) (n : Cell) (cs : List Cell) → n.ptr ≢ x → Outside x cs → Outside x (insert_cell n cs)
Outside-insert_cell x n [] ne out = (ne, tt)
Outside-insert_cell x n (c ∷ cs) ne (ne_c, out) = ground (arith, Outside-insert_cell x n cs ne out)

pub length-insert_cell : (n : Cell) (cs : List Cell) → length (insert_cell n cs) ≡ suc (length cs)
length-insert_cell n [] = refl
length-insert_cell n (c ∷ cs) = ground (arith, length-insert_cell n cs)

pub lists-sweep : (x : Ptr) (k key : Key) (cs : List Cell) → lists x k (sweep key cs) ≡ lists x k cs
lists-sweep x k key [] = refl
lists-sweep x k key (c ∷ cs) = ground (arith, lists-sweep x k key cs)

pub lists-insert_cell :
    (x : Ptr) (k : Key) (n : Cell) (cs : List Cell)
    → n.marked ≡ false
    → lists x k (insert_cell n cs) ≡ (if n.ptr == x && n.key == k then true else lists x k cs)
lists-insert_cell x k n [] live = ground arith
lists-insert_cell x k n (c ∷ cs) live = ground (arith, lists-insert_cell x k n cs)

pub lists-remove_cell :
    (x : Ptr) (k key : Key) (cs : List Cell)
    → k ≢ key
    → lists x k (remove_cell key cs) ≡ lists x k cs
lists-remove_cell x k key [] ne = refl
lists-remove_cell x k key (c ∷ cs) ne = ground (arith, lists-remove_cell x k key cs ne)

pub lists-has : (x : Ptr) (k : Key) (cs : List Cell) → lists x k cs ≡ true → has k cs ≡ true
lists-has x k [] h = cc
lists-has x k (c ∷ cs) h = ground (arith, lists-has x k cs)

-- Only one object has the key.
pub lists_unique :
    (x y : Ptr) (k lo : Key) (cs : List Cell)
    → Ascends lo cs
    → lists x k cs ≡ true
    → lists y k cs ≡ true
    → x ≡ y
lists_unique x y k lo [] up hx hy = cc
lists_unique x y k lo (c ∷ cs) (h, hs) hx hy = ground (
  arith,
  lists_unique x y k c.key cs hs,
  lists-has x k cs,
  lists-has y k cs,
  has-above k c.key cs hs,
)

pub lists-Outside : (x : Ptr) (k : Key) (cs : List Cell) → Outside x cs → lists x k cs ≡ false
lists-Outside x k [] out = refl
lists-Outside x k (c ∷ cs) (ne, out) = ground (arith, lists-Outside x k cs out)

Ascends-from : (lo' lo : Key) (cs : List Cell) → lo' ≤ lo → Ascends lo cs → Ascends lo' cs
Ascends-from lo' lo [] le h = omega arith
Ascends-from lo' lo (c ∷ cs) le (h, hs) = (omega arith, hs)

pub Ascends-sweep : (lo key : Key) (cs : List Cell) → Ascends lo cs → Ascends lo (sweep key cs)
Ascends-sweep lo key [] h = h
Ascends-sweep lo key (c ∷ cs) (h, hs) = elim (Bool-cases c.marked) [
  | inl dead ↦ rw dead (Ascends-sweep lo key cs (Ascends-from lo c.key cs (omega arith) hs))
  | inr live ↦ elim (Bool-cases (leb key c.key)) [
    | inl reached ↦ rw (live, reached) (h, hs)
    | inr short ↦ rw (live, short) (h, Ascends-sweep c.key key cs hs)
  ]
]

-- The key of the new cell is none of the others'.
pub Ascends-insert_cell :
    (lo : Key) (n : Cell) (cs : List Cell)
    → Ascends lo cs
    → lo < n.key
    → n.key < int_max
    → All (λ c. c.key ≢ n.key) cs
    → Ascends lo (insert_cell n cs)
Ascends-insert_cell lo n [] h lt small new = (lt, small)
Ascends-insert_cell lo n (c ∷ cs) (h, hs) lt small (ne, new) = elim (Bool-cases (ltb c.key n.key)) [
  | inl below ↦ rw below (h, Ascends-insert_cell c.key n cs hs (ground arith) small new)
  | inr above ↦ rw above (lt, (ground arith, hs))
]

pub Ascends-remove_cell :
    (lo key : Key) (cs : List Cell) → Ascends lo cs → Ascends lo (remove_cell key cs)
Ascends-remove_cell lo key [] h = h
Ascends-remove_cell lo key (c ∷ cs) (h, hs) = elim (Bool-cases (c.key == key)) [
  | inl hit ↦ rw hit (Ascends-from lo c.key cs (omega arith) hs)
  | inr miss ↦ rw miss (h, Ascends-remove_cell c.key key cs hs)
]

-- How the operations act where a search has split the chain.
module _ (r : Cell) (bs : List Cell) where
  pub insert_cell-split :
      (n : Cell) (fs : List Cell)
      → All (λ d. d.key < r.key) fs
      → r.key < n.key
      → Reached n.key bs
      → insert_cell n (fs ++ r ∷ bs) ≡ fs ++ r ∷ n ∷ bs
  insert_cell-split n [] below lt reached = go bs reached
    where
      go : (cs : List Cell) → Reached n.key cs → insert_cell n (r ∷ cs) ≡ r ∷ n ∷ cs
      go [] h = ground arith
      go (b ∷ cs) (live, h) = ground arith
  insert_cell-split n (f ∷ fs) (h, below) lt reached =
      ground (arith, insert_cell-split n fs below lt reached)

  pub remove_cell-split :
      (b : Cell) (fs : List Cell)
      → All (λ d. d.key < r.key) fs
      → r.key < b.key
      → remove_cell b.key (fs ++ r ∷ b ∷ bs) ≡ fs ++ r ∷ bs
  remove_cell-split b [] below lt = ground arith
  remove_cell-split b (f ∷ fs) (h, below) lt = ground (arith, remove_cell-split b fs below lt)

  pub has-split :
      (key : Key) (fs : List Cell)
      → All (λ d. d.key < r.key) fs
      → r.key < key
      → has key (fs ++ r ∷ bs) ≡ has key bs
  has-split key [] below lt = ground arith
  has-split key (f ∷ fs) (h, below) lt = ground (arith, has-split key fs below lt)

-- Whether the sought key is there shows at the cell where the search stops.
pub has-Reached :
    (key : Key) (b : Cell) (bs : List Cell) (lo : Key)
    → Ascends lo (b ∷ bs)
    → Reached key (b ∷ bs)
    → has key (b ∷ bs) ≡ (b.key == key)
has-Reached key b bs lo (h, hs) (live, le) = ground (arith, has-above key b.key bs hs)
