-- ===== src/LinkFree/Shape.antt =====
-- What the memory of a link-free list holds: the chain of nodes from the head to the tail, and what
-- `recover` would read of an object in NVRAM.
use efficient_lock_free_dura.Common.{
  ◌<◌, ◌≡◌, ◌≢◌, sym, ap, ◌∙◌, Bool, true, false, not, Option, none, some, List, [], ◌∷◌, ◌++◌, All,
  ◌==◌, ◌&&◌, ◌||◌, if◌then◌else◌, arith,
}
use native.Mathlib.Decide.{ℕ_discrete}
use efficient_lock_free_dura.LinkFree.Memory.{Ptr, nullptr, Key, Node, write, is_wild}
use efficient_lock_free_dura.LinkFree.Utilities.{is_valid, is_marked, get_ref}
use efficient_lock_free_dura.LinkFree.List.{int_max}

-- A node of the chain, with the mark that is in its `next`.
pub record Cell : Type 0 where
  pub ptr : Ptr
  pub key : Key
  pub marked : Bool

pub record Holds (nodes : Ptr → Node) (c : Cell) : Type 0 where
  pub sound : is_wild c.ptr ≡ false
  pub key_eq : (nodes c.ptr).key ≡ c.key
  pub mark_eq : is_marked (nodes c.ptr).next ≡ c.marked
  pub byte : (nodes c.ptr).meta_data < 256
  pub valid_of_marked : c.marked ≡ true → is_valid (nodes c.ptr).meta_data ≡ true
  pub undeleted : c.marked ≡ false → (nodes c.ptr).delete_flag ≡ false
  pub inserted : (nodes c.ptr).insert_flag ≡ true → is_valid (nodes c.ptr).meta_data ≡ true

-- From `start` the `next` pointers lead through the cells to `stop`.
pub data Seg (nodes : Ptr → Node) (stop : Ptr) : Ptr → List Cell → Type 0 where
  nil : {start : Ptr} → start ≡ stop → Seg nodes stop start []
  cons :
      {start : Ptr} {c : Cell} {cs : List Cell}
      → start ≡ c.ptr
      → Holds nodes c
      → Seg nodes stop (get_ref (nodes c.ptr).next) cs
      → Seg nodes stop start (c ∷ cs)

-- The keys rise strictly from `lo` on and stay below that of the tail.
abbrev pub Ascends : Key → List Cell → Type 0
Ascends lo [] = lo < int_max
Ascends lo (c ∷ cs) = (lo < c.key) × Ascends c.key cs

-- An unmarked cell with the key.
abbrev pub has : Key → List Cell → Bool
has k [] = false
has k (c ∷ cs) = (not c.marked && c.key == k) || has k cs

-- `recover` inserts the object.
abbrev pub kept : Node → Bool
kept n = is_valid n.meta_data && (not (is_marked n.next) && not (n.next == nullptr))

-- What `recover` makes of an object: the key that it inserts, or nothing.
unfoldable pub persisted : Node → Option Key
persisted n =
    if is_valid n.meta_data && (not (is_marked n.next) && not (n.next == nullptr))
    then some n.key
    else none

pub record IsTail (nodes : Ptr → Node) (tail : Ptr) : Type 0 where
  pub sound : is_wild tail ≡ false
  pub key_eq : (nodes tail).key ≡ int_max
  pub unmarked : is_marked (nodes tail).next ≡ false

-- Writes at addresses outside of the cells.
abbrev pub Outside : Ptr → List Cell → Type 0
Outside p = All (λ c. c.ptr ≢ p)

module _ (nodes : Ptr → Node) (p : Ptr) (n : Node) where
  pub write_self : write nodes p n p ≡ n
  unfolding write
  write_self = ground arith

  pub write_ne : (q : Ptr) → q ≢ p → write nodes p n q ≡ nodes q
  unfolding write
  write_ne q h = ground arith

module _ {nodes : Ptr → Node} (p : Ptr) (n : Node) where
  pub Holds-write : {c : Cell} → c.ptr ≢ p → Holds nodes c → Holds (write nodes p n) c
  Holds-write {c} h held =
      let e = write_ne nodes p n c.ptr h in
      record {
        sound = held.sound;
        key_eq = rw e held.key_eq;
        mark_eq = rw e held.mark_eq;
        byte = rw e held.byte;
        valid_of_marked = rw e held.valid_of_marked;
        undeleted = rw e held.undeleted;
        inserted = rw e held.inserted;
      }

  pub Seg-write :
      {stop start : Ptr} {cs : List Cell}
      → Seg nodes stop start cs
      → Outside p cs
      → Seg (write nodes p n) stop start cs
  Seg-write (nil e) out = nil e
  Seg-write (cons {c} e held s) (ne, out) =
      cons e (Holds-write ne held) (rw (write_ne nodes p n c.ptr ne) (Seg-write s out))

pub Holds-eq :
    {nodes nodes' : Ptr → Node} (c : Cell)
    → nodes' c.ptr ≡ nodes c.ptr
    → Holds nodes c
    → Holds nodes' c
Holds-eq c same held = record {
  sound = held.sound;
  key_eq = rw same held.key_eq;
  mark_eq = rw same held.mark_eq;
  byte = rw same held.byte;
  valid_of_marked = rw same held.valid_of_marked;
  undeleted = rw same held.undeleted;
  inserted = rw same held.inserted;
}

-- A new content of a node that leaves its place in the chain and its abstract state.
pub record Keeps (old new : Node) : Type 0 where
  pub key : new.key ≡ old.key
  pub next : new.next ≡ old.next
  pub byte : old.meta_data < 256 → new.meta_data < 256
  pub valid : is_valid old.meta_data ≡ true → is_valid new.meta_data ≡ true
  pub flag : is_marked old.next ≡ false → old.delete_flag ≡ false → new.delete_flag ≡ false
  pub inserted :
      (old.insert_flag ≡ true → is_valid old.meta_data ≡ true)
      → new.insert_flag ≡ true
      → is_valid new.meta_data ≡ true

pub next-touch :
    (nodes : Ptr → Node) (p : Ptr) (n : Node)
    → Keeps (nodes p) n
    → (q : Ptr) → (write nodes p n q).next ≡ (nodes q).next
unfolding write
next-touch nodes p n keeps q = ground (arith, keeps.next)

inserted-touch :
    (nodes : Ptr → Node) (p : Ptr) (n : Node)
    → Keeps (nodes p) n
    → (q : Ptr) → ((nodes q).insert_flag ≡ true → is_valid (nodes q).meta_data ≡ true)
    → (write nodes p n q).insert_flag ≡ true
    → is_valid (write nodes p n q).meta_data ≡ true
unfolding write
inserted-touch nodes p n keeps q old set = elim (ℕ_discrete q p) [
  | yes e ↦ ground (arith, keeps.inserted (λ h. ground (arith, old)))
  | no ne ↦ ground (arith, old)
]

module _ {nodes : Ptr → Node} (p : Ptr) (n : Node) (keeps : Keeps (nodes p) n) where
  pub Holds-touch : {c : Cell} → Holds nodes c → Holds (write nodes p n) c
  unfolding write
  Holds-touch {c} held = record {
    sound = held.sound;
    key_eq = ground (arith, keeps.key, held.key_eq);
    mark_eq = rw (next-touch nodes p n keeps c.ptr) held.mark_eq;
    byte = ground (arith, keeps.byte, held.byte);
    valid_of_marked = λ dead. ground (arith, keeps.valid, held.valid_of_marked);
    undeleted = λ live. ground (arith, keeps.flag, held.mark_eq, held.undeleted);
    inserted = inserted-touch nodes p n keeps c.ptr held.inserted;
  }

  pub Seg-touch :
      {stop start : Ptr} {cs : List Cell}
      → Seg nodes stop start cs
      → Seg (write nodes p n) stop start cs
  Seg-touch (nil e) = nil e
  Seg-touch (cons {c} e held s) =
      cons e (Holds-touch held) (rw (next-touch nodes p n keeps c.ptr) (Seg-touch s))

-- A node whose key no cell has is none of the cells.
pub Outside-of_key :
    {nodes : Ptr → Node} {stop start : Ptr} {cs : List Cell} (p : Ptr)
    → Seg nodes stop start cs
    → All (λ c. c.key ≢ (nodes p).key) cs
    → Outside p cs
Outside-of_key p (nil e) ne = tt
Outside-of_key {nodes} p (cons e held s) (ne, nes) =
    (λ same. ne (sym held.key_eq ∙ ap (λ x. (nodes x).key) same), Outside-of_key p s nes)

pub All-weaken :
    {P Q : Cell → Type 0} (cs : List Cell) → ((c : Cell) → P c → Q c) → All P cs → All Q cs
All-weaken [] f u = tt
All-weaken (c ∷ cs) f (u, us) = (f c u, All-weaken cs f us)

pub Ascends-above : (lo : Key) (cs : List Cell) → Ascends lo cs → All (λ c. lo < c.key) cs
Ascends-above lo [] h = tt
Ascends-above lo (c ∷ cs) (h, hs) =
    (h, All-weaken cs (λ d u. omega arith) (Ascends-above c.key cs hs))

pub Seg-append :
    {nodes : Ptr → Node} {stop mid start : Ptr} {cs ds : List Cell}
    → Seg nodes mid start cs
    → Seg nodes stop mid ds
    → Seg nodes stop start (cs ++ ds)
Seg-append (nil e) t = rw e t
Seg-append (cons e held s) t = cons e held (Seg-append s t)
