-- ===== src/Soft/Shape.antt =====
-- What the memory of a SOFT list holds between two calls of one thread: the chain of volatile nodes,
-- each in the state INSERTED, from the head to the tail, and the persistent nodes that they point to.
use efficient_lock_free_dura.Common.{
  ℕ, ◌%◌, ◌<◌, ◌≤◌, ◌≡◌, ◌≢◌, ap, Bool, false, List, [], ◌∷◌, ◌++◌, All, ◌==◌, ◌&&◌, ◌||◌, arith,
}
use efficient_lock_free_dura.Soft.Utilities.{State, to_state, get_ref, create_ref, get_state}
use efficient_lock_free_dura.Soft.Memory.{Ptr, Key, Node, is_wild, write}
use efficient_lock_free_dura.Soft.List.{int_max}
use efficient_lock_free_dura.Soft.Commands.{write_ne}

pub record Cell : Type 0 where
  pub ptr : Ptr
  pub key : Key
  pub pptr : Ptr

pub record Holds (nodes : Ptr → Node) (c : Cell) : Type 0 where
  pub sound : is_wild c.ptr ≡ false
  pub key_eq : (nodes c.ptr).key ≡ c.key
  pub pptr_eq : (nodes c.ptr).pptr ≡ c.pptr

-- From `start` the `next` pointers, which carry no state but INSERTED, lead through the cells to `stop`.
pub data Seg (nodes : Ptr → Node) (stop : Ptr) : Ptr → List Cell → Type 0 where
  nil : {start : Ptr} → start ≡ stop → Seg nodes stop start []
  cons :
      {start : Ptr} {c : Cell} {cs : List Cell}
      → start ≡ c.ptr
      → Holds nodes c
      → Seg nodes stop (nodes c.ptr).next cs
      → Seg nodes stop start (c ∷ cs)

-- The keys rise strictly from `lo` on and stay below that of the tail.
abbrev pub Ascends : Key → List Cell → Type 0
Ascends lo [] = lo < int_max
Ascends lo (c ∷ cs) = (lo < c.key) × Ascends c.key cs

abbrev pub has : Key → List Cell → Bool
has k [] = false
has k (c ∷ cs) = c.key == k || has k cs

-- The persistent node is that of a cell with the key.
abbrev pub lists : Ptr → Key → List Cell → Bool
lists x k [] = false
lists x k (c ∷ cs) = (c.pptr == x && c.key == k) || lists x k cs

pub record IsTail (nodes : Ptr → Node) (tail : Ptr) : Type 0 where
  pub sound : is_wild tail ≡ false
  pub key_eq : (nodes tail).key ≡ int_max
  pub state : get_state (nodes tail).next ≡ State.inserted

-- The cell `q`, linked to `curr`, from where `cs` leads to the tail.
pub record At (nodes : Ptr → Node) (tail : Ptr) (q : Cell) (curr : Ptr) (cs : List Cell)
    : Type 0 where
  pub held : Holds nodes q
  pub next : (nodes q.ptr).next ≡ curr
  pub seg : Seg nodes tail curr cs
  pub up : Ascends q.key cs
  pub end : IsTail nodes tail

abbrev pub Outside : Ptr → List Cell → Type 0
Outside p = All (λ c. c.ptr ≢ p)

-- A pointer through which an access is possible carries the state INSERTED.
module _ (p : Ptr) (sound : is_wild p ≡ false) where
  pub get_ref_sound : get_ref p ≡ p
  unfolding is_wild get_ref
  get_ref_sound = ground arith

  pub get_state_sound : get_state p ≡ State.inserted
  unfolding is_wild get_state
  get_state_sound = ap to_state {x = p % 4} {y = 0} (ground arith)

  pub create_ref_sound : create_ref p State.inserted ≡ p
  unfolding is_wild create_ref get_ref
  create_ref_sound = ground arith

module _ (nodes : Ptr → Node) (p : Ptr) (n : Node) where
  pub Holds-write : {c : Cell} → c.ptr ≢ p → Holds nodes c → Holds (write nodes p n) c
  Holds-write {c} h held =
      let e = write_ne nodes p n c.ptr h in
      record { sound = held.sound; key_eq = rw e held.key_eq; pptr_eq = rw e held.pptr_eq }

  pub Seg-write :
      {stop start : Ptr} {cs : List Cell}
      → Seg nodes stop start cs
      → Outside p cs
      → Seg (write nodes p n) stop start cs
  Seg-write (nil e) out = nil e
  Seg-write (cons {c} e held s) (ne, out) =
      cons e (Holds-write ne held) (rw (write_ne nodes p n c.ptr ne) (Seg-write s out))

pub Seg-sound :
    {nodes : Ptr → Node} {tail start : Ptr} (cs : List Cell)
    → is_wild tail ≡ false
    → Seg nodes tail start cs
    → is_wild start ≡ false
Seg-sound [] sound (nil e) = rw e sound
Seg-sound (c ∷ cs) sound (cons e held s) = rw e held.sound

pub Ascends-max : (lo : ℕ) (cs : List Cell) → Ascends lo cs → lo < int_max
Ascends-max lo [] h = h
Ascends-max lo (c ∷ cs) (h, hs) = omega (arith, Ascends-max c.key cs hs)

-- No cell above `lo` stands at a node with a key up to `lo`.
pub Outside-above :
    {nodes : Ptr → Node} {stop start : Ptr} (p : Ptr) (lo : ℕ) (cs : List Cell)
    → (nodes p).key ≤ lo
    → Ascends lo cs
    → Seg nodes stop start cs
    → Outside p cs
Outside-above p lo [] le up s = tt
Outside-above {nodes} p lo (c ∷ cs) le (h, hs) (cons e held s) = (
  (λ same. absurd (omega (arith, held.key_eq, ap (λ x. (nodes x).key) same))),
  Outside-above p c.key cs (omega arith) hs s,
)

-- No cell below `hi` stands at a node with a key from `hi` on.
pub Outside-below :
    {nodes : Ptr → Node} {stop start : Ptr} (p : Ptr) (hi : ℕ) (cs : List Cell)
    → hi ≤ (nodes p).key
    → All (λ d. d.key < hi) cs
    → Seg nodes stop start cs
    → Outside p cs
Outside-below p hi [] le below s = tt
Outside-below {nodes} p hi (c ∷ cs) le (h, hs) (cons e held s) = (
  (λ same. absurd (omega (arith, held.key_eq, ap (λ x. (nodes x).key) same))),
  Outside-below p hi cs le hs s,
)

pub Seg-append :
    {nodes : Ptr → Node} {stop mid start : Ptr} (cs ds : List Cell)
    → Seg nodes mid start cs
    → Seg nodes stop mid ds
    → Seg nodes stop start (cs ++ ds)
Seg-append [] ds (nil e) t = rw e t
Seg-append (c ∷ cs) ds (cons e held s) t = cons e held (Seg-append cs ds s t)

pub Seg-end : {nodes : Ptr → Node} {tail curr : Ptr} → Seg nodes tail curr [] → curr ≡ tail
Seg-end (nil e) = e

module _ {nodes : Ptr → Node} {tail curr : Ptr} {c : Cell} {cs : List Cell} where
  pub Seg-head : Seg nodes tail curr (c ∷ cs) → curr ≡ c.ptr
  Seg-head (cons e held s) = e

  pub Seg-held : Seg nodes tail curr (c ∷ cs) → Holds nodes c
  Seg-held (cons e held s) = held

  pub Seg-tail : Seg nodes tail curr (c ∷ cs) → Seg nodes tail (nodes c.ptr).next cs
  Seg-tail (cons e held s) = s

pub IsTail-write :
    {nodes : Ptr → Node} {tail : Ptr} (p : Ptr) (n : Node)
    → tail ≢ p
    → IsTail nodes tail
    → IsTail (write nodes p n) tail
IsTail-write {nodes} {tail} p n ne end =
    let e = write_ne nodes p n tail ne in
    record { sound = end.sound; key_eq = rw e end.key_eq; state = rw e end.state }
