-- ===== src/LinkFree/Find/Step.antt =====
-- The place of a search in the chain, and how it moves: past an unmarked node, and after `trim` of a
-- marked one.
use efficient_lock_free_dura.Common.{
  ℕ, ◌<◌, ◌≡◌, ◌≢◌, sym, ap, ◌∙◌, refl, Bool, true, false, Bool-cases, inl, inr, List, [], ◌∷◌, All,
  arith,
}
use efficient_lock_free_dura.LinkFree.Memory.{Ptr, Node, Memory, nullptr, is_wild, write}
use efficient_lock_free_dura.LinkFree.Utilities.{is_marked, get_ref}
use efficient_lock_free_dura.LinkFree.Utilities.Marks.{get_ref_of_unmarked, is_marked-get_ref}
use efficient_lock_free_dura.LinkFree.List.{int_max}
use efficient_lock_free_dura.LinkFree.Shape.{
  Cell, Holds, Seg, nil, cons, Ascends, Ascends-above, IsTail, Outside, Outside-of_key, write_self,
  write_ne, Seg-write, Keeps, Holds-touch, Seg-touch, next-touch,
}
use efficient_lock_free_dura.LinkFree.Commands.{after_flush_delete, detached}
use efficient_lock_free_dura.LinkFree.Find.Quiet.{
  Quiet, Quiet-trans, after_flush_delete-Quiet, detached-Quiet,
}

-- The unmarked cell `q`, linked to `curr`, from where `cs` leads to the tail.
pub record At (nodes : Ptr → Node) (tail : Ptr) (q : Cell) (curr : Ptr) (cs : List Cell)
    : Type 0 where
  pub held : Holds nodes q
  pub live : q.marked ≡ false
  pub next : (nodes q.ptr).next ≡ curr
  pub seg : Seg nodes tail curr cs
  pub up : Ascends q.key cs
  pub end : IsTail nodes tail

dead_and_live : {b : Bool} → b ≡ true → b ≡ false → ⊥
dead_and_live dead live = cc

Ascends-weaken : {lo' : ℕ} (lo : ℕ) (cs : List Cell) → lo' < lo → Ascends lo cs → Ascends lo' cs
Ascends-weaken lo [] lt h = omega arith
Ascends-weaken lo (c ∷ cs) lt (h, hs) = (omega arith, hs)

pub not_null : (p : Ptr) → is_wild p ≡ false → p ≢ nullptr
unfolding is_wild
not_null p sound = ground arith

pub clean : (p : Ptr) → is_wild p ≡ false → is_marked p ≡ false
unfolding is_wild
clean p sound = ground arith

pub Seg-sound :
    {nodes : Ptr → Node} {tail start : Ptr} {cs : List Cell}
    → Seg nodes tail start cs
    → is_wild tail ≡ false
    → is_wild start ≡ false
Seg-sound (nil e) sound = rw e sound
Seg-sound (cons e held s) sound = rw e held.sound

pub Ascends-max : (lo : ℕ) (cs : List Cell) → Ascends lo cs → lo < int_max
Ascends-max lo [] h = h
Ascends-max lo (c ∷ cs) (h, hs) = omega (arith, Ascends-max c.key cs hs)

All-ne : (n : ℕ) (cs : List Cell) → All (λ c. n < c.key) cs → All (λ c. c.key ≢ n) cs
All-ne n [] h = tt
All-ne n (c ∷ cs) (h, hs) = (omega arith, All-ne n cs hs)

-- No cell above `lo` stands at a node with the key `lo`.
pub Outside-above :
    {nodes : Ptr → Node} {tail start : Ptr} {cs : List Cell} (p : Ptr) (lo : ℕ)
    → Seg nodes tail start cs
    → Ascends lo cs
    → (nodes p).key ≡ lo
    → Outside p cs
Outside-above {cs} p lo s up e = Outside-of_key p s (rw e (All-ne lo cs (Ascends-above lo cs up)))

-- A write that keeps the key and the mark of the node keeps the tail.
pub IsTail-write :
    {nodes : Ptr → Node} {tail : Ptr} (p : Ptr) (n : Node)
    → n.key ≡ (nodes p).key
    → is_marked n.next ≡ is_marked (nodes p).next
    → IsTail nodes tail
    → IsTail (write nodes p n) tail
unfolding write
IsTail-write p n same_key same_mark end = record {
  sound = end.sound;
  key_eq = ground (arith, end.key_eq);
  unmarked = ground (arith, end.unmarked);
}

-- A write elsewhere keeps the tail.
pub IsTail-ne :
    {nodes : Ptr → Node} {tail : Ptr} (p : Ptr) (n : Node)
    → tail ≢ p
    → IsTail nodes tail
    → IsTail (write nodes p n) tail
IsTail-ne {nodes} {tail} p n ne end =
    let e = write_ne nodes p n tail ne in
    record { sound = end.sound; key_eq = rw e end.key_eq; unmarked = rw e end.unmarked }

pub Seg-end : {nodes : Ptr → Node} {tail curr : Ptr} → Seg nodes tail curr [] → curr ≡ tail
Seg-end (nil e) = e

module _ {nodes : Ptr → Node} {tail curr : Ptr} {c : Cell} {cs : List Cell} where
  pub Seg-head : Seg nodes tail curr (c ∷ cs) → curr ≡ c.ptr
  Seg-head (cons e held s) = e

  pub Seg-held : Seg nodes tail curr (c ∷ cs) → Holds nodes c
  Seg-held (cons e held s) = held

  pub Seg-tail : Seg nodes tail curr (c ∷ cs) → Seg nodes tail (get_ref (nodes c.ptr).next) cs
  Seg-tail (cons e held s) = s

-- Two cells of the chain, one above the other, stand at different addresses.
apart :
    {nodes : Ptr → Node} {q c : Cell}
    → Holds nodes q
    → Holds nodes c
    → q.key < c.key
    → q.ptr ≢ c.ptr
apart {nodes} {q} {c} held_q held_c lt e =
    absurd (omega (arith, held_q.key_eq, held_c.key_eq, ap (λ x. (nodes x).key) e))

abbrev pub linked_to : (Ptr → Node) → (p next : Ptr) → Node
linked_to nodes p next = record (nodes p) { next = next }

-- A live cell whose link is set to an unmarked pointer.
pub Holds-relink :
    {nodes : Ptr → Node} {q : Cell} (next : Ptr)
    → q.marked ≡ false
    → is_marked next ≡ false
    → Holds nodes q
    → Holds (write nodes q.ptr (linked_to nodes q.ptr next)) q
Holds-relink {nodes} {q} next live unmarked held =
    let self = write_self nodes q.ptr (linked_to nodes q.ptr next) in
    record {
      sound = held.sound;
      key_eq = ap (λ x. x.key) self ∙ held.key_eq;
      mark_eq = ap (λ x. is_marked x.next) self ∙ unmarked ∙ sym live;
      byte = rw self held.byte;
      valid_of_marked = λ dead. absurd (dead_and_live dead live);
      undeleted = rw self held.undeleted;
      inserted = rw self held.inserted;
    }

pub At-touch :
    {nodes : Ptr → Node} {tail curr : Ptr} {q : Cell} {cs : List Cell} (p : Ptr) (n : Node)
    → Keeps (nodes p) n
    → At nodes tail q curr cs
    → At (write nodes p n) tail q curr cs
At-touch {nodes} {q} p n keeps here = record {
  held = Holds-touch p n keeps here.held;
  live = here.live;
  next = next-touch nodes p n keeps q.ptr ∙ here.next;
  seg = Seg-touch p n keeps here.seg;
  up = here.up;
  end = IsTail-write p n keeps.key (ap is_marked keeps.next) here.end;
}

module _ {tail curr : Ptr} {q c : Cell} {cs : List Cell} (m : Memory)
    (here : At m.cached tail q curr (c ∷ cs)) where
  pub held_c : Holds m.cached c
  held_c = Seg-held here.seg

  pub rest : Seg m.cached tail (get_ref (m.cached c.ptr).next) cs
  rest = Seg-tail here.seg

  pub below_c : q.key < c.key
  below_c = here.up.0

  pub q_ne_c : q.ptr ≢ c.ptr
  q_ne_c = apart here.held held_c below_c

  pub c_out : Outside c.ptr cs
  c_out = Outside-above c.ptr c.key rest here.up.1 held_c.key_eq

  pub q_out : Outside q.ptr (c ∷ cs)
  q_out = Outside-above q.ptr q.key here.seg here.up here.held.key_eq

  c_ne_q : c.ptr ≢ q.ptr
  c_ne_q e = q_ne_c (sym e)

  -- `trim` unlinks a marked node.
  pub detached-At : At (detached m q.ptr c.ptr).cached tail q (get_ref (m.cached c.ptr).next) cs
  detached-At =
      let next = get_ref (m.cached c.ptr).next in
      let n = linked_to m.cached q.ptr next in
      record {
        held = Holds-relink next here.live (is_marked-get_ref (m.cached c.ptr).next) here.held;
        live = here.live;
        next = ap (λ x. x.next) (write_self m.cached q.ptr n);
        seg = Seg-write q.ptr n rest q_out.1;
        up = Ascends-weaken c.key cs below_c here.up.1;
        end =
            IsTail-write q.ptr n refl (is_marked-get_ref _ ∙ sym (here.held.mark_eq ∙ here.live))
              here.end;
      }

  -- The search moves on to an unmarked cell.
  pub At-pass : c.marked ≡ false → At m.cached tail c (get_ref (m.cached c.ptr).next) cs
  At-pass live = record {
    held = held_c;
    live = live;
    next = sym (get_ref_of_unmarked _ (held_c.mark_eq ∙ live));
    seg = rest;
    up = here.up.1;
    end = here.end;
  }

  next_sound : is_wild (get_ref (m.cached c.ptr).next) ≡ false
  next_sound = Seg-sound rest here.end.sound

  unlinked-Quiet : Quiet m (detached m q.ptr c.ptr)
  unlinked-Quiet =
      detached-Quiet m q.ptr c.ptr (rw link (not_null c.ptr held_c.sound))
        (rw link (clean c.ptr held_c.sound)) (not_null _ next_sound) (clean _ next_sound)
    where
      link : (m.cached q.ptr).next ≡ c.ptr
      link = here.next ∙ Seg-head here.seg

flag_set-Keeps : (n : Node) → is_marked n.next ≡ true → Keeps n (record n { delete_flag = true })
flag_set-Keeps n dead = record {
  key = refl;
  next = refl;
  byte = λ b. b;
  valid = λ v. v;
  flag = λ live. absurd (dead_and_live dead live);
  inserted = λ h. h;
}

pub flush_delete-At :
    {tail curr : Ptr} {q : Cell} {cs : List Cell} (m : Memory) (p : Ptr)
    → is_marked (m.cached p).next ≡ true
    → At m.cached tail q curr cs
    → At (after_flush_delete m p).cached tail q curr cs
flush_delete-At m p dead here = elim (Bool-cases (m.cached p).delete_flag) [
  | inl set ↦ rw set here
  | inr unset ↦ simp unset (At-touch p _ (flag_set-Keeps (m.cached p) dead) here)
]

-- After `trim` of `c`, linked from `q`.
abbrev pub after_trim : Memory → (q c : Cell) → Memory
after_trim m q c = detached (after_flush_delete m c.ptr) q.ptr c.ptr

module _ {tail curr : Ptr} {q c : Cell} {cs : List Cell} (m : Memory)
    (here : At m.cached tail q curr (c ∷ cs)) (dead : c.marked ≡ true) where
  flushed_here : At (after_flush_delete m c.ptr).cached tail q curr (c ∷ cs)
  flushed_here = flush_delete-At m c.ptr ((held_c m here).mark_eq ∙ dead) here

  pub link_after_flush : ((after_flush_delete m c.ptr).cached q.ptr).next ≡ c.ptr
  link_after_flush = flushed_here.next ∙ Seg-head here.seg

  pub after_trim-At :
      At (after_trim m q c).cached tail q (get_ref ((after_trim m q c).cached c.ptr).next) cs
  after_trim-At =
      let nodes = (after_flush_delete m c.ptr).cached in
      let n = linked_to nodes q.ptr (get_ref (nodes c.ptr).next) in
      rw (write_ne nodes q.ptr n c.ptr (c_ne_q m here))
        (detached-At (after_flush_delete m c.ptr) flushed_here)

  pub after_trim-Quiet : Quiet m (after_trim m q c)
  after_trim-Quiet =
      Quiet-trans (after_flush_delete-Quiet m c.ptr)
        (unlinked-Quiet (after_flush_delete m c.ptr) flushed_here)

  pub after_trim-Outside :
      (x : Ptr) → Outside x (q ∷ c ∷ cs) → (after_trim m q c).cached x ≡ m.cached x
  unfolding write
  after_trim-Outside x out = ground arith

  pub after_trim-freed : (after_trim m q c).freed ≡ c.ptr ∷ m.freed
  after_trim-freed = ground arith
