-- ===== src/LinkFree/Rebuild/Ready.antt =====
-- What recovery needs of an object that it will come to, and what its step for the object does.
use efficient_lock_free_dura.Common.{
  ◌<◌, ◌≡◌, ◌≢◌, ap, ◌∙◌, refl, true, false, List, [], ◌∷◌, ◌==◌, ◌&&◌, if◌then◌else◌, arith,
}
use efficient_lock_free_dura.LinkFree.Memory.{Ptr, nullptr, Key, Node, Memory, is_wild, write}
use efficient_lock_free_dura.LinkFree.Utilities.{is_valid}
use efficient_lock_free_dura.LinkFree.List.{int_min, int_max}
use efficient_lock_free_dura.LinkFree.Shape.{
  kept, Cell, Outside, has, persisted, write_ne, Holds-write, Seg-write,
}
use efficient_lock_free_dura.LinkFree.Upkeep.{Upkeep}
use efficient_lock_free_dura.LinkFree.Find.Step.{At, IsTail-ne}
use efficient_lock_free_dura.LinkFree.Find.Quiet.{Settled}
use efficient_lock_free_dura.LinkFree.Find.Walk.{sweep, swept}
use efficient_lock_free_dura.LinkFree.Cells.{insert_cell}
use efficient_lock_free_dura.LinkFree.Invariant.{head_cell}
use efficient_lock_free_dura.LinkFree.Insert.Link.{new_cell}
use efficient_lock_free_dura.LinkFree.Rebuild.Search.{Unmarked}

-- The cells after the step for the object at `p`.
abbrev pub add_cell : (Ptr → Node) → Ptr → List Cell → List Cell
add_cell nodes p cs = if kept (nodes p) then insert_cell (new_cell p (nodes p).key) cs else cs

-- The freed objects after the step: an object that is invalid or marked is given back.
abbrev pub add_freed : (Ptr → Node) → Ptr → List Ptr → List Ptr
add_freed nodes p freed =
    if (nodes p).next == nullptr && is_valid (nodes p).meta_data
    then freed
    else if kept (nodes p)
    then freed
    else p ∷ freed

pub record IsReady (nodes : Ptr → Node) (head tail : Ptr) (cs : List Cell) (p : Ptr) : Type 0 where
  pub sound : is_wild p ≡ false
  pub ne_tail : tail ≢ p
  pub outside : Outside p (head_cell head ∷ cs)
  pub byte : (nodes p).meta_data < 256
  pub undeleted : kept (nodes p) ≡ true → (nodes p).delete_flag ≡ false
  pub above : kept (nodes p) ≡ true → int_min < (nodes p).key
  pub small : kept (nodes p) ≡ true → (nodes p).key < int_max
  pub new : kept (nodes p) ≡ true → has (nodes p).key cs ≡ false

pub record Stepped (m : Memory) (head tail : Ptr) (cs : List Cell) (p : Ptr) (answer : Unit {0})
    (m' : Memory) : Type 0 where
  pub here : At m'.cached tail (head_cell head) (m'.cached head).next (add_cell m.cached p cs)
  pub unmarked : Unmarked (add_cell m.cached p cs)
  pub content : (x : Ptr) → persisted (m'.cached x) ≡ persisted (m.cached x)
  pub settled : (x : Ptr) → Settled m x → Settled m' x
  pub outside : (x : Ptr) → x ≢ p → Outside x (head_cell head ∷ cs) → m'.cached x ≡ m.cached x
  pub freed : m'.freed ≡ add_freed m.cached p m.freed
  pub pool : m'.pool ≡ m.pool
  pub upkeep : Upkeep m m'

pub At-write :
    {nodes : Ptr → Node} {tail curr : Ptr} {q : Cell} {cs : List Cell} (p : Ptr) (n : Node)
    → tail ≢ p
    → Outside p (q ∷ cs)
    → At nodes tail q curr cs
    → At (write nodes p n) tail q curr cs
At-write {nodes} {q} p n ne_tail (ne, out) here = record {
  held = Holds-write p n ne here.held;
  live = here.live;
  next = ap (λ x. x.next) (write_ne nodes p n q.ptr ne) ∙ here.next;
  seg = Seg-write p n here.seg out;
  up = here.up;
  end = IsTail-ne p n ne_tail here.end;
}

pub sweep-Unmarked : (key : Key) (cs : List Cell) → Unmarked cs → sweep key cs ≡ cs
sweep-Unmarked key [] live = refl
sweep-Unmarked key (c ∷ cs) (live_c, live) = ground (arith, sweep-Unmarked key cs live)

pub swept-Unmarked :
    (key : Key) (cs : List Cell) (acc : List Ptr) → Unmarked cs → swept key cs acc ≡ acc
swept-Unmarked key [] acc live = refl
swept-Unmarked key (c ∷ cs) acc (live_c, live) = ground (arith, swept-Unmarked key cs acc live)

pub Unmarked-insert_cell :
    (n : Cell) (cs : List Cell) → n.marked ≡ false → Unmarked cs → Unmarked (insert_cell n cs)
Unmarked-insert_cell n [] live_n live = (live_n, tt)
Unmarked-insert_cell n (c ∷ cs) live_n (live_c, live) =
    ground (arith, Unmarked-insert_cell n cs live_n live)
