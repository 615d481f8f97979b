-- ===== src/LinkFree/Contains.antt =====
-- `contains` of LinkFree/LinkFreeList.h, run by one thread.
pub mod Seek
pub mod Beyond
use efficient_lock_free_dura.Common.{
  ℕ, suc, ◌<◌, ◌≤◌, ◌≡◌, ◌≢◌, ◌⊎◌, ◌∙◌, sym, ap, subst, refl, Bool, true, false, some, List, length,
  not, ◌==◌, ◌&&◌, if◌then◌else◌, ==_iff, Bool-cases, inl, inr, arith,
}
use efficient_lock_free_dura.Common.Prog.{
  Returns, returns, Returns-bind, done, ret, ◌>>=◌, run-bind,
}
use efficient_lock_free_dura.LinkFree.Memory.{
  Ptr, nullptr, Key, Memory, Cmd, is_wild, exec, perform,
}
use efficient_lock_free_dura.LinkFree.Utilities.{is_marked, get_ref}
use efficient_lock_free_dura.LinkFree.Utilities.Marks.{get_ref_of_unmarked}
use efficient_lock_free_dura.LinkFree.List.{
  contains, contains_at, seek, load_next, load_key, flush_delete, int_min, int_max,
}
use efficient_lock_free_dura.LinkFree.Commands.{
  after_flush_delete, load_next_lem, load_key_lem, flush_delete_lem,
}
use efficient_lock_free_dura.LinkFree.Shape.{Cell, Holds, has, persisted}
use efficient_lock_free_dura.LinkFree.Cells.{lists}
use efficient_lock_free_dura.LinkFree.Find.Quiet.{after_flush_delete-Quiet}
use efficient_lock_free_dura.LinkFree.Find.Step.{At, flush_delete-At, not_null, clean}
use efficient_lock_free_dura.LinkFree.Invariant.{IsList, head_cell}
use efficient_lock_free_dura.LinkFree.Help.{
  helped, helped_lem, helped-IsList, helped_durable, helped-pool, helped-freed, helped-Upkeep,
}
use efficient_lock_free_dura.LinkFree.Upkeep.{Upkeep, Upkeep-refl, after_flush_delete-Upkeep}
use efficient_lock_free_dura.LinkFree.Remove.{not_durable}
use efficient_lock_free_dura.LinkFree.Contains.Seek.{StopAt, at_tail, at_cell, seek-StopAt}

-- What NVRAM says of the key: some object carries it, or none but the head may.
abbrev pub Durably : Memory → Ptr → Key → Bool → Type 0
Durably m head key true = (x : Ptr) × (persisted (m.durable x) ≡ some key)
Durably m head key false = (x : Ptr) → (x ≡ head) ⊎ (persisted (m.durable x) ≢ some key)

-- What a call of `contains` leaves.
pub record Looked (m : Memory) (head tail : Ptr) (cs : List Cell) (key : Key) (answer : Bool)
    (m' : Memory) : Type 0 where
  pub answer_eq : answer ≡ has key cs
  pub list : IsList m' head tail cs
  pub durable : Durably m' head key answer
  pub pool : m'.pool ≡ m.pool
  pub freed : m'.freed ≡ m.freed
  pub upkeep : Upkeep m m'

after_flush_delete-IsList :
    {m : Memory} {head tail : Ptr} {cs : List Cell} (x : Ptr)
    → is_marked (m.cached x).next ≡ true
    → IsList m head tail cs
    → IsList (after_flush_delete m x) head tail cs
after_flush_delete-IsList {m} {head} {tail} {cs} x dead is =
    let quiet = after_flush_delete-Quiet m x in
    let moved = flush_delete-At m x dead is.here in
    record {
      here =
          subst (λ p. At (after_flush_delete m x).cached tail (head_cell head) p cs)
            (sym moved.next) moved;
      settled = λ y ne. quiet.settled y (is.settled y ne);
      owned = λ y k ne e. is.owned y k ne (sym (quiet.content y) ∙ e);
    }

contains_at-absent :
    (m : Memory) (curr : Ptr) (key : Key)
    → is_wild curr ≡ false
    → ((m.cached curr).key == key) ≡ false
    → exec (contains_at key curr) m ≡ done false m
unfolding contains_at
contains_at-absent m curr key sound miss =
    run-bind perform (load_key curr) _ m ∙ rw (load_key_lem m curr sound, miss) refl

module _ (m : Memory) (curr : Ptr) (key : Key) (sound : is_wild curr ≡ false)
    (hit : (m.cached curr).key ≡ key) where
  contains_at-marked :
      is_marked (m.cached curr).next ≡ true
      → exec (contains_at key curr) m ≡ done false (after_flush_delete m curr)
  unfolding contains_at
  contains_at-marked dead =
      run-bind perform (load_key curr) _ m
      ∙ rw (load_key_lem m curr sound, (==_iff _ _).1 hit)
          (run-bind perform (load_next curr) _ m
            ∙ rw (load_next_lem m curr sound, dead)
                (run-bind perform (flush_delete curr) (λ _. ret false) m
                  ∙ rw (flush_delete_lem m curr sound)))

  pub contains_at-live :
      is_marked (m.cached curr).next ≡ false
      → exec (contains_at key curr) m ≡ done true (helped m curr)
  unfolding contains_at
  contains_at-live live =
      run-bind perform (load_key curr) _ m
      ∙ rw (load_key_lem m curr sound, (==_iff _ _).1 hit)
          (run-bind perform (load_next curr) _ m
            ∙ rw (load_next_lem m curr sound, live) (helped_lem m curr (ret true) sound))

module _ {m : Memory} {head tail : Ptr} {cs : List Cell} (key : Key) (is : IsList m head tail cs)
    (above : int_min < key) (small : key < int_max) where
  absent_here :
      (x : Ptr)
      → is_wild x ≡ false
      → ((m.cached x).key == key) ≡ false
      → has key cs ≡ false
      → Returns (Looked m head tail cs key) (exec (contains_at key x) m)
  absent_here x sound miss none = rw (contains_at-absent m x key sound miss) (
      returns (record {
        answer_eq = sym none;
        list = is;
        durable = not_durable key is none;
        pool = refl;
        freed = refl;
        upkeep = Upkeep-refl m;
      }))

  dead_here :
      (c : Cell)
      → Holds m.cached c
      → c.key ≡ key
      → c.marked ≡ true
      → has key cs ≡ false
      → Returns (Looked m head tail cs key) (exec (contains_at key c.ptr) m)
  dead_here c held hit dead none =
      let mark_eq = held.mark_eq ∙ dead in
      let left = after_flush_delete-IsList c.ptr mark_eq is in
      rw (contains_at-marked m c.ptr key held.sound (held.key_eq ∙ hit) mark_eq) (
        returns (record {
          answer_eq = sym none;
          list = left;
          durable = not_durable key left none;
          pool = (after_flush_delete-Quiet m c.ptr).pool;
          freed = ground arith;
          upkeep = after_flush_delete-Upkeep m c.ptr;
        }))

  live_here :
      (c : Cell)
      → Holds m.cached c
      → is_wild (get_ref (m.cached c.ptr).next) ≡ false
      → c.key ≡ key
      → c.marked ≡ false
      → lists c.ptr c.key cs ≡ true
      → has key cs ≡ true
      → Returns (Looked m head tail cs key) (exec (contains_at key c.ptr) m)
  live_here c held next_sound hit live listed there =
      let unmarked = held.mark_eq ∙ live in
      let linked : (m.cached c.ptr).next ≢ nullptr =
        rw (sym (get_ref_of_unmarked _ unmarked)) (not_null _ next_sound) in
      let plain : Holds m.cached (record { ptr = c.ptr; key = c.key; marked = false }) =
        subst (λ b. Holds m.cached (record { ptr = c.ptr; key = c.key; marked = b })) live held in
      let ne_head : c.ptr ≢ head = λ e.
        absurd (omega (arith, held.key_eq, is.here.held.key_eq, ap (λ x. (m.cached x).key) e)) in
      rw (contains_at-live m c.ptr key held.sound (held.key_eq ∙ hit) unmarked) (
        returns (record {
          answer_eq = sym there;
          list =
              helped-IsList c.ptr is ne_head
                (subst (λ k. Holds m.cached (record { ptr = c.ptr; key = k; marked = false }))
                  (sym held.key_eq) plain)
                linked (rw held.key_eq listed);
          durable = (
            c.ptr,
            helped_durable m c.ptr c.key plain linked (is.settled c.ptr ne_head) ∙ ap some hit,
          );
          pool = helped-pool m c.ptr;
          freed = helped-freed m c.ptr;
          upkeep = helped-Upkeep m c.ptr (held.undeleted live);
        }))

  looked :
      (x : Ptr)
      → StopAt m.cached tail key cs x
      → Returns (Looked m head tail cs key) (exec (contains_at key x) m)
  looked x (at_tail e none) =
      rw e (absent_here tail is.here.end.sound (rw is.here.end.key_eq (ground arith)) none)
  looked x (at_cell c e held sound member listed) = rw e (elim (Bool-cases (c.key == key)) [
    | inl hit ↦
        let same : c.key ≡ key = (==_iff _ _).0 hit in
        elim (Bool-cases c.marked) [
          | inl dead ↦ dead_here c held same dead (member ∙ rw dead)
          | inr live ↦
              live_here c held sound same live (ground (arith, listed)) (member ∙ rw (live, hit))
        ]
    | inr miss ↦ absent_here c.ptr held.sound (rw held.key_eq miss) (member ∙ ground (arith, miss))
  ])

-- A call of the link-free list's `contains` alone returns, without a fault. It answers whether the
-- list has the key, and leaves the same cells; nothing is allocated or freed; if the answer is
-- yes, NVRAM carries the key in some object when the call returns, and if it is no, in none but
-- the head; if metadata was a byte everywhere and no object had been flushed with its delete flag
-- set, that stays so, and valid objects stay valid. The conditions: the list was in order, the key
-- lies strictly between those of the sentinels, and the fuel of the walk exceeds the number of
-- nodes.
pub contains-Looked :
    {m : Memory} {head tail : Ptr} {cs : List Cell} (walk : ℕ) (key : Key)
    → IsList m head tail cs
    → length cs < walk
    → int_min < key
    → key < int_max
    → Returns (Looked m head tail cs key) (exec (contains walk head key) m)
unfolding contains load_next
contains-Looked {m} {head} {tail} {cs} walk key is fuel above small =
    rw
      (
        run-bind perform (load_next head) (λ first. seek walk key first >>= contains_at key) m,
        load_next_lem m head is.here.held.sound,
      )
      (Returns-bind perform (seek walk key (m.cached head).next) (contains_at key) m
        (seek-StopAt walk m int_min cs key is.here.seg is.here.up is.here.end fuel (omega arith))
        λ x m' (same, stop). rw same (looked key is above small x stop))
