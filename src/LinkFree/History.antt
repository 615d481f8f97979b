-- ===== src/LinkFree/History.antt =====
-- The link-free list as a set: it serves any sequence of calls of LinkFree/LinkFreeList.h by one thread.
pub mod State
pub mod Calls
pub mod Image
pub mod Crash
pub mod Start
use efficient_lock_free_dura.Common.{
  ℕ, zero, suc, ◌+◌, ◌<◌, ◌≤◌, ◌≡◌, ◌∙◌, sym, ap, subst, fun_ext, refl, Bool, true, false, not,
  List, [], ◌∷◌, All, length, ◌==◌, if◌then◌else◌, ==_iff, Bool-cases, inl, inr, arith,
}
use efficient_lock_free_dura.Common.Prog.{Returns, Returns-mono}
use efficient_lock_free_dura.SetSpec.{
  Call, to_insert, to_remove, to_look_up, call_key, Keys, answer_of, set_after, answers, final_set,
  run_calls, Implements, history,
}
use efficient_lock_free_dura.LinkFree.Memory.{Ptr, Key, Memory, Cmd, exec, perform}
use efficient_lock_free_dura.LinkFree.List.{insert, remove, contains, int_min, int_max}
use efficient_lock_free_dura.LinkFree.Shape.{Cell, has}
use efficient_lock_free_dura.LinkFree.Cells.{
  lists-sweep, remove_cell, has-insert_cell, has-remove_cell, length-insert_cell, Ascends-sweep,
}
use efficient_lock_free_dura.LinkFree.Find.Walk.{sweep, has-sweep}
use efficient_lock_free_dura.LinkFree.Insert.{Inserted, insert-Inserted}
use efficient_lock_free_dura.LinkFree.Insert.Link.{new_cell, Outside-sweep}
use efficient_lock_free_dura.LinkFree.Remove.{Removed, remove-Removed}
use efficient_lock_free_dura.LinkFree.Contains.{Looked, contains-Looked}
use efficient_lock_free_dura.LinkFree.History.State.{
  Usable, Outside-remove_cell, lists-removed, length-sweep, length-remove_cell,
}
use efficient_lock_free_dura.LinkFree.History.Calls.{grown, shrink-Usable, grow-Usable}

-- A call on the list at `head`, with the fuel of its loops.
abbrev pub run_call : (rounds walk : ℕ) → Ptr → Call → Cmd Bool
run_call rounds walk head (to_insert key value) = insert rounds walk head key value
run_call rounds walk head (to_remove key) = remove rounds walk head key
run_call rounds walk head (to_look_up key) = contains walk head key

abbrev pub keys_of : List Cell → Keys
keys_of cs k = has k cs

-- The key lies strictly between those of the sentinels.
abbrev pub InRange : Call → Type 0
InRange c = (int_min < call_key c) × (call_key c < int_max)

-- In `m` the list holds the keys `s`, and has fuel and objects for `budget` calls.
pub record Serving (objs : List Ptr) (head tail : Ptr) (walk : ℕ) (s : Keys) (budget : ℕ)
    (m : Memory) : Type 0 where
  pub cells : List Cell
  pub usable : Usable objs head tail cells m
  pub keys : keys_of cells ≡ s
  pub fuel : length cells + budget < walk
  pub room : budget ≤ length m.pool

-- What a call with an answer leaves.
abbrev Served :
    (objs : List Ptr) (head tail : Ptr) (walk : ℕ) (c : Call) (s : Keys) (budget : ℕ)
    → Bool
    → Memory
    → Type 0
Served objs head tail walk c s budget b m' =
    (b ≡ answer_of c s) × Serving objs head tail walk (set_after c s) budget m'

module _ {objs : List Ptr} {head tail : Ptr} {walk : ℕ} {s : Keys} {budget : ℕ} {m : Memory}
    (v : Serving objs head tail walk s (suc budget) m) where
  abbrev cs : List Cell
  cs = v.cells

  at_key : (key : Key) → has key cs ≡ s key
  at_key key = ap (λ f. f key) v.keys

  inserted :
      (key value : ℕ) {p : Ptr} {rest : List Ptr}
      → m.pool ≡ p ∷ rest
      → (added : Bool) (m' : Memory) → Inserted m head tail cs key p rest added m'
      → Served objs head tail walk (to_insert key value) s budget added m'
  inserted key value {p} {rest} pool true m' i = (
    i.answer ∙ ap not (at_key key),
    record {
      cells = grown key p cs;
      usable = grow-Usable key v.usable pool i.list i.upkeep i.pool;
      keys = fun_ext λ j.
          has-insert_cell j (new_cell p key) (sweep key cs) refl
          ∙ ap (λ b. if key == j then true else b) (has-sweep j key cs ∙ at_key j);
      fuel =
          omega (
            arith,
            v.fuel,
            length-insert_cell (new_cell p key) (sweep key cs),
            length-sweep key cs,
          );
      room = omega (arith, v.room, ap length pool, ap length i.pool);
    },
  )
  inserted key value pool false m' i = (
    i.answer ∙ ap not (at_key key),
    record {
      cells = sweep key cs;
      usable =
          shrink-Usable v.usable i.list i.upkeep i.pool (λ x k l. sym (lists-sweep x k key cs) ∙ l)
            λ q out. Outside-sweep q key cs out;
      keys = fun_ext λ j. ground (arith, has-sweep j key cs, at_key j, at_key key, i.answer);
      fuel = omega (arith, v.fuel, length-sweep key cs);
      room = omega (arith, v.room, ap length i.pool);
    },
  )

  removed :
      (key : ℕ) (gone : Bool) (m' : Memory)
      → Removed m head tail cs key gone m'
      → Served objs head tail walk (to_remove key) s budget gone m'
  removed key true m' r = (
    r.answer ∙ at_key key,
    record {
      cells = remove_cell key (sweep key cs);
      usable =
          shrink-Usable v.usable r.list r.upkeep r.pool
            (λ x k l. sym (lists-sweep x k key cs) ∙ lists-removed x k key (sweep key cs) l)
            λ q out. Outside-remove_cell q key (sweep key cs) (Outside-sweep q key cs out);
      keys = fun_ext λ j.
          has-remove_cell j key int_min (sweep key cs)
            (Ascends-sweep int_min key cs v.usable.list.here.up)
          ∙ ap (λ b. if key == j then false else b) (has-sweep j key cs ∙ at_key j);
      fuel = omega (arith, v.fuel, length-remove_cell key (sweep key cs), length-sweep key cs);
      room = omega (arith, v.room, ap length r.pool);
    },
  )
  removed key false m' r = (
    r.answer ∙ at_key key,
    record {
      cells = sweep key cs;
      usable =
          shrink-Usable v.usable r.list r.upkeep r.pool (λ x k l. sym (lists-sweep x k key cs) ∙ l)
            λ q out. Outside-sweep q key cs out;
      keys = fun_ext λ j. ground (arith, has-sweep j key cs, at_key j, at_key key, r.answer);
      fuel = omega (arith, v.fuel, length-sweep key cs);
      room = omega (arith, v.room, ap length r.pool);
    },
  )

  looked :
      (key : ℕ) (found : Bool) (m' : Memory)
      → Looked m head tail cs key found m'
      → Served objs head tail walk (to_look_up key) s budget found m'
  looked key found m' l = (
    l.answer_eq ∙ at_key key,
    record {
      cells = cs;
      usable = shrink-Usable v.usable l.list l.upkeep l.pool (λ x k h. h) λ q out. out;
      keys = v.keys;
      fuel = omega (arith, v.fuel);
      room = omega (arith, v.room, ap length l.pool);
    },
  )

  serve :
      (rounds : ℕ) (c : Call)
      → InRange c
      → Returns (Served objs head tail walk c s budget) (exec (run_call (suc rounds) walk head c) m)
  serve rounds (to_insert key value) (above, small) = go m.pool refl
    where
      go :
          (ps : List Ptr)
          → m.pool ≡ ps
          → Returns
              (Served objs head tail walk (to_insert key value) s budget)
              (exec (insert (suc rounds) walk head key value) m)
      go [] e = absurd (omega (arith, v.room, ap length e))
      go (p ∷ rest) e =
          Returns-mono
            (insert-Inserted rounds walk key value v.usable.list e (rw e at v.usable.spares).0
              (omega (arith, v.fuel)) above small)
            λ added m' i. inserted key value e added m' i
  serve rounds (to_remove key) (above, small) =
      Returns-mono
        (remove-Removed rounds walk key v.usable.list (omega (arith, v.fuel)) above small)
        λ gone m' r. removed key gone m' r
  serve rounds (to_look_up key) (above, small) =
      Returns-mono (contains-Looked walk key v.usable.list (omega (arith, v.fuel)) above small)
        λ found m' l. looked key found m' l

-- The link-free list fills the interface of a set.
pub implements :
    (objs : List Ptr) (head tail : Ptr) (rounds walk : ℕ)
    → Implements perform (run_call (suc rounds) walk head) (Serving objs head tail walk) InRange
implements objs head tail rounds walk = record {
  serves = λ c s budget m range v. serve v rounds c range;
}

-- Any sequence of calls of the link-free list by one thread returns, without a fault, and answers
-- as a mathematical set does; the list is ready for calls again and holds exactly the keys of that
-- set. The conditions: the list was ready and held the keys of the set, the fuel of the walks
-- exceeds the number of its nodes and of the calls together, the allocator has a spare object for
-- each call, and the keys of the calls lie strictly between those of the sentinels.
pub history-Refines :
    {objs : List Ptr} {head tail : Ptr} {s : Keys} {m : Memory} (rounds walk : ℕ)
    (calls : List Call)
    → All InRange calls
    → Serving objs head tail walk s (length calls) m
    → Returns
        (λ bs m'. (bs ≡ answers s calls) × Serving objs head tail walk (final_set s calls) 0 m')
        (exec (run_calls perform (run_call (suc rounds) walk head) calls) m)
history-Refines {objs} {head} {tail} {s} {m} rounds walk calls range v =
    history perform (run_call (suc rounds) walk head) (implements objs head tail rounds walk) calls
      s m range v
