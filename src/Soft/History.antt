-- ===== src/Soft/History.antt =====
-- The SOFT list as a set: it serves any sequence of calls of SOFT/SOFTList.h by one thread.
pub mod State
pub mod Crash
pub mod Start
use efficient_lock_free_dura.Common.{
  ℕ, suc, ◌+◌, ◌<◌, ◌≤◌, ◌≡◌, ◌∙◌, sym, ap, fun_ext, refl, Bool, true, false, not, List, [], ◌∷◌,
  All, length, ◌==◌, if◌then◌else◌, ==_iff, Bool-cases, inl, inr, arith,
}
use efficient_lock_free_dura.Common.Prog.{Returns, Returns-mono}
use efficient_lock_free_dura.SetSpec.{
  Call, to_insert, to_remove, to_look_up, call_key, Keys, answer_of, set_after, answers, final_set,
  run_calls, Implements, history,
}
use efficient_lock_free_dura.Soft.Memory.{Ptr, Key, Memory, Cmd, exec, perform}
use efficient_lock_free_dura.Soft.List.{insert, remove, contains, int_min, int_max}
use efficient_lock_free_dura.Soft.Shape.{Cell, has}
use efficient_lock_free_dura.Soft.Cells.{
  insert_cell, remove_cell, has-insert_cell, has-remove_cell, length-insert_cell,
  length-remove_cell,
}
use efficient_lock_free_dura.Soft.Insert.{Inserted, soft_insert-Inserted}
use efficient_lock_free_dura.Soft.Insert.Chain.{new_cell}
use efficient_lock_free_dura.Soft.Remove.{Removed, soft_remove-Removed}
use efficient_lock_free_dura.Soft.Contains.{soft_contains_answers}
use efficient_lock_free_dura.Soft.History.State.{Usable, grow-Usable, shrink-Usable}

-- A call on the list at `head`, with the fuel of its loops.
abbrev pub run_call : (rounds walk fuel : ℕ) → Ptr → Call → Cmd Bool
run_call rounds walk fuel head (to_insert key value) = insert rounds walk fuel head key value
run_call rounds walk fuel head (to_remove key) = remove walk fuel head key
run_call rounds walk fuel head (to_look_up key) = contains walk head key

abbrev pub keys_of : List Cell → Keys
keys_of cs k = has k cs

-- The key lies strictly between those of the sentinels.
abbrev pub InRange : Call → Type 0
InRange c = (int_min < call_key c) × (call_key c < int_max)

-- In `m` the list holds the keys `s`, and has fuel and objects for `budget` calls.
pub record Serving (objs : List Ptr) (head tail : Ptr) (walk : ℕ) (s : Keys) (budget : ℕ)
    (m : Memory) : Type 0 where
  pub cells : List Cell
  pub usable : Usable objs head tail cells m
  pub keys : keys_of cells ≡ s
  pub fuel : length cells + budget < walk
  pub room : budget ≤ length m.node_pool
  pub pnode_room : budget ≤ length m.pnode_pool

-- What a call with an answer leaves.
abbrev Served : List Ptr → (head tail : Ptr) → ℕ → Call → Keys → ℕ → Bool → Memory → Type 0
Served objs head tail walk c s budget b m' =
    (b ≡ answer_of c s) × Serving objs head tail walk (set_after c s) budget m'

module _ {objs : List Ptr} {head tail : Ptr} {walk : ℕ} {s : Keys} {budget : ℕ} {m : Memory}
    (v : Serving objs head tail walk s (suc budget) m) where
  abbrev cs : List Cell
  cs = v.cells

  at_key : (key : Key) → has key cs ≡ s key
  at_key key = ap (λ f. f key) v.keys

  inserted :
      (key value : ℕ) {n pn : Ptr} {nrest prest : List Ptr}
      → m.node_pool ≡ n ∷ nrest
      → m.pnode_pool ≡ pn ∷ prest
      → (added : Bool) (m' : Memory) → Inserted m head tail cs key value n pn nrest prest added m'
      → Served objs head tail walk (to_insert key value) s budget added m'
  inserted key value {n} {pn} pool ppool true m' i = (
    i.answer ∙ ap not (at_key key),
    record {
      cells = insert_cell (new_cell n key pn) cs;
      usable = grow-Usable key v.usable pool ppool i.list i.node_pool i.pnode_pool i.free;
      keys = fun_ext λ j.
          has-insert_cell j (new_cell n key pn) cs
          ∙ ap (λ b. if key == j then true else b) (at_key j);
      fuel = omega (arith, v.fuel, length-insert_cell (new_cell n key pn) cs);
      room = omega (arith, v.room, ap length pool, ap length i.node_pool);
      pnode_room = omega (arith, v.pnode_room, ap length ppool, ap length i.pnode_pool);
    },
  )
  inserted key value pool ppool false m' i = (
    i.answer ∙ ap not (at_key key),
    rw i.stored (record {
      cells = cs;
      usable = v.usable;
      keys = fun_ext λ j. ground (arith, at_key j, at_key key, i.answer);
      fuel = omega (arith, v.fuel);
      room = omega (arith, v.room);
      pnode_room = omega (arith, v.pnode_room);
    }),
  )

  removed :
      (key : ℕ) (gone : Bool) (m' : Memory)
      → Removed m head tail cs key gone m'
      → Served objs head tail walk (to_remove key) s budget gone m'
  removed key true m' r = (
    r.answer ∙ at_key key,
    record {
      cells = remove_cell key cs;
      usable = shrink-Usable key v.usable r.list r.node_pool r.pnode_pool r.free;
      keys = fun_ext λ j.
          has-remove_cell j key int_min cs v.usable.list.here.up
          ∙ ap (λ b. if key == j then false else b) (at_key j);
      fuel = omega (arith, v.fuel, length-remove_cell key cs);
      room = omega (arith, v.room, ap length r.node_pool);
      pnode_room = omega (arith, v.pnode_room, ap length r.pnode_pool);
    },
  )
  removed key false m' r = (
    r.answer ∙ at_key key,
    rw r.freed (record {
      cells = cs;
      usable = v.usable;
      keys = fun_ext λ j. ground (arith, at_key j, at_key key, r.answer);
      fuel = omega (arith, v.fuel);
      room = omega (arith, v.room);
      pnode_room = omega (arith, v.pnode_room);
    }),
  )

  looked :
      (key : ℕ) (found : Bool) (m' : Memory)
      → (found ≡ has key cs) × (m' ≡ m)
      → Served objs head tail walk (to_look_up key) s budget found m'
  looked key found m' (answer, same) = (
    answer ∙ at_key key,
    rw same (record {
      cells = cs;
      usable = v.usable;
      keys = v.keys;
      fuel = omega (arith, v.fuel);
      room = omega (arith, v.room);
      pnode_room = omega (arith, v.pnode_room);
    }),
  )

  serve :
      (rounds fuel : ℕ) (c : Call)
      → InRange c
      → Returns
          (Served objs head tail walk c s budget)
          (exec (run_call (suc rounds) walk (suc (suc fuel)) head c) m)
  serve rounds fuel (to_insert key value) (above, small) = go m.node_pool m.pnode_pool refl refl
    where
      go :
          (ps qs : List Ptr)
          → m.node_pool ≡ ps
          → m.pnode_pool ≡ qs
          → Returns
              (Served objs head tail walk (to_insert key value) s budget)
              (exec (insert (suc rounds) walk (suc (suc fuel)) head key value) m)
      go [] qs e d = absurd (omega (arith, v.room, ap length e))
      go (n ∷ nrest) [] e d = absurd (omega (arith, v.pnode_room, ap length d))
      go (n ∷ nrest) (pn ∷ prest) e d =
          Returns-mono
            (soft_insert-Inserted rounds walk fuel key value v.usable.list e d
              (rw e at v.usable.spares).0 (rw d at v.usable.frees).0 (omega (arith, v.fuel)) above
              small)
            λ added m' i. inserted key value e d added m' i
  serve rounds fuel (to_remove key) (above, small) =
      Returns-mono
        (soft_remove-Removed walk fuel key v.usable.list (omega (arith, v.fuel)) above small)
        λ gone m' r. removed key gone m' r
  serve rounds fuel (to_look_up key) (above, small) =
      Returns-mono (soft_contains_answers walk key v.usable.list (omega (arith, v.fuel)) small)
        λ found m' l. looked key found m' l

-- The SOFT list fills the interface of a set.
pub implements :
    (objs : List Ptr) (head tail : Ptr) (rounds walk fuel : ℕ)
    → Implements perform
        (run_call (suc rounds) walk (suc (suc fuel)) head)
        (Serving objs head tail walk)
        InRange
implements objs head tail rounds walk fuel = record {
  serves = λ c s budget m range v. serve v rounds fuel c range;
}

-- Any sequence of calls of the SOFT list by one thread returns, without a fault, and answers as a
-- mathematical set does; the list is ready for calls again and holds exactly the keys of that set.
-- The conditions: the list was ready and held the keys of the set, the fuel of the walks exceeds
-- the number of its nodes and of the calls together, that of the state loops is two at least, the
-- allocators have a spare node and a free persistent node for each call, and the keys of the calls
-- lie strictly between those of the sentinels.
pub soft_history-Refines :
    {objs : List Ptr} {head tail : Ptr} {s : Keys} {m : Memory} (rounds walk fuel : ℕ)
    (calls : List Call)
    → All InRange calls
    → Serving objs head tail walk s (length calls) m
    → Returns
        (λ bs m'. (bs ≡ answers s calls) × Serving objs head tail walk (final_set s calls) 0 m')
        (exec (run_calls perform (run_call (suc rounds) walk (suc (suc fuel)) head) calls) m)
soft_history-Refines {objs} {head} {tail} {s} {m} rounds walk fuel calls range v =
    history perform (run_call (suc rounds) walk (suc (suc fuel)) head)
      (implements objs head tail rounds walk fuel) calls s m range v
