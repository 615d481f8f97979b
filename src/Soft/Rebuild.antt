-- ===== src/Soft/Rebuild.antt =====
-- `recovery` of SOFT/SOFTList.h, run by one thread.
pub mod Search
pub mod Link
pub mod Step
pub mod Objects
pub mod Waiting
use efficient_lock_free_dura.Common.{
  ℕ, suc, ◌+◌, ◌<◌, ◌≤◌, ◌≡◌, ◌≢◌, ◌∙◌, sym, ap, refl, Bool, true, false, none, some, List, [], ◌∷◌,
  All, Distinct, member, length, ◌==◌, ◌&&◌, ◌||◌, ==_iff, Bool-cases, inl, inr, arith,
}
use efficient_lock_free_dura.Common.Prog.{Returns, returns, Returns-bind, Returns-mono}
use efficient_lock_free_dura.Common.Objects.{objects}
use efficient_lock_free_dura.Soft.Memory.{Ptr, Key, PNode, Memory, exec, perform}
use efficient_lock_free_dura.Soft.PersistentNode.{is_valid, is_deleted}
use efficient_lock_free_dura.Soft.PersistentNode.Lifecycle.{recovered, repaired}
use efficient_lock_free_dura.Soft.Recovery.{recover_node, recovery}
use efficient_lock_free_dura.Soft.Shape.{Cell, has, lists, At}
use efficient_lock_free_dura.Soft.Invariant.{IsList, IsSpare, head_cell}
use efficient_lock_free_dura.Soft.Insert.Place.{none-some, some_key}
use efficient_lock_free_dura.Soft.Rebuild.Step.{
  is_key, broken, Building, IsReady, Stepped, recover_node-Stepped,
}
use efficient_lock_free_dura.Soft.Rebuild.Objects.{each_node, recovery-each}
use efficient_lock_free_dura.Soft.Rebuild.Waiting.{
  Image, carries, step-Image, step-same, carries-same,
}

-- What the loop leaves after the objects.
record Looped (m : Memory) (head tail : Ptr) (cs : List Cell) (ps : List Ptr) (answer : Unit {0})
    (m' : Memory) : Type 0 where
  cells : List Cell
  building : Building head tail cells m'
  keys : (k : Key) → has k cells ≡ (carries m ps k || has k cs)
  listed :
      (x : Ptr) (k : Key)
      → lists x k cells ≡ ((member x ps && is_key (recovered (m.cached x)) k) || lists x k cs)
  content : (x : Ptr) → recovered (m'.cached x) ≡ recovered (m.cached x)
  durable : m'.durable ≡ m.durable
  pnode_pool : m'.pnode_pool ≡ m.pnode_pool
  longer : length cells ≤ length ps + length cs
  room : length m.node_pool ≤ length ps + length m'.node_pool

each-Looped :
    (rounds walk : ℕ) {head tail : Ptr} (ps : List Ptr) {m : Memory} {cs : List Cell}
    → Building head tail cs m
    → Image m cs ps
    → length ps ≤ length m.node_pool
    → length cs + length ps < walk
    → Returns (Looped m head tail cs ps) (exec (each_node (suc rounds) walk head ps) m)
each-Looped rounds walk [] {cs} b image room fuel = returns (record {
  cells = cs;
  building = b;
  keys = λ k. refl;
  listed = λ x k. refl;
  content = λ x. refl;
  durable = refl;
  pnode_pool = refl;
  longer = omega arith;
  room = omega arith;
})
each-Looped rounds walk {head} {tail} (p ∷ ps) {m} {cs} b (ready, (aparts, image)) room fuel =
    Returns-bind perform (recover_node (suc rounds) walk head p) _ m
      (recover_node-Stepped rounds walk b ready (omega arith) (omega arith))
      λ u m' s.
        Returns-mono
          (each-Looped rounds walk ps s.building (step-Image s ps aparts image)
            (omega (arith, s.room)) (omega (arith, s.longer)))
          λ u' m'' l. record {
            cells = l.cells;
            building = l.building;
            keys = λ k.
                l.keys k ∙ ground (arith, s.keys k, carries-same m m' k ps (step-same s ps aparts));
            listed = λ x k. l.listed x k ∙ rw (s.content x, s.listed x k) (ground arith);
            content = λ x. l.content x ∙ s.content x;
            durable = l.durable ∙ s.durable;
            pnode_pool = l.pnode_pool ∙ s.pnode_pool;
            longer = omega (arith, l.longer, s.longer);
            room = omega (arith, l.room, s.room);
          }

-- The list after recovery: its cells are those of the persistent nodes that the crash left.
pub record Recovered (m : Memory) (head tail : Ptr) (ps : List Ptr) (answer : Unit {0})
    (m' : Memory) : Type 0 where
  pub cells : List Cell
  pub list : IsList m' head tail cells
  pub keys : (k : Key) → has k cells ≡ carries m ps k
  pub within : (x : Ptr) (k : Key) → lists x k cells ≡ true → member x ps ≡ true
  pub spares : All (IsSpare head tail cells) m'.node_pool
  pub distinct : Distinct m'.node_pool
  pub pnode_pool : m'.pnode_pool ≡ m.pnode_pool
  pub longer : length cells ≤ length ps
  pub room : length m.node_pool ≤ length ps + length m'.node_pool

is_key-some :
    (n : PNode) (k : Key) (v : ℕ) → recovered n ≡ some (k, v) → is_key (recovered n) k ≡ true
is_key-some n k v e = rw e ((==_iff k k).1 refl)

pub recovered_kept :
    (n : PNode) (k : Key) (v : ℕ) → recovered n ≡ some (k, v) → (broken n ≡ false) × (n.key ≡ k)
recovered_kept n k v e = elim (Bool-cases (broken n)) [
  | inl out ↦ absurd (none-some (sym (gone out) ∙ e))
  | inr keep ↦ (keep, some_key (sym (carried keep) ∙ e))
]
  where
    gone : broken n ≡ true → recovered n ≡ none
    gone out = ground arith

    carried : broken n ≡ false → recovered n ≡ some (n.key, n.value)
    carried keep = ground arith

-- After a crash, `recovery` of the SOFT list returns, with no `assert` failed and no fault. The
-- list is in order and has exactly the keys of the persistent nodes that are valid and not
-- deleted, each in a new volatile node. The conditions: recovery runs alone; the list is empty;
-- the objects of the chunks are at different sound addresses; NVRAM agrees with the caches on what
-- recovery makes of each object; each object that carries a key lies in a chunk, and each other
-- object is ready for `alloc` once its start bit is set; the objects that carry a key have
-- different keys, strictly between those of the sentinels; the allocator has a spare node for each
-- object; and the fuel of the walk exceeds the number of objects.
pub soft_recovery-Recovered :
    {m : Memory} {head tail : Ptr} (rounds walk size count : ℕ) (chunks : List Ptr)
    → At m.nodes tail (head_cell head) (m.nodes head).next []
    → All (IsSpare head tail []) m.node_pool
    → Distinct m.node_pool
    → ((x : Ptr) → recovered (m.durable x) ≡ recovered (m.cached x))
    → ((x : Ptr) → recovered (m.durable x) ≡ none → is_deleted (repaired (m.durable x)) ≡ true)
    → ((x : Ptr) → broken (m.cached x) ≡ false → member x (objects size count chunks) ≡ true)
    → Image m [] (objects size count chunks)
    → length (objects size count chunks) ≤ length m.node_pool
    → length (objects size count chunks) < walk
    → Returns
        (Recovered m head tail (objects size count chunks))
        (exec (recovery (suc rounds) walk head size count chunks) m)
soft_recovery-Recovered {m} {head} {tail} rounds walk size count chunks here spares distinct settled
      tidy covered image room fuel =
    let ps = objects size count chunks in
    rw (recovery-each (suc rounds) walk head size count chunks) (
      Returns-mono
        (each-Looped rounds walk ps
          (record { here = here; written = tt; spares = spares; distinct = distinct }) image room
          (omega arith))
        λ u m' l. record {
          cells = l.cells;
          list = record {
            here = l.building.here;
            written = l.building.written;
            tidy = rw l.durable tidy;
            settled = λ x. rw l.durable (settled x ∙ sym (l.content x));
            owned = λ x k v e.
                let old = sym (l.content x) ∙ e in
                l.listed x k
                ∙ ground (
                  arith,
                  is_key-some (m.cached x) k v old,
                  covered x,
                  (recovered_kept (m.cached x) k v old).0,
                );
          };
          keys = λ k. l.keys k ∙ ground arith;
          within = λ x k h. ground (arith, l.listed x k);
          spares = l.building.spares;
          distinct = l.building.distinct;
          pnode_pool = l.pnode_pool;
          longer = omega (arith, l.longer);
          room = l.room;
        })
