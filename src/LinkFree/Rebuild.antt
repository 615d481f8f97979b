-- ===== src/LinkFree/Rebuild.antt =====
-- `recover` of LinkFree/LinkFreeList.h, run by one thread.
pub mod Search
pub mod Ready
pub mod Link
pub mod Step
pub mod Objects
pub mod Waiting
pub mod Cells
use efficient_lock_free_dura.Common.{
  member, ℕ, suc, ◌+◌, ◌<◌, ◌≡◌, ◌≢◌, ◌∙◌, sym, ap, subst, refl, Bool, true, false, some, some-eq,
  List, [], ◌∷◌, All, length, if◌then◌else◌, arith,
}
use efficient_lock_free_dura.Common.Prog.{Returns, returns, Returns-bind, Returns-mono}
use efficient_lock_free_dura.LinkFree.Memory.{Ptr, Key, Node, Memory, exec, perform}
use efficient_lock_free_dura.LinkFree.Recovery.{recover_node, recover}
use efficient_lock_free_dura.LinkFree.Shape.{Cell, has, persisted}
use efficient_lock_free_dura.LinkFree.Cells.{lists}
use efficient_lock_free_dura.LinkFree.Find.Step.{At}
use efficient_lock_free_dura.LinkFree.Find.Quiet.{Settled}
use efficient_lock_free_dura.LinkFree.Invariant.{IsList, head_cell}
use efficient_lock_free_dura.LinkFree.Rebuild.Search.{Unmarked}
use efficient_lock_free_dura.LinkFree.Shape.{kept}
use efficient_lock_free_dura.LinkFree.Upkeep.{Upkeep, Upkeep-refl, Upkeep-trans}
use efficient_lock_free_dura.LinkFree.Rebuild.Ready.{add_cell, Stepped}
use efficient_lock_free_dura.LinkFree.Rebuild.Step.{recover_node-Stepped}
use efficient_lock_free_dura.Common.Objects.{objects}
use efficient_lock_free_dura.LinkFree.Rebuild.Objects.{each_node, recover-each}
use efficient_lock_free_dura.LinkFree.Rebuild.Waiting.{Image, step-Image, step-same}
use efficient_lock_free_dura.LinkFree.Rebuild.Cells.{
  add_cells, add_all_freed, carries, add_cells-same, add_all_freed-same, length-add_cell,
  has-add_cells, lists-add_cells,
}

-- What the loop leaves after the objects.
record Looped (m : Memory) (head tail : Ptr) (cs : List Cell) (ps : List Ptr) (answer : Unit {0})
    (m' : Memory) : Type 0 where
  here : At m'.cached tail (head_cell head) (m'.cached head).next (add_cells m.cached ps cs)
  content : (x : Ptr) → persisted (m'.cached x) ≡ persisted (m.cached x)
  settled : (x : Ptr) → Settled m x → Settled m' x
  freed : m'.freed ≡ add_all_freed m.cached ps m.freed
  pool : m'.pool ≡ m.pool
  upkeep : Upkeep m m'

each-Looped :
    (rounds walk : ℕ) {head tail : Ptr} (ps : List Ptr) {m : Memory} {cs : List Cell}
    → At m.cached tail (head_cell head) (m.cached head).next cs
    → Unmarked cs
    → Image m.cached head tail cs ps
    → length cs + length ps < walk
    → Returns (Looped m head tail cs ps) (exec (each_node (suc rounds) walk head ps) m)
each-Looped rounds walk [] {m} here unmarked image fuel = returns (record {
  here = here;
  content = λ x. refl;
  settled = λ x s. s;
  freed = refl;
  pool = refl;
  upkeep = Upkeep-refl m;
})
each-Looped rounds walk {head} {tail} (p ∷ ps) {m} {cs} here unmarked (ready, (aparts, image))
      fuel =
    Returns-bind perform (recover_node (suc rounds) walk head p) _ m
      (recover_node-Stepped rounds walk here unmarked ready (omega arith))
      λ u m' s.
        let same = step-same s ps aparts image in
        let rest =
          each-Looped rounds walk ps s.here s.unmarked (step-Image s ps aparts image)
            (omega (arith, length-add_cell m.cached p cs)) in
        Returns-mono rest λ u' m'' l. record {
          here =
              rw (sym (add_cells-same m.cached m'.cached ps (add_cell m.cached p cs) same)) l.here;
          content = λ x. l.content x ∙ s.content x;
          settled = λ x old. l.settled x (s.settled x old);
          freed =
              l.freed
              ∙ ap (add_all_freed m'.cached ps) s.freed
              ∙ add_all_freed-same m.cached m'.cached ps _ same;
          pool = l.pool ∙ s.pool;
          upkeep = Upkeep-trans s.upkeep l.upkeep;
        }

-- The list after recovery: its cells are those of the objects that carry a key in NVRAM.
pub record Recovered (m : Memory) (head tail : Ptr) (ps : List Ptr) (answer : Unit {0})
    (m' : Memory) : Type 0 where
  pub list : IsList m' head tail (add_cells m.cached ps [])
  pub keys : (k : Key) → has k (add_cells m.cached ps []) ≡ carries m.cached ps k
  pub freed : m'.freed ≡ add_all_freed m.cached ps m.freed
  pub content : (x : Ptr) → persisted (m'.cached x) ≡ persisted (m.cached x)
  pub pool : m'.pool ≡ m.pool
  pub upkeep : Upkeep m m'

persisted_key : (n : Node) (k : Key) → persisted n ≡ some k → (kept n ≡ true) × (n.key ≡ k)
unfolding persisted
persisted_key n k e = (ground arith, ground arith)

-- After a crash, `recover` of the link-free list returns, with no `assert` failed and no fault.
-- The list is in order and has exactly the keys of the objects that are valid, unmarked and
-- linked; the objects that are invalid or marked are freed, each once; what recovery makes of each
-- object is as before, and nothing is allocated; if metadata was a byte everywhere and no object
-- had been flushed with its delete flag set, that stays so, and valid objects stay valid. The
-- conditions: recovery runs alone; the list is empty; NVRAM agrees with the caches on what
-- recovery makes of each object but the head; each object that carries a key lies in a chunk; the
-- objects of the chunks are at different sound addresses, apart from the sentinels; those that
-- carry a key have different keys, strictly between those of the sentinels, and a cleared delete
-- flag; and the fuel of the walk exceeds the number of objects.
pub recover-Recovered :
    {m : Memory} {head tail : Ptr} (rounds walk size count : ℕ) (chunks : List Ptr)
    → At m.cached tail (head_cell head) (m.cached head).next []
    → ((x : Ptr) → x ≢ head → Settled m x)
    → ((x : Ptr)
        → x ≢ head
        → kept (m.cached x) ≡ true
        → member x (objects size count chunks) ≡ true)
    → Image m.cached head tail [] (objects size count chunks)
    → length (objects size count chunks) < walk
    → Returns
        (Recovered m head tail (objects size count chunks))
        (exec (recover (suc rounds) walk head size count chunks) m)
recover-Recovered {m} {head} {tail} rounds walk size count chunks here settled covered image fuel =
    let ps = objects size count chunks in
    rw (recover-each (suc rounds) walk head size count chunks) (
      Returns-mono (each-Looped rounds walk ps here tt image (omega arith)) λ u m' l. record {
        list = record {
          here = l.here;
          settled = λ x ne. l.settled x (settled x ne);
          owned = λ x k ne e.
              let (keep, same) = persisted_key (m.cached x) k (sym (l.content x) ∙ e) in
              subst (λ z. lists x z (add_cells m.cached ps []) ≡ true) same
                (lists-add_cells m.cached x ps [] keep (covered x ne keep));
        };
        keys = λ k. has-add_cells m.cached k ps [] ∙ ground arith;
        freed = l.freed;
        content = l.content;
        pool = l.pool;
        upkeep = l.upkeep;
      })
