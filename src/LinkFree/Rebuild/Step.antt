-- ===== src/LinkFree/Rebuild/Step.antt =====
-- The body of the inner loop of `recover` of LinkFree/LinkFreeList.h, in its three cases.
use efficient_lock_free_dura.Common.{
  ℕ, suc, ◌<◌, ◌≡◌, fun_ext, refl, Bool, true, false, not, List, length, ◌==◌, ◌&&◌, ◌||◌,
  if◌then◌else◌, Bool-cases, inl, inr, arith,
}
use efficient_lock_free_dura.Common.Prog.{Returns, returns, run-bind, done, atomic}
use efficient_lock_free_dura.LinkFree.Memory.{
  Ptr, nullptr, Node, Memory, is_wild, write, with_node, exec, perform, load,
}
use efficient_lock_free_dura.LinkFree.Utilities.{is_valid, make_valid, is_marked, mark}
use efficient_lock_free_dura.LinkFree.Recovery.{recover_node}
use efficient_lock_free_dura.LinkFree.Commands.{discarded, discard_lem}
use efficient_lock_free_dura.LinkFree.Shape.{Cell, persisted, write_ne}
use efficient_lock_free_dura.LinkFree.Upkeep.{
  Upkeep, Upkeep-refl, Upkeep-trans, link-Upkeep, after_make_valid-Upkeep,
}
use efficient_lock_free_dura.LinkFree.Find.Step.{At}
use efficient_lock_free_dura.LinkFree.Invariant.{head_cell}
use efficient_lock_free_dura.LinkFree.Rebuild.Search.{Unmarked}
use efficient_lock_free_dura.LinkFree.Shape.{kept}
use efficient_lock_free_dura.LinkFree.Rebuild.Ready.{IsReady, Stepped, At-write}
use efficient_lock_free_dura.LinkFree.Rebuild.Link.{quick_insert-Stepped}

abbrev blank : Node → Bool
blank n = n.next == nullptr && is_valid n.meta_data

-- What `discard` leaves of a node.
abbrev thrown : Node → Node
thrown n = record n {
  meta_data = if is_valid n.meta_data then n.meta_data else make_valid n.meta_data;
  next = mark nullptr;
}

discarded_cached :
    (m : Memory) (p : Ptr) → (discarded m p).cached ≡ write m.cached p (thrown (m.cached p))
unfolding write
discarded_cached m p = fun_ext λ x. ground arith

discarded-At :
    (m : Memory) {head tail : Ptr} {cs : List Cell} (p : Ptr)
    → At m.cached tail (head_cell head) (m.cached head).next cs
    → IsReady m.cached head tail cs p
    → At (discarded m p).cached tail (head_cell head) ((discarded m p).cached head).next cs
discarded-At m {head} p here ready =
    let n = thrown (m.cached p) in
    rw (discarded_cached m p, write_ne m.cached p n head ready.outside.0)
      (At-write p n ready.ne_tail ready.outside here)

discarded-Upkeep : (m : Memory) (p : Ptr) → Upkeep m (discarded m p)
discarded-Upkeep m p =
    let cut = with_node m p (record (m.cached p) { next = mark nullptr }) in
    let up = Upkeep-trans (link-Upkeep m p (mark nullptr)) (after_make_valid-Upkeep cut p) in
    record { clean = up.clean; valid = up.valid }

load_lem :
    (m : Memory) (p : Ptr) → is_wild p ≡ false → exec (atomic (load p)) m ≡ done (m.cached p) m
unfolding perform
load_lem m p sound = ground arith

module _ {m : Memory} {head tail : Ptr} {cs : List Cell} {p : Ptr}
    (here : At m.cached tail (head_cell head) (m.cached head).next cs) (unmarked : Unmarked cs)
    (ready : IsReady m.cached head tail cs p) where
  skipped : blank (m.cached p) ≡ true → Stepped m head tail cs p tt m
  skipped skip =
      let out : kept (m.cached p) ≡ false = ground arith in
      record {
        here = rw out here;
        unmarked = rw out unmarked;
        content = λ x. refl;
        settled = λ x s. s;
        outside = λ x ne o. refl;
        freed = rw skip refl;
        pool = refl;
        upkeep = Upkeep-refl m;
      }

  discarded-Stepped :
      blank (m.cached p) ≡ false
      → kept (m.cached p) ≡ false
      → Stepped m head tail cs p tt (discarded m p)
  unfolding write persisted is_marked mark
  discarded-Stepped full out = record {
    here = rw out (discarded-At m p here ready);
    unmarked = rw out unmarked;
    content = λ x. ground arith;
    settled = λ x s. ground arith;
    outside = λ x ne o. ground arith;
    freed = ground arith;
    pool = ground arith;
    upkeep = discarded-Upkeep m p;
  }

pub recover_node-Stepped :
    {m : Memory} {head tail : Ptr} {cs : List Cell} {p : Ptr} (rounds walk : ℕ)
    → At m.cached tail (head_cell head) (m.cached head).next cs
    → Unmarked cs
    → IsReady m.cached head tail cs p
    → length cs < walk
    → Returns (Stepped m head tail cs p) (exec (recover_node (suc rounds) walk head p) m)
unfolding recover_node
recover_node-Stepped {m} {head} {tail} {cs} {p} rounds walk here unmarked ready fuel =
    rw (run-bind perform (atomic (load p)) _ m, load_lem m p ready.sound)
      (elim (Bool-cases (blank (m.cached p))) [
        | inl skip ↦ rw skip (returns (skipped {m = m} here unmarked ready skip))
        | inr full ↦ elim (Bool-cases (kept (m.cached p))) [
          | inl keep ↦
              let valid : (not (is_valid (m.cached p).meta_data) || is_marked (m.cached p).next)
                  ≡ false =
                ground arith in
              rw (full, valid) (quick_insert-Stepped rounds walk here unmarked ready keep fuel)
          | inr out ↦
              let broken : (not (is_valid (m.cached p).meta_data) || is_marked (m.cached p).next)
                  ≡ true =
                ground arith in
              rw (full, broken, discard_lem m p ready.sound)
                (returns (discarded-Stepped here unmarked ready full out))
        ]
      ])
