-- ===== src/LinkFree/Rebuild/Link.antt =====
-- `quickInsert` of LinkFree/LinkFreeList.h: it links the object in front of the larger keys.
use efficient_lock_free_dura.Common.{
  ℕ, suc, ◌<◌, ◌≡◌, ◌≢◌, ◌∙◌, sym, ap, subst, refl, true, false, some, List, ◌∷◌, length,
  if◌then◌else◌, arith,
}
use efficient_lock_free_dura.Common.Prog.{
  Returns, returns, Returns-bind, run-bind, done, ret, atomic, ◌>>=◌, ◌>>◌,
}
use efficient_lock_free_dura.LinkFree.Memory.{
  Ptr, Node, Memory, Cmd, is_wild, write, with_node, exec, perform, store, cas_next,
}
use efficient_lock_free_dura.LinkFree.Utilities.{is_valid}
use efficient_lock_free_dura.LinkFree.Utilities.Marks.{get_ref_of_unmarked}
use efficient_lock_free_dura.LinkFree.List.{load_next, load_key}
use efficient_lock_free_dura.LinkFree.Recovery.{quick_find, quick_insert, quick_insert_loop}
use efficient_lock_free_dura.LinkFree.Commands.{cas_next_lem, load_key_lem, load_next_lem}
use efficient_lock_free_dura.LinkFree.Shape.{Cell, Outside, persisted, write_ne}
use efficient_lock_free_dura.LinkFree.Find.Step.{At, Seg-sound, clean, not_null}
use efficient_lock_free_dura.LinkFree.Upkeep.{Upkeep, Upkeep-trans}
use efficient_lock_free_dura.LinkFree.Find.Walk.{Searched, Found}
use efficient_lock_free_dura.LinkFree.Invariant.{head_cell}
use efficient_lock_free_dura.LinkFree.Cells.{insert_cell}
use efficient_lock_free_dura.LinkFree.Insert.Link.{linked, new_cell, All-append_left}
use efficient_lock_free_dura.LinkFree.Insert.Place.{place-pred_ne, place-At}
use efficient_lock_free_dura.LinkFree.Rebuild.Search.{Unmarked, quick_find-Searched}
use efficient_lock_free_dura.LinkFree.Shape.{kept}
use efficient_lock_free_dura.LinkFree.Rebuild.Ready.{
  IsReady, Stepped, sweep-Unmarked, swept-Unmarked, Unmarked-insert_cell,
}

abbrev pub relinked : Memory → (p pred curr : Ptr) → Memory
relinked m p pred curr = record m {
  cached = linked m.cached pred p (record (m.cached p) { next = curr });
}

store_lem :
    (m : Memory) (p : Ptr) (set : Node → Node)
    → is_wild p ≡ false
    → perform (store p set) m ≡ some (tt, with_node m p (set (m.cached p)))
unfolding perform
store_lem m p set sound = ground arith

-- The store and the compare-exchange of a round.
relink_lem :
    (m : Memory) (p pred curr : Ptr) (again : Cmd (Unit {0}))
    → is_wild p ≡ false
    → is_wild pred ≡ false
    → pred ≢ p
    → (m.cached pred).next ≡ curr
    → exec
        (atomic (store p λ n. record n { next = curr })
          >> (atomic (cas_next pred curr p) >>= λ won. if won then ret tt else again))
        m
      ≡ done tt (relinked m p pred curr)
relink_lem m p pred curr again sound sound_pred ne at_curr =
    let n = record (m.cached p) { next = curr } in
    let same_next = ap (λ x. x.next) (write_ne m.cached p n pred ne) ∙ at_curr in
    rw
      (
        store_lem m p (λ x. record x { next = curr }) sound,
        cas_next_lem (with_node m p n) pred curr p sound_pred same_next,
      )
      refl

module _ {m m1 : Memory} {head tail : Ptr} {cs : List Cell} {p : Ptr} {found : Ptr × Ptr}
    (here : At m.cached tail (head_cell head) (m.cached head).next cs) (unmarked : Unmarked cs)
    (ready : IsReady m.cached head tail cs p) (keep : kept (m.cached p) ≡ true)
    (s : Searched m tail (m.cached p).key (head_cell head) cs found m1) where
  abbrev f : Found m1 tail (m.cached p).key (head_cell head) cs found.0 found.1
  f = s.found_at

  abbrev n : Node
  n = record (m.cached p) { next = found.1 }

  same : m1.cached p ≡ m.cached p
  same = s.outside p ready.outside

  pub pred_ne : f.r.ptr ≢ p
  pred_ne =
      place-pred_ne n here.up ready.sound ready.ne_tail ready.outside f
        (sweep-Unmarked n.key cs unmarked) (ready.new keep) (ready.above keep) (ready.small keep)

  valid : is_valid n.meta_data ≡ true
  valid = ground arith

  curr_sound : is_wild found.1 ≡ false
  curr_sound = Seg-sound f.here.seg f.here.end.sound

  abbrev m2 : Memory
  m2 = record m1 { cached = linked m1.cached f.r.ptr p n }

  placed :
      At m2.cached tail (head_cell head) (m2.cached head).next (insert_cell (new_cell p n.key) cs)
  placed =
      place-At n here.up ready.sound ready.ne_tail ready.outside f
        (sweep-Unmarked n.key cs unmarked) (ready.new keep) (ready.above keep) (ready.small keep)
        refl (ready.undeleted keep) (λ set. valid) ready.byte

  placed_content : (x : Ptr) → persisted (m2.cached x) ≡ persisted (m1.cached x)
  unfolding write persisted
  placed_content x = ground (
    arith,
    keep,
    same,
    f.here.next,
    not_null found.1 curr_sound,
    clean found.1 curr_sound,
    not_null p ready.sound,
    clean p ready.sound,
  )

  placed-Outside : (x : Ptr) → x ≢ p → Outside x (head_cell head ∷ cs) → m2.cached x ≡ m1.cached x
  placed-Outside x ne out =
      let split = f.split ∙ ap (λ l. head_cell head ∷ l) (sweep-Unmarked n.key cs unmarked) in
      let parts =
        All-append_left (λ c. c.ptr ≢ x) f.fs (f.r ∷ f.bs) (subst (Outside x) (sym split) out) in
      write_ne (write m1.cached p n) f.r.ptr _ x (λ e. parts.1.0 (sym e))
      ∙ write_ne m1.cached p n x ne

  placed-Upkeep : Upkeep m1 m2
  unfolding write
  placed-Upkeep = record {
    clean = λ c x. ground (arith, c x, c p, c f.r.ptr, same);
    valid = λ c x v. ground (arith, same);
  }

  pub linked-Stepped : Stepped m head tail cs p tt m2
  linked-Stepped = record {
    here = rw keep placed;
    unmarked = rw keep (Unmarked-insert_cell (new_cell p n.key) cs refl unmarked);
    content = λ x. placed_content x ∙ s.quiet.content x;
    settled = λ x old. s.quiet.settled x old ∙ sym (placed_content x);
    outside = λ x ne out. placed-Outside x ne out ∙ s.outside x out;
    freed = s.freed ∙ swept-Unmarked n.key cs m.freed unmarked ∙ ground arith;
    pool = s.quiet.pool;
    upkeep = Upkeep-trans s.quiet.upkeep placed-Upkeep;
  }

-- `quickInsert` returns in the first round of its loop.
pub quick_insert-Stepped :
    {m : Memory} {head tail : Ptr} {cs : List Cell} {p : Ptr} (rounds walk : ℕ)
    → At m.cached tail (head_cell head) (m.cached head).next cs
    → Unmarked cs
    → IsReady m.cached head tail cs p
    → kept (m.cached p) ≡ true
    → length cs < walk
    → Returns (Stepped m head tail cs p) (exec (quick_insert (suc rounds) walk head p) m)
unfolding quick_insert quick_insert_loop
quick_insert-Stepped {m} {head} {tail} {cs} {p} rounds walk here unmarked ready keep fuel =
    let key = (m.cached p).key in
    let first = (m.cached head).next in
    let clear = here.held.mark_eq ∙ here.live in
    rw
      (
        run-bind perform (load_key p) (quick_insert_loop (suc rounds) walk head p) m,
        load_key_lem m p ready.sound,
        run-bind perform (load_next head) _ m,
        load_next_lem m head here.held.sound,
        get_ref_of_unmarked first clear,
      )
      (Returns-bind perform (quick_find walk key head first) _ m
        (quick_find-Searched walk m (head_cell head) cs key here unmarked (ready.new keep) fuel
          (ready.above keep) (ready.small keep))
        λ found m1 s.
          let f = s.found_at in
          let ne = pred_ne here unmarked ready keep s in
          rw
            (
              f.ptr,
              relink_lem m1 p f.r.ptr found.1 (quick_insert_loop rounds walk head p key) ready.sound
                  f.here.held.sound ne f.here.next,
              s.outside p ready.outside,
            )
            (returns (linked-Stepped here unmarked ready keep s)))
