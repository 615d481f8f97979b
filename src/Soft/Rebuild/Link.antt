-- ===== src/Soft/Rebuild/Link.antt =====
-- `quickInsert` of SOFT/SOFTList.h: a new volatile node for a persistent one that the crash left.
use efficient_lock_free_dura.Common.{
  ℕ, suc, ◌<◌, ◌≡◌, ◌≢◌, ◌∙◌, ap, refl, Bool, false, List, ◌∷◌, length, if◌then◌else◌, arith,
}
use efficient_lock_free_dura.Common.Prog.{
  Returns, returns, Returns-bind, done, ret, atomic, run-bind, ◌>>=◌, ◌>>◌,
}
use efficient_lock_free_dura.Soft.Utilities.{State, get_ref, create_ref}
use efficient_lock_free_dura.Soft.Memory.{
  Ptr, Key, Node, Memory, Cmd, is_wild, write, exec, perform, store, cas_next,
}
use efficient_lock_free_dura.Soft.PersistentNode.{recovery_validity}
use efficient_lock_free_dura.Soft.List.{load_next, volatile_node, int_min, int_max}
use efficient_lock_free_dura.Soft.Recovery.{quick_find, quick_insert, quick_insert_loop}
use efficient_lock_free_dura.Soft.Commands.{
  write_self, write_ne, load_next_lem, store_lem, cas_next_lem,
}
use efficient_lock_free_dura.Soft.Shape.{
  Cell, has, At, Seg-write, Seg-sound, IsTail-write, Holds-write, get_ref_sound, create_ref_sound,
}
use efficient_lock_free_dura.Soft.Find.{Found}
use efficient_lock_free_dura.Soft.Invariant.{IsSpare, head_cell}
use efficient_lock_free_dura.Soft.Insert.Link.{content, linked_nodes}
use efficient_lock_free_dura.Soft.Insert.Chain.{chain-pred_ne}
use efficient_lock_free_dura.Soft.Rebuild.Search.{quick_find-Sought}

-- A write at a spare node keeps the chain.
pub At-write :
    {nodes : Ptr → Node} {head tail : Ptr} {cs : List Cell} (n : Ptr) (x : Node)
    → IsSpare head tail cs n
    → At nodes tail (head_cell head) (nodes head).next cs
    → At (write nodes n x) tail (head_cell head) (write nodes n x head).next cs
At-write {nodes} {head} n x spare here =
    let e = write_ne nodes n x head spare.outside.0 in
    record {
      held = Holds-write nodes n x spare.outside.0 here.held;
      next = refl;
      seg = rw e (Seg-write nodes n x here.seg spare.outside.1);
      up = here.up;
      end = IsTail-write n x spare.ne_tail here.end;
    }

module _ (m : Memory) (p n : Ptr) (nrest : List Ptr) (sound_p : is_wild p ≡ false)
    (sound : is_wild n ≡ false) (pool : m.node_pool ≡ n ∷ nrest) where
  abbrev key : Key
  key = (m.cached p).key

  abbrev value : ℕ
  value = (m.cached p).value

  abbrev v : Bool
  v = (m.cached p).valid_start

  -- After `new Node`.
  abbrev pub renewed : Memory
  renewed = record m { nodes = write m.nodes n (volatile_node key value p v); node_pool = nrest }

  pub begin_lem :
      (rounds walk : ℕ) (head : Ptr)
      → exec (quick_insert rounds walk head p) m
        ≡ exec (quick_insert_loop rounds walk head n key) renewed
  unfolding quick_insert recovery_validity perform
  begin_lem rounds walk head = rw pool (ground arith)

  -- After the compare-exchange.
  abbrev pub relinked : (pred curr : Ptr) → Memory
  relinked pred curr = record renewed {
    nodes = linked_nodes renewed.nodes n p v pred key value curr;
  }

  -- The end of a round of `quickInsert`.
  abbrev publish : (pred curr : Ptr) → Cmd (Unit {0}) → Cmd (Unit {0})
  publish pred curr again = do
    atomic (store n λ x. record x { next = create_ref (get_ref curr) State.inserted })
    linked ← atomic (cas_next pred curr (create_ref n State.inserted))
    if linked then ret tt else again

  publish_lem :
      (pred curr : Ptr) (again : Cmd (Unit {0}))
      → is_wild pred ≡ false
      → is_wild curr ≡ false
      → pred ≢ n
      → (renewed.nodes pred).next ≡ curr
      → exec (publish pred curr again) renewed ≡ done tt (relinked pred curr)
  publish_lem pred curr again sound_pred sound_curr ne at_curr =
      rw (get_ref_sound curr sound_curr, create_ref_sound curr sound_curr, create_ref_sound n sound)
        (run-bind perform (atomic (store n λ x. record x { next = curr })) (λ u. finish) renewed
          ∙ rw
              (
                store_lem renewed n sound λ x. record x { next = curr },
                write_self m.nodes n (volatile_node key value p v),
              )
              (run-bind perform (atomic (cas_next pred curr n)) end stored
                ∙ rw
                    (
                      cas_next_lem stored pred sound_pred curr n
                          (ap (λ x. x.next) at_pred ∙ at_curr),
                      at_pred,
                    )
                    refl))
    where
      end : Bool → Cmd (Unit {0})
      end linked = if linked then ret tt else again

      finish : Cmd (Unit {0})
      finish = atomic (cas_next pred curr n) >>= end

      stored : Memory
      stored = record renewed { nodes = write renewed.nodes n (content key value p v curr) }

      at_pred : stored.nodes pred ≡ renewed.nodes pred
      at_pred = write_ne renewed.nodes n _ pred ne

-- What `quickInsert` leaves: the new node stands where the search stopped.
pub record Linked (m : Memory) (head tail : Ptr) (cs : List Cell) (p n : Ptr) (nrest : List Ptr)
    (sound_p : is_wild p ≡ false) (sound : is_wild n ≡ false) (pool : m.node_pool ≡ n ∷ nrest)
    (answer : Unit {0}) (m' : Memory) : Type 0 where
  pub pred : Ptr
  pub curr : Ptr
  pub found :
      Found
        (renewed m p n nrest sound_p sound pool).nodes
        tail
        (m.cached p).key
        (head_cell head)
        cs
        pred
        curr
  pub result : m' ≡ relinked m p n nrest sound_p sound pool found.r.ptr curr

-- `quickInsert` returns in the first round of its loop.
pub quick_insert-Linked :
    {m : Memory} {head tail : Ptr} {cs : List Cell} {p n : Ptr} {nrest : List Ptr} (rounds walk : ℕ)
    (sound_p : is_wild p ≡ false) (spare : IsSpare head tail cs n) (pool : m.node_pool ≡ n ∷ nrest)
    → At m.nodes tail (head_cell head) (m.nodes head).next cs
    → has (m.cached p).key cs ≡ false
    → int_min < (m.cached p).key
    → (m.cached p).key < int_max
    → length cs < walk
    → Returns
        (Linked m head tail cs p n nrest sound_p spare.sound pool)
        (exec (quick_insert (suc rounds) walk head p) m)
unfolding quick_insert_loop
quick_insert-Linked {m} {head} {tail} {cs} {p} {n} {nrest} rounds walk sound_p spare pool here new
      above small enough =
    let m1 = renewed m p n nrest sound_p spare.sound pool in
    let here1 =
      At-write n (volatile_node (m.cached p).key (m.cached p).value p (m.cached p).valid_start)
        spare here in
    rw
      (
        begin_lem m p n nrest sound_p spare.sound pool (suc rounds) walk head,
        run-bind perform (load_next head) _ m1,
        load_next_lem m1 head here.held.sound,
      )
      (Returns-bind perform (quick_find walk (m.cached p).key head (m1.nodes head).next) _ m1
        (quick_find-Sought walk m1 (head_cell head) cs (m.cached p).key here1 new enough above
          small)
        λ (pred, curr) m2 (same, f).
          rw
            (
              same,
              f.ptr,
              publish_lem m p n nrest sound_p spare.sound pool f.r.ptr curr
                  (quick_insert_loop rounds walk head n (m.cached p).key) f.here.held.sound
                  (Seg-sound f.bs f.here.end.sound f.here.seg)
                  (chain-pred_ne p (m.cached p).valid_start (m.cached p).value here.up spare f new
                    above small)
                  f.here.next,
            )
            (returns (record { pred = pred; curr = curr; found = f; result = refl })))
