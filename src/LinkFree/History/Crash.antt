-- ===== src/LinkFree/History/Crash.antt =====
-- A crash between two calls, and `recover` of LinkFree/LinkFreeList.h on a new list: the list before
-- the crash and the one after recovery hold the same keys.
use efficient_lock_free_dura.Common.{
  ℕ, suc, ◌<◌, ◌≡◌, ◌≢◌, ◌∙◌, ap, subst, fun_ext, refl, true, false, List, [], ◌∷◌, All, length,
  ◌||◌, ◌==◌, member, members, Distinct, ◌&&◌, arith,
}
use efficient_lock_free_dura.Common.Prog.{Returns, Returns-mono}
use efficient_lock_free_dura.LinkFree.Memory.{Ptr, Key, Memory, is_wild, exec, write}
use efficient_lock_free_dura.LinkFree.List.{int_min, int_max}
use efficient_lock_free_dura.LinkFree.Recovery.{crash, recover}
use efficient_lock_free_dura.LinkFree.Construct.{construct, construct-At}
use efficient_lock_free_dura.SetSpec.{Keys}
use efficient_lock_free_dura.LinkFree.Utilities.{is_valid}
use efficient_lock_free_dura.LinkFree.Upkeep.{Clean}
use efficient_lock_free_dura.LinkFree.Shape.{Cell, kept, persisted}
use efficient_lock_free_dura.LinkFree.Cells.{lists, lists_unique}
use efficient_lock_free_dura.LinkFree.Find.Quiet.{Settled}
use efficient_lock_free_dura.LinkFree.Rebuild.{Recovered, recover-Recovered}
use efficient_lock_free_dura.Common.Objects.{objects}
use efficient_lock_free_dura.LinkFree.Rebuild.Cells.{
  carries, add_cells, lists_added, length-add_cells,
}
use efficient_lock_free_dura.LinkFree.Rebuild.Ready.{IsReady}
use efficient_lock_free_dura.LinkFree.Rebuild.Waiting.{Image, Apart}
use efficient_lock_free_dura.LinkFree.History.{Serving, keys_of}
use efficient_lock_free_dura.LinkFree.History.State.{Usable}
use efficient_lock_free_dura.LinkFree.History.Image.{durable_listed, carries-has, lists-range}

-- The new list, before `recover`.
abbrev pub restarted : (objs : List Ptr) (min max : Ptr) → Memory → Memory
restarted objs min max m = construct min max (crash objs m)

module _ {objs : List Ptr} {head tail : Ptr} {cs : List Cell} {m : Memory}
    (u : Usable objs head tail cs m) (apart : member head objs ≡ false) (min max : Ptr)
    (min_apart : member min objs ≡ false) (max_apart : member max objs ≡ false) where
  abbrev m0 : Memory
  m0 = restarted objs min max m

  -- An object of the chunks, as NVRAM holds it.
  from_durable : (x : Ptr) → member x objs ≡ true → (m0.cached x ≡ m.durable x)
  unfolding crash construct write
  from_durable x inside = ground (arith, min_apart, max_apart)

  -- Whatever would be inserted lies in the chunks.
  covered : (x : Ptr) → x ≢ min → kept (m0.cached x) ≡ true → member x objs ≡ true
  unfolding crash construct write
  covered x ne keep = ground (arith)

  settled : (x : Ptr) → x ≢ min → Settled m0 x
  unfolding crash construct write persisted
  settled x ne = ground arith

  crashed_byte : ((crash objs m).cached min).meta_data < 256
  unfolding crash
  crashed_byte = ground (arith, u.clean min)

  clean : Clean m → Clean m0
  unfolding crash construct write
  clean c x = ground (arith, c x, c min, c max)

  -- An object that would be inserted is listed with its key.
  would_list :
      (x : Ptr)
      → member x objs ≡ true
      → kept (m0.cached x) ≡ true
      → lists x (m0.cached x).key cs ≡ true
  unfolding persisted
  would_list x inside keep =
      durable_listed u apart x (m0.cached x).key inside
        (ground (arith, from_durable x inside, keep))

  in_range :
      (x : Ptr)
      → member x objs ≡ true
      → kept (m0.cached x) ≡ true
      → (int_min < (m0.cached x).key) × ((m0.cached x).key < int_max)
  in_range x inside keep =
      lists-range x (m0.cached x).key int_min cs u.list.here.up (would_list x inside keep)

  ready : (p : Ptr) → member p objs ≡ true → is_wild p ≡ false → IsReady m0.cached min max [] p
  ready p inside sound = record {
    sound = sound;
    ne_tail = λ e. apart_from max max_apart e;
    outside = ((λ e. apart_from min min_apart e), tt);
    byte = (clean u.clean p).0;
    undeleted = λ keep. rw (from_durable p inside) (u.clean p).2;
    above = λ keep. (in_range p inside keep).0;
    small = λ keep. (in_range p inside keep).1;
    new = λ keep. refl;
  }
    where
      apart_from : (q : Ptr) → member q objs ≡ false → q ≢ p
      apart_from q out e = ground arith

  Apart-objects :
      (p q : Ptr) → member p objs ≡ true → member q objs ≡ true → q ≢ p → Apart m0.cached p q
  Apart-objects p q p_in q_in ne = (
    ne,
    λ keep_p keep_q same. ne (
        lists_unique q p (m0.cached q).key int_min cs u.list.here.up (would_list q q_in keep_q)
          (subst (λ k. lists p k cs ≡ true) same (would_list p p_in keep_p))),
  )

  aparts :
      (p : Ptr) (qs : List Ptr)
      → member p objs ≡ true
      → All (λ q. member q objs ≡ true) qs
      → All (λ q. q ≢ p) qs
      → All (Apart m0.cached p) qs
  aparts p [] p_in inside ne = tt
  aparts p (q ∷ qs) p_in (q_in, inside) (ne, nes) =
      (Apart-objects p q p_in q_in ne, aparts p qs p_in inside nes)

  image :
      (ps : List Ptr)
      → All (λ p. member p objs ≡ true) ps
      → All (λ p. is_wild p ≡ false) ps
      → Distinct ps
      → Image m0.cached min max [] ps
  image [] inside sound distinct = tt
  image (p ∷ ps) (p_in, inside) (sound_p, sound) (ne, distinct) =
      (ready p p_in sound_p, (aparts p ps p_in inside ne, image ps inside sound distinct))

  same_carries :
      (k : Key) (ps : List Ptr)
      → All (λ p. member p objs ≡ true) ps
      → carries m0.cached ps k ≡ carries m.durable ps k
  same_carries k [] inside = refl
  same_carries k (p ∷ ps) (p_in, inside) =
      rw (from_durable p p_in)
        (ap (λ b. (kept (m.durable p) && (m.durable p).key == k) || b) (same_carries k ps inside))

  -- The list that recovery leaves is ready for calls again.
  Recovered-Serving :
      (walk : ℕ) {m' : Memory}
      → Recovered m0 min max objs tt m'
      → length objs < walk
      → Serving objs min max walk (keys_of cs) 0 m'
  unfolding construct crash
  Recovered-Serving walk {m'} r fuel = record {
    cells = add_cells m0.cached objs [];
    usable = record {
      list = r.list;
      clean = r.upkeep.clean (clean u.clean);
      valid = λ x k l. added_valid x k l;
      within = λ x k l. (lists_added m0.cached x k objs [] l refl).0;
      spares = rw r.pool tt;
      distinct = rw r.pool tt;
      pool_within = rw r.pool tt;
    };
    keys = fun_ext λ k. r.keys k ∙ same_carries k objs (members objs) ∙ carries-has u apart k;
    fuel = omega (arith, length-add_cells m0.cached objs []);
    room = omega arith;
  }
    where
      added_valid :
          (x : Ptr) (k : Key)
          → lists x k (add_cells m0.cached objs []) ≡ true
          → is_valid (m'.cached x).meta_data ≡ true
      added_valid x k l =
          r.upkeep.valid (clean u.clean) x
            (ground (arith, (lists_added m0.cached x k objs [] l refl).1))

-- A crash between two calls of the link-free list, the restart and recovery lose no key and bring
-- none back: the constructor makes a new list, `recover` on it returns, with no `assert` failed
-- and no fault, and the list that it leaves holds exactly the keys that the list held when the
-- crash came, in the order that calls need and keep, with an allocator that has no object yet. The
-- conditions: the list was ready for calls; the objects of the chunks are at different sound
-- addresses, none of which was the old head or is one of the new sentinels; these are at different
-- sound addresses; and the fuel of the walk exceeds the number of objects.
pub crash-recover :
    {head tail : Ptr} {walk budget : ℕ} {s : Keys} {m : Memory} (rounds walk' size count : ℕ)
    (chunks : List Ptr) (min max : Ptr)
    → Serving (objects size count chunks) head tail walk s budget m
    → All (λ p. is_wild p ≡ false) (objects size count chunks)
    → Distinct (objects size count chunks)
    → member head (objects size count chunks) ≡ false
    → member min (objects size count chunks) ≡ false
    → member max (objects size count chunks) ≡ false
    → is_wild min ≡ false
    → is_wild max ≡ false
    → min ≢ max
    → length (objects size count chunks) < walk'
    → Returns
        (λ u m'. Serving (objects size count chunks) min max walk' s 0 m')
        (exec
          (recover (suc rounds) walk' min size count chunks)
          (construct min max (crash (objects size count chunks) m)))
crash-recover {s} {m} rounds walk' size count chunks min max v sound distinct apart min_apart
      max_apart sound_min sound_max ne fuel =
    let objs = objects size count chunks in
    let u = v.usable in
    Returns-mono
      (recover-Recovered rounds walk' size count chunks
        (construct-At (crash objs m) min max sound_min sound_max ne
          (crashed_byte u apart min max min_apart max_apart))
        (settled u apart min max min_apart max_apart) (covered u apart min max min_apart max_apart)
        (image u apart min max min_apart max_apart objs (members objs) sound distinct) fuel)
      λ a m' r.
        subst (λ t. Serving objs min max walk' t 0 m') v.keys
          (Recovered-Serving u apart min max min_apart max_apart walk' r fuel)
