-- ===== src/LinkFree/History/Start.antt =====
-- The life of a link-free list, from its constructor through any calls to a crash and recovery.
use efficient_lock_free_dura.Common.{
  member, Distinct, ℕ, suc, ◌<◌, ◌≡◌, ◌≢◌, refl, true, false, List, [], ◌∷◌, All, length, arith,
}
use efficient_lock_free_dura.Common.Prog.{Returns, Returns-mono}
use efficient_lock_free_dura.SetSpec.{Call, Keys, answers, final_set, run_calls}
use efficient_lock_free_dura.LinkFree.Memory.{Ptr, Memory, is_wild, write, exec, perform}
use efficient_lock_free_dura.LinkFree.Utilities.{is_valid}
use efficient_lock_free_dura.LinkFree.Upkeep.{Clean}
use efficient_lock_free_dura.LinkFree.Recovery.{crash, recover}
use efficient_lock_free_dura.LinkFree.Construct.{construct, construct-IsList, IsBlank}
use efficient_lock_free_dura.LinkFree.Invariant.{IsSpare}
use efficient_lock_free_dura.Common.Objects.{objects}
use efficient_lock_free_dura.LinkFree.History.{Serving, InRange, run_call, history-Refines}
use efficient_lock_free_dura.LinkFree.History.Crash.{crash-recover}

-- An object that the allocator may hand out to the new list.
pub record IsFresh (m : Memory) (objs : List Ptr) (min max p : Ptr) : Type 0 where
  pub sound : is_wild p ≡ false
  pub ne_min : min ≢ p
  pub ne_max : max ≢ p
  pub valid : is_valid (m.cached p).meta_data ≡ true
  pub inside : member p objs ≡ true

module _ (m : Memory) (objs : List Ptr) (min max : Ptr) (clean : Clean m) where
  fresh-IsSpare :
      (p : Ptr) → IsFresh m objs min max p → IsSpare (construct min max m).cached min max [] p
  unfolding construct write
  fresh-IsSpare p f = record {
    sound = f.sound;
    ne_tail = f.ne_max;
    outside = (f.ne_min, tt);
    byte = ground (arith, f.ne_min, f.ne_max, clean p);
    valid = ground (arith, f.ne_min, f.ne_max, f.valid);
  }

  spares :
      (ps : List Ptr)
      → All (IsFresh m objs min max) ps
      → All (IsSpare (construct min max m).cached min max []) ps
  spares [] all = tt
  spares (p ∷ ps) (f, all) = (fresh-IsSpare p f, spares ps all)

  inside : (ps : List Ptr) → All (IsFresh m objs min max) ps → All (λ p. member p objs ≡ true) ps
  inside [] all = tt
  inside (p ∷ ps) (f, all) = (f.inside, inside ps all)

  still-Clean : Clean (construct min max m)
  unfolding construct write
  still-Clean x = ground (arith, clean x, clean min, clean max)

-- The constructor of the link-free list makes a list that is ready for calls and holds no key, if
-- `new` returns two different addresses, neither null nor odd, nothing in memory is a node that
-- `recover` would insert, metadata is a byte everywhere and NVRAM holds no set delete flag, and
-- the objects that the allocator will hand out are different, sound, valid, objects of the chunks
-- and none of the sentinels, fewer than the fuel of a walk.
pub construct-Serving :
    {m : Memory} {objs : List Ptr} (min max : Ptr) (walk : ℕ)
    → IsBlank m
    → Clean m
    → is_wild min ≡ false
    → is_wild max ≡ false
    → min ≢ max
    → All (IsFresh m objs min max) m.pool
    → Distinct m.pool
    → length m.pool < walk
    → Serving objs min max walk (λ k. false) (length m.pool) (construct min max m)
unfolding construct
construct-Serving {m} {objs} min max walk blank clean sound_min sound_max ne fresh distinct fuel =
    record {
      cells = [];
      usable = record {
        list = construct-IsList min max blank sound_min sound_max ne (clean min).0;
        clean = still-Clean m objs min max clean;
        valid = λ x k l. cc;
        within = λ x k l. cc;
        spares = spares m objs min max clean m.pool fresh;
        distinct = distinct;
        pool_within = inside m objs min max clean m.pool fresh;
      };
      keys = refl;
      fuel = omega arith;
      room = omega arith;
    }

-- Any sequence of calls of the link-free list by one thread on a list that was ready, then a
-- crash, the restart and recovery: the calls were answered as a mathematical set answers them, and
-- the new list holds exactly the keys of the set after the calls, in the order that calls need and
-- keep, with an allocator that has no object yet; nothing faults or runs out of fuel. The
-- conditions: the keys of the calls lie strictly between those of the sentinels; the list was
-- ready, with a spare object for each call and a walk longer than the nodes and the calls
-- together; the objects of the chunks are at different sound addresses, none of them the old head
-- or a new sentinel; the new sentinels are at different sound addresses; the fuel of the walk of
-- recovery exceeds the number of objects.
pub history-crash-recover :
    {head tail : Ptr} {s : Keys} {m : Memory} (rounds walk walk' size count : ℕ) (chunks : List Ptr)
    (min max : Ptr) (calls : List Call)
    → All InRange calls
    → Serving (objects size count chunks) head tail walk s (length calls) m
    → All (λ p. is_wild p ≡ false) (objects size count chunks)
    → Distinct (objects size count chunks)
    → member head (objects size count chunks) ≡ false
    → member min (objects size count chunks) ≡ false
    → member max (objects size count chunks) ≡ false
    → is_wild min ≡ false
    → is_wild max ≡ false
    → min ≢ max
    → length (objects size count chunks) < walk'
    → Returns
        (λ bs m'.
          (bs ≡ answers s calls)
          × Returns
              (λ u m''. Serving (objects size count chunks) min max walk' (final_set s calls) 0 m'')
              (exec
                (recover (suc rounds) walk' min size count chunks)
                (construct min max (crash (objects size count chunks) m'))))
        (exec (run_calls perform (run_call (suc rounds) walk head) calls) m)
history-crash-recover rounds walk walk' size count chunks min max calls range v sound distinct apart
      min_apart max_apart sound_min sound_max ne fuel =
    Returns-mono (history-Refines rounds walk calls range v) λ bs m' (eq, w). (
      eq,
      crash-recover rounds walk' size count chunks min max w sound distinct apart min_apart
          max_apart sound_min sound_max ne fuel,
    )
