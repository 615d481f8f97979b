-- ===== src/LinkFree/Insert.antt =====
-- `insert` of LinkFree/LinkFreeList.h, run by one thread.
pub mod Link
pub mod Place
pub mod Absent
use efficient_lock_free_dura.Common.{
  ℕ, suc, ◌<◌, ◌≡◌, ◌≢◌, ◌∙◌, sym, ap, refl, Bool, true, false, Option, none, some, List, [], ◌∷◌,
  ◌++◌, not, length, ==_iff, Bool-cases, inl, inr, ◌==◌, if◌then◌else◌, arith,
}
use efficient_lock_free_dura.Common.Prog.{Returns, returns, Returns-bind, done, ret, run-bind}
use efficient_lock_free_dura.LinkFree.Memory.{Ptr, Key, Node, Memory, Cmd, is_wild, exec, perform}
use efficient_lock_free_dura.LinkFree.List.{
  insert, insert_at, link_new, load_key, find, int_min, int_max,
}
use efficient_lock_free_dura.LinkFree.Shape.{Cell, has, persisted}
use efficient_lock_free_dura.LinkFree.Commands.{load_key_lem}
use efficient_lock_free_dura.LinkFree.Help.{
  helped, helped_lem, helped-IsList, helped-pool, helped-freed, helped_durable, helped-Upkeep,
}
use efficient_lock_free_dura.LinkFree.Upkeep.{Upkeep, Upkeep-trans}
use efficient_lock_free_dura.LinkFree.Find.Step.{Seg-sound}
use efficient_lock_free_dura.LinkFree.Insert.Absent.{
  after_link, link_new_lem, pred_ne, inserted-IsList, inserted_durable, inserted-Upkeep,
}
use efficient_lock_free_dura.LinkFree.Cells.{insert_cell}
use efficient_lock_free_dura.LinkFree.Find.Walk.{sweep, swept, has-sweep, Found, Searched}
use efficient_lock_free_dura.LinkFree.Invariant.{IsList, IsSpare, head_cell, Searched-IsList}
use efficient_lock_free_dura.LinkFree.Insert.Link.{new_cell, Outside-sweep}
use efficient_lock_free_dura.LinkFree.Lookup.{find-Searched, Found-has, Found-Hit}

-- What a call of `insert` leaves. The list has the key, whether it had it before or not, and some
-- object in NVRAM carries it.
pub record Inserted (m : Memory) (head tail : Ptr) (cs : List Cell) (key : Key) (p : Ptr)
    (rest : List Ptr) (added : Bool) (m' : Memory) : Type 0 where
  pub answer : added ≡ not (has key cs)
  pub list :
      IsList m' head tail
        (if added then insert_cell (new_cell p key) (sweep key cs) else sweep key cs)
  pub durable : (x : Ptr) × (persisted (m'.durable x) ≡ some key)
  pub pool : m'.pool ≡ (if added then rest else m.pool)
  pub freed : m'.freed ≡ swept key cs m.freed
  pub upkeep : Upkeep m m'

insert_at-found :
    (m : Memory) (pred curr : Ptr) (key : Key) (value : ℕ) (again : Cmd Bool)
    → is_wild curr ≡ false
    → (m.cached curr).key ≡ key
    → exec (insert_at key value pred curr again) m ≡ done false (helped m curr)
unfolding insert_at
insert_at-found m pred curr key value again sound e =
    run-bind perform (load_key curr) _ m
    ∙ rw (load_key_lem m curr sound, (==_iff _ _).1 e) (helped_lem m curr (ret false) sound)

insert_at-absent :
    (m : Memory) (pred curr : Ptr) (key : Key) (value : ℕ) (again : Cmd Bool)
    → is_wild curr ≡ false
    → ((m.cached curr).key == key) ≡ false
    → exec (insert_at key value pred curr again) m ≡ exec (link_new key value pred curr again) m
unfolding insert_at
insert_at-absent m pred curr key value again sound e =
    run-bind perform (load_key curr) _ m ∙ rw (load_key_lem m curr sound, e) refl

module _ {m m1 : Memory} {head tail : Ptr} {cs : List Cell} {p : Ptr} {rest : List Ptr}
    {found : Ptr × Ptr} (key : Key) (value : ℕ) (again : Cmd Bool) (is : IsList m head tail cs)
    (pool : m.pool ≡ p ∷ rest) (spare : IsSpare m.cached head tail cs p) (above : int_min < key)
    (small : key < int_max) (s : Searched m tail key (head_cell head) cs found m1) where
  abbrev f : Found m1 tail key (head_cell head) cs found.0 found.1
  f = s.found_at

  is1 : IsList m1 head tail (sweep key cs)
  is1 = Searched-IsList is s

  found_sound : is_wild found.1 ≡ false
  found_sound = Seg-sound f.here.seg f.here.end.sound

  spare1 : IsSpare m1.cached head tail (sweep key cs) p
  spare1 =
      let same = s.outside p spare.outside in
      record {
        sound = spare.sound;
        ne_tail = spare.ne_tail;
        outside = (spare.outside.0, Outside-sweep p key cs spare.outside.1);
        byte = rw same spare.byte;
        valid = rw same spare.valid;
      }

  on_found :
      has key cs ≡ true
      → Returns
          (Inserted m head tail cs key p rest)
          (exec (insert_at key value found.0 found.1 again) m1)
  on_found there =
      let key_c : (m1.cached found.1).key ≡ key =
        (==_iff _ _).0 (sym (Found-has cs key above small f) ∙ there) in
      let hit = Found-Hit key is1 f above small key_c in
      rw (insert_at-found m1 found.0 found.1 key value again found_sound key_c) (
        returns (record {
          answer = rw there;
          list =
              helped-IsList found.1 is1 hit.ne_head (rw key_c hit.held) hit.linked
                (rw key_c hit.listed);
          durable = (
            found.1,
            helped_durable m1 found.1 key hit.held hit.linked (is1.settled found.1 hit.ne_head),
          );
          pool = helped-pool m1 found.1 ∙ s.quiet.pool;
          freed = helped-freed m1 found.1 ∙ s.freed;
          upkeep = Upkeep-trans s.quiet.upkeep (helped-Upkeep m1 found.1 (hit.held.undeleted refl));
        }))

  on_absent :
      has key cs ≡ false
      → Returns
          (Inserted m head tail cs key p rest)
          (exec (insert_at key value found.0 found.1 again) m1)
  on_absent new =
      let test : ((m1.cached found.1).key == key) ≡ false =
        sym (Found-has cs key above small f) ∙ new in
      let new1 : has key (sweep key cs) ≡ false = has-sweep key key cs ∙ new in
      let m3 = after_link m1 rest p f.r.ptr found.1 key value in
      rw (insert_at-absent m1 found.0 found.1 key value again found_sound test, f.ptr)
        (rw
          (link_new_lem m1 rest p f.r.ptr found.1 key value again (s.quiet.pool ∙ pool) spare.sound
            f.here.held.sound (pred_ne rest value is1 spare1 f refl new1 above small) f.here.next)
          (returns (record {
            answer = rw new;
            list = inserted-IsList rest value is1 spare1 f refl new1 above small;
            durable = (p, inserted_durable rest value is1 spare1 f refl new1 above small);
            pool = helped-pool m3 p;
            freed = helped-freed m3 p ∙ s.freed;
            upkeep =
                Upkeep-trans s.quiet.upkeep
                  (inserted-Upkeep rest value is1 spare1 f refl new1 above small);
          })))

-- A call of the link-free list's `insert` alone returns in the first round of its loop, without a
-- fault. It answers whether the key was missing; the list is in order and has the key afterwards,
-- with the new object in front of the larger keys if it was missing; the marked nodes on the way
-- are unlinked and freed, each once; NVRAM carries the key in some object, and agrees with the
-- caches on what recovery makes of each object but the head; if metadata was a byte everywhere and
-- no object had been flushed with its delete flag set, that stays so, and valid objects stay
-- valid. The conditions: the list was in order, the key lies strictly between those of the
-- sentinels, the allocator hands out a spare object, and the fuel of the walk exceeds the number
-- of nodes.
pub insert-Inserted :
    {m : Memory} {head tail : Ptr} {cs : List Cell} {p : Ptr} {rest : List Ptr} (rounds walk : ℕ)
    (key : Key) (value : ℕ)
    → IsList m head tail cs
    → m.pool ≡ p ∷ rest
    → IsSpare m.cached head tail cs p
    → length cs < walk
    → int_min < key
    → key < int_max
    → Returns
        (Inserted m head tail cs key p rest)
        (exec (insert (suc rounds) walk head key value) m)
unfolding insert
insert-Inserted {m} {head} {tail} {cs} {p} {rest} rounds walk key value is pool spare fuel above
      small =
    Returns-bind perform (find walk head key) _ m
      (find-Searched walk key is fuel above (omega arith))
      λ found m1 s. elim (Bool-cases (has key cs)) [
        | inl there ↦ on_found key value _ is pool spare above small s there
        | inr new ↦ on_absent key value _ is pool spare above small s new
      ]
