-- ===== src/Soft/Insert.antt =====
-- `insert` of SOFT/SOFTList.h, run by one thread.
pub mod Link
pub mod Chain
pub mod Place
use efficient_lock_free_dura.Common.{
  ℕ, suc, ◌<◌, ◌≡◌, ◌≢◌, ◌∙◌, sym, ap, refl, Bool, true, false, none, some, List, ◌∷◌, not, length,
  ◌==◌, ==_iff, Bool-cases, inl, inr, if◌then◌else◌, arith,
}
use efficient_lock_free_dura.Common.Prog.{Returns, returns, Returns-bind, done, ret, run-bind}
use efficient_lock_free_dura.Soft.Utilities.{State, get_ref, get_state, is}
use efficient_lock_free_dura.Soft.Memory.{Ptr, nullptr, Key, Memory, Cmd, is_wild, exec, perform}
use efficient_lock_free_dura.Soft.PersistentNode.{is_deleted}
use efficient_lock_free_dura.Soft.PersistentNode.Lifecycle.{recovered}
use efficient_lock_free_dura.Soft.List.{
  insert, insert_at, link_new, find, load_key, int_min, int_max,
}
use efficient_lock_free_dura.Soft.Commands.{load_key_lem, write_ne, created}
use efficient_lock_free_dura.Soft.Shape.{Cell, has, lists, Seg-sound, get_ref_sound}
use efficient_lock_free_dura.Soft.Cells.{insert_cell}
use efficient_lock_free_dura.Soft.Find.{Found, Searched, find-Searched}
use efficient_lock_free_dura.Soft.Invariant.{
  IsList, IsSpare, IsFree, Found-has, has_durable, head_cell,
}
use efficient_lock_free_dura.Soft.Insert.Link.{after_insert, link_new_lem, validity}
use efficient_lock_free_dura.Soft.Insert.Chain.{new_cell}
use efficient_lock_free_dura.Soft.Insert.Place.{pred_ne, inserted-IsList, stored}

-- What a call of `insert` leaves: memory as it was if the key was there; else the key and the value in
-- the new persistent node, in the cache and in NVRAM.
abbrev pub Stored : Memory → (key : Key) → (value : ℕ) → (pn : Ptr) → Bool → Memory → Type 0
Stored m key value pn true m' = recovered (m'.durable pn) ≡ some (key, value)
Stored m key value pn false m' = m' ≡ m

pub record Inserted (m : Memory) (head tail : Ptr) (cs : List Cell) (key : Key) (value : ℕ)
    (n pn : Ptr) (nrest prest : List Ptr) (added : Bool) (m' : Memory) : Type 0 where
  pub answer : added ≡ not (has key cs)
  pub list : IsList m' head tail (if added then insert_cell (new_cell n key pn) cs else cs)
  pub stored : Stored m key value pn added m'
  pub durable : (x : Ptr) × (v : ℕ) × (recovered (m'.durable x) ≡ some (key, v))
  pub node_pool : m'.node_pool ≡ (if added then nrest else m.node_pool)
  pub pnode_pool : m'.pnode_pool ≡ (if added then prest else m.pnode_pool)
  pub free : (x : Ptr) → x ≢ pn → m'.cached x ≡ m.cached x

module _ (m : Memory) (pred curr : Ptr) (fuel : ℕ) (key : Key) (value : ℕ) (again : Cmd Bool)
    (sound : is_wild curr ≡ false) where
  insert_at-found :
      (m.nodes curr).key ≡ key
      → exec (insert_at fuel key value pred curr State.inserted again) m ≡ done false m
  unfolding insert_at
  insert_at-found e =
      rw (get_ref_sound curr sound) (
        run-bind perform (load_key curr) _ m
        ∙ rw (load_key_lem m curr sound, (==_iff _ _).1 e) refl)

  insert_at-absent :
      ((m.nodes curr).key == key) ≡ false
      → exec (insert_at fuel key value pred curr State.inserted again) m
        ≡ exec (link_new fuel key value pred curr again) m
  unfolding insert_at
  insert_at-absent e =
      rw (get_ref_sound curr sound)
        (run-bind perform (load_key curr) _ m ∙ rw (load_key_lem m curr sound, e) refl)

module _ {m : Memory} {head tail : Ptr} {cs : List Cell} {n pn : Ptr} {nrest prest : List Ptr}
    (fuel : ℕ) (key : Key) (value : ℕ) (again : Cmd Bool) (is : IsList m head tail cs)
    (pool : m.node_pool ≡ n ∷ nrest) (ppool : m.pnode_pool ≡ pn ∷ prest)
    (spare : IsSpare head tail cs n) (free : IsFree m pn) (above : int_min < key)
    (small : key < int_max) where
  inserted :
      (pred curr : Ptr)
      → (f : Found m.nodes tail key (head_cell head) cs pred curr)
      → Returns
          (Inserted m head tail cs key value n pn nrest prest)
          (exec (insert_at (suc (suc fuel)) key value pred curr State.inserted again) m)
  inserted pred curr f =
      let curr_sound = Seg-sound f.bs f.here.end.sound f.here.seg in
      let test = Found-has cs key above small f in
      elim (Bool-cases (has key cs)) [
        | inl there ↦
            rw
              (insert_at-found m pred curr (suc (suc fuel)) key value again curr_sound
                ((==_iff _ _).0 (sym test ∙ there)))
              (returns (record {
                answer = rw there;
                list = is;
                stored = refl;
                durable = has_durable is there;
                node_pool = refl;
                pnode_pool = refl;
                free = λ x ne. refl;
              }))
        | inr absent ↦
            rw
              (
                insert_at-absent m pred curr (suc (suc fuel)) key value again curr_sound
                    (sym test ∙ absent),
                f.ptr,
                link_new_lem m n pn nrest prest f.r.ptr curr key value
                    (pred_ne pn nrest prest value is spare free f absent above small) fuel again
                    pool ppool spare.sound free.0 f.here.held.sound curr_sound f.here.next,
              )
              (returns (record {
                answer = rw absent;
                list = inserted-IsList pn nrest prest value is spare free f absent above small;
                stored = stored pn nrest prest value is spare free f absent above small;
                durable =
                    (pn, value, stored pn nrest prest value is spare free f absent above small);
                node_pool = refl;
                pnode_pool = refl;
                free = λ x ne.
                    write_ne m.cached pn (created (m.cached pn) (validity m pn) key value) x ne;
              }))
      ]

-- A call of the SOFT list's `insert` alone returns in the first round of its loop, without a
-- fault. It answers whether the key was missing; the list is in order and has the key afterwards;
-- if the key was there, memory is as it was; if it was missing, the new node stands in front of
-- the larger keys, and its persistent node carries the key and the value in NVRAM; some persistent
-- node in NVRAM carries the key either way. The conditions: the list was in order, its nodes
-- inserted, the key lies strictly between those of the sentinels, the allocators hand out a spare
-- node and a free persistent node, the fuel of the walk exceeds the number of nodes, and that of
-- the state loop is two at least.
pub soft_insert-Inserted :
    {m : Memory} {head tail : Ptr} {cs : List Cell} {n pn : Ptr} {nrest prest : List Ptr}
    (rounds walk fuel : ℕ) (key : Key) (value : ℕ)
    → IsList m head tail cs
    → m.node_pool ≡ n ∷ nrest
    → m.pnode_pool ≡ pn ∷ prest
    → IsSpare head tail cs n
    → IsFree m pn
    → length cs < walk
    → int_min < key
    → key < int_max
    → Returns
        (Inserted m head tail cs key value n pn nrest prest)
        (exec (insert (suc rounds) walk (suc (suc fuel)) head key value) m)
unfolding insert
soft_insert-Inserted {m} {head} {tail} {cs} {n} {pn} {nrest} {prest} rounds walk fuel key value is
      pool ppool spare free enough above small =
    Returns-bind perform (find walk head key) _ m
      (find-Searched {q = head_cell head} walk key is.here enough above (omega arith))
      λ (pred, curr, state) m1 (same, (f, inserted_state)).
        rw (same, inserted_state)
          (inserted fuel key value _ is pool ppool spare free above small pred curr f)
