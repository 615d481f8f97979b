-- ===== src/Soft/Rebuild/Step.antt =====
-- The body of the inner loop of `recovery` of SOFT/SOFTList.h, in its two cases.
use efficient_lock_free_dura.Common.{
  ℕ, suc, ◌<◌, ◌≤◌, ◌≡◌, ◌≢◌, ◌∙◌, sym, ap, subst, refl, Bool, true, false, not, Option, none, some,
  List, [], ◌∷◌, All, Distinct, length, ◌==◌, ◌&&◌, ◌||◌, Bool-cases, inl, inr, arith,
}
use native.Mathlib.Decide.{ℕ_discrete}
use efficient_lock_free_dura.Common.Prog.{Returns, returns, Returns-mono, done}
use efficient_lock_free_dura.Soft.Memory.{Ptr, Key, PNode, Memory, is_wild, write, exec, perform}
use efficient_lock_free_dura.Soft.PersistentNode.{is_valid, is_deleted}
use efficient_lock_free_dura.Soft.PersistentNode.Lifecycle.{recovered, repaired}
use efficient_lock_free_dura.Soft.List.{int_min, int_max}
use efficient_lock_free_dura.Soft.Recovery.{recover_node, quick_insert}
use efficient_lock_free_dura.Soft.Commands.{write_self, write_ne}
use efficient_lock_free_dura.Soft.Shape.{Cell, has, lists, At, Outside}
use efficient_lock_free_dura.Soft.Cells.{
  insert_cell, has-insert_cell, lists-insert_cell, All-insert_cell, length-insert_cell,
}
use efficient_lock_free_dura.Soft.Find.{Found}
use efficient_lock_free_dura.Soft.Invariant.{IsSpare, Written, Written-recovered, head_cell}
use efficient_lock_free_dura.Soft.Insert.Link.{content}
use efficient_lock_free_dura.Soft.Insert.Chain.{new_cell, placed-At, at_new, chain-pred_ne}
use efficient_lock_free_dura.Soft.Insert.Place.{none-some}
use efficient_lock_free_dura.Soft.History.State.{spares_grown}
use efficient_lock_free_dura.Soft.Rebuild.Link.{relinked, renewed, quick_insert-Linked}

-- `recovery` frees the object.
abbrev pub broken : PNode → Bool
broken n = not (is_valid n) || is_deleted n

-- The key that `recovery` would insert is this one.
abbrev pub is_key : Option (Key × ℕ) → Key → Bool
is_key none k = false
is_key (some (j, v)) k = j == k

-- A list that is being rebuilt.
pub record Building (head tail : Ptr) (cs : List Cell) (m : Memory) : Type 0 where
  pub here : At m.nodes tail (head_cell head) (m.nodes head).next cs
  pub written : All (Written m) cs
  pub spares : All (IsSpare head tail cs) m.node_pool
  pub distinct : Distinct m.node_pool

-- What recovery needs of an object that it will come to.
pub record IsReady (m : Memory) (cs : List Cell) (p : Ptr) : Type 0 where
  pub sound : is_wild p ≡ false
  pub tidy : broken (m.cached p) ≡ true → is_deleted (repaired (m.cached p)) ≡ true
  pub above : broken (m.cached p) ≡ false → int_min < (m.cached p).key
  pub small : broken (m.cached p) ≡ false → (m.cached p).key < int_max
  pub new : broken (m.cached p) ≡ false → has (m.cached p).key cs ≡ false

pub record Stepped (m : Memory) (head tail : Ptr) (cs : List Cell) (p : Ptr) (answer : Unit {0})
    (m' : Memory) : Type 0 where
  pub cells : List Cell
  pub building : Building head tail cells m'
  pub keys : (k : Key) → has k cells ≡ (is_key (recovered (m.cached p)) k || has k cs)
  pub listed :
      (x : Ptr) (k : Key)
      → lists x k cells ≡ ((p == x && is_key (recovered (m.cached x)) k) || lists x k cs)
  pub content : (x : Ptr) → recovered (m'.cached x) ≡ recovered (m.cached x)
  pub others : (x : Ptr) → x ≢ p → m'.cached x ≡ m.cached x
  pub durable : m'.durable ≡ m.durable
  pub pnode_pool : m'.pnode_pool ≡ m.pnode_pool
  pub longer : length cells ≤ suc (length cs)
  pub room : length m.node_pool ≤ suc (length m'.node_pool)

-- After the branch that frees the object.
abbrev pub discarded : Memory → Ptr → Memory
discarded m p = record m {
  cached = write m.cached p (repaired (m.cached p));
  freed_pnodes = p ∷ m.freed_pnodes;
}

pub repaired-none : (n : PNode) → is_deleted (repaired n) ≡ true → recovered (repaired n) ≡ none
unfolding is_deleted is_valid
repaired-none n h = ground arith

module _ (m : Memory) (p : Ptr) (sound : is_wild p ≡ false) where
  recover_node-discards :
      (rounds walk : ℕ) (head : Ptr)
      → broken (m.cached p) ≡ true
      → exec (recover_node rounds walk head p) m ≡ done tt (discarded m p)
  unfolding recover_node perform
  recover_node-discards rounds walk head out = ground arith

  recover_node-inserts :
      (rounds walk : ℕ) (head : Ptr)
      → broken (m.cached p) ≡ false
      → exec (recover_node rounds walk head p) m ≡ exec (quick_insert rounds walk head p) m
  unfolding recover_node perform
  recover_node-inserts rounds walk head keep = ground arith

module _ {m : Memory} {head tail : Ptr} {cs : List Cell} {p : Ptr} (b : Building head tail cs m)
    (ready : IsReady m cs p) where
  far : (c : Cell) → Written m c → broken (m.cached p) ≡ true → c.pptr ≢ p
  far c w out e =
      let gone : recovered (m.cached p) ≡ none = ground arith in
      none-some (sym gone ∙ ap (λ x. recovered (m.cached x)) (sym e) ∙ Written-recovered c w)

  kept_Written : (c : Cell) → Written m c → broken (m.cached p) ≡ true → Written (discarded m p) c
  kept_Written c w out =
      let same = write_ne m.cached p (repaired (m.cached p)) c.pptr (far c w out) in
      record {
        sound = w.sound;
        start_eq = rw same w.start_eq;
        end_eq = rw same w.end_eq;
        live = rw same w.live;
        key_eq = rw same w.key_eq;
      }

  kept_all :
      (ds : List Cell)
      → broken (m.cached p) ≡ true
      → All (Written m) ds
      → All (Written (discarded m p)) ds
  kept_all [] out all = tt
  kept_all (d ∷ ds) out (w, all) = (kept_Written d w out, kept_all ds out all)

  discarded-Stepped : broken (m.cached p) ≡ true → Stepped m head tail cs p tt (discarded m p)
  discarded-Stepped out =
      let gone : recovered (m.cached p) ≡ none = ground arith in
      record {
        cells = cs;
        building = record {
          here = b.here;
          written = kept_all cs out b.written;
          spares = b.spares;
          distinct = b.distinct;
        };
        keys = λ k. rw gone refl;
        listed = λ x k. elim (ℕ_discrete p x) [
          | yes e ↦ rw (← e) (rw gone (ground arith))
          | no ne ↦ ground arith
        ];
        content = λ x. elim (ℕ_discrete x p) [
          | yes e ↦ rw e (
              rw (write_self m.cached p (repaired (m.cached p)))
                (repaired-none (m.cached p) (ready.tidy out) ∙ sym gone))
          | no ne ↦ rw (write_ne m.cached p (repaired (m.cached p)) x ne) refl
        ];
        others = λ x ne. write_ne m.cached p (repaired (m.cached p)) x ne;
        durable = refl;
        pnode_pool = refl;
        longer = omega arith;
        room = omega arith;
      }

bits :
    (n : PNode) → broken n ≡ false → (n.valid_end ≡ n.valid_start) × (n.deleted ≡ not n.valid_start)
unfolding is_valid is_deleted
bits n keep = (ground arith, ground arith)

module _ {m : Memory} {head tail : Ptr} {cs : List Cell} {p n : Ptr} {nrest : List Ptr}
    (b : Building head tail cs m) (ready : IsReady m cs p) (keep : broken (m.cached p) ≡ false)
    (pool : m.node_pool ≡ n ∷ nrest) where
  abbrev key : Key
  key = (m.cached p).key

  abbrev v : Bool
  v = (m.cached p).valid_start

  spares : All (IsSpare head tail cs) (n ∷ nrest)
  spares = rw pool at b.spares

  distinct : Distinct (n ∷ nrest)
  distinct = rw pool at b.distinct

  pub spare : IsSpare head tail cs n
  spare = spares.0

  abbrev m1 : Memory
  m1 = renewed m p n nrest ready.sound spare.sound pool

  module _ {pred curr : Ptr} (f : Found m1.nodes tail key (head_cell head) cs pred curr) where
    abbrev m2 : Memory
    m2 = relinked m p n nrest ready.sound spare.sound pool f.r.ptr curr

    abbrev cells' : List Cell
    cells' = insert_cell (new_cell n key p) cs

    ne : f.r.ptr ≢ n
    ne =
        chain-pred_ne p v (m.cached p).value b.here.up spare f (ready.new keep) (ready.above keep)
          (ready.small keep)

    new_node : m2.nodes n ≡ content key (m.cached p).value p v curr
    new_node =
        at_new p v (m.cached p).value b.here.up spare f (ready.new keep) (ready.above keep)
          (ready.small keep)

    new_Written : Written m2 (new_cell n key p)
    new_Written = record {
      sound = ready.sound;
      start_eq = rw new_node refl;
      end_eq = rw new_node (bits (m.cached p) keep).0;
      live = rw new_node (bits (m.cached p) keep).1;
      key_eq = refl;
    }

    same_validity : (x : Ptr) → x ≢ n → (m2.nodes x).p_validity ≡ (m.nodes x).p_validity
    unfolding write
    same_validity x far = ground (arith, ne)

    olds : (ds : List Cell) → Outside n ds → All (Written m) ds → All (Written m2) ds
    olds [] out all = tt
    olds (d ∷ ds) (far, out) (w, all) =
        let valid = same_validity d.ptr far in
        (
          record {
            sound = w.sound;
            start_eq = rw valid w.start_eq;
            end_eq = rw valid w.end_eq;
            live = rw valid w.live;
            key_eq = w.key_eq;
          },
          olds ds out all,
        )

    here : recovered (m.cached p) ≡ some (key, (m.cached p).value)
    here = ground arith

    pub inserted-Stepped : Stepped m head tail cs p tt m2
    inserted-Stepped = record {
      cells = cells';
      building = record {
        here =
            placed-At p v (m.cached p).value b.here.up spare f (ready.new keep) (ready.above keep)
              (ready.small keep);
        written =
            All-insert_cell (Written m2) (new_cell n key p) cs new_Written
              (olds cs spare.outside.1 b.written);
        spares = spares_grown head tail (new_cell n key p) cs nrest distinct.0 spares.1;
        distinct = distinct.1;
      };
      keys = λ k. rw here (has-insert_cell k (new_cell n key p) cs ∙ ground arith);
      listed = λ x k. elim (ℕ_discrete p x) [
        | yes e ↦ rw (← e) (rw here (lists-insert_cell p k (new_cell n key p) cs ∙ ground arith))
        | no far ↦ lists-insert_cell x k (new_cell n key p) cs ∙ ground arith
      ];
      content = λ x. refl;
      others = λ x far. refl;
      durable = refl;
      pnode_pool = refl;
      longer = omega (arith, length-insert_cell (new_cell n key p) cs);
      room = omega (arith, ap length pool);
    }

pub recover_node-Stepped :
    {m : Memory} {head tail : Ptr} {cs : List Cell} {p : Ptr} (rounds walk : ℕ)
    → Building head tail cs m
    → IsReady m cs p
    → 0 < length m.node_pool
    → length cs < walk
    → Returns (Stepped m head tail cs p) (exec (recover_node (suc rounds) walk head p) m)
recover_node-Stepped {m} {head} {tail} {cs} {p} rounds walk b ready room enough =
    elim (Bool-cases (broken (m.cached p))) [
      | inl out ↦
          rw (recover_node-discards m p ready.sound (suc rounds) walk head out)
            (returns (discarded-Stepped b ready out))
      | inr keep ↦
          rw (recover_node-inserts m p ready.sound (suc rounds) walk head keep)
            (insert_from keep m.node_pool refl)
    ]
  where
    insert_from :
        broken (m.cached p) ≡ false
        → (ns : List Ptr) → m.node_pool ≡ ns
        → Returns (Stepped m head tail cs p) (exec (quick_insert (suc rounds) walk head p) m)
    insert_from keep [] pool = absurd (omega (arith, room, ap length pool))
    insert_from keep (n ∷ nrest) pool =
        Returns-mono
          (quick_insert-Linked rounds walk ready.sound (spare b ready keep pool) pool b.here
            (ready.new keep) (ready.above keep) (ready.small keep) enough)
          λ u m' l.
            subst (Stepped m head tail cs p u) (sym l.result)
              (inserted-Stepped b ready keep pool l.found)
