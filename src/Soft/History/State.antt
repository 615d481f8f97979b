-- ===== src/Soft/History/State.antt =====
-- A SOFT list that is ready for calls: the invariant of the list, and what the calls need of the objects
-- of the two allocators.
use efficient_lock_free_dura.Common.{
  ◌≡◌, ◌≢◌, sym, subst, true, List, [], ◌∷◌, All, member, Distinct, everywhere, ◌==◌, ==_iff,
  Bool-cases, inl, inr, arith,
}
use efficient_lock_free_dura.Soft.Memory.{Ptr, Key, Memory}
use efficient_lock_free_dura.Soft.PersistentNode.{is_deleted}
use efficient_lock_free_dura.Soft.Shape.{Cell, Outside, lists}
use efficient_lock_free_dura.Soft.Cells.{
  insert_cell, remove_cell, lists-insert_cell, All-insert_cell, All-remove_cell,
}
use efficient_lock_free_dura.Soft.Invariant.{IsList, IsSpare, IsFree}
use efficient_lock_free_dura.Soft.Insert.Chain.{new_cell}

-- `objs` are the persistent objects, of the chunks of `alloc`.
pub record Usable (objs : List Ptr) (head tail : Ptr) (cs : List Cell) (m : Memory) : Type 0 where
  pub list : IsList m head tail cs
  pub within : (x : Ptr) (k : Key) → lists x k cs ≡ true → member x objs ≡ true
  pub spares : All (IsSpare head tail cs) m.node_pool
  pub distinct : Distinct m.node_pool
  pub frees : All (IsFree m) m.pnode_pool
  pub pnode_distinct : Distinct m.pnode_pool
  pub pnode_within : All (λ p. member p objs ≡ true) m.pnode_pool

IsSpare-move :
    {head tail : Ptr} (cs cs' : List Cell) (q : Ptr)
    → (Outside q cs → Outside q cs')
    → IsSpare head tail cs q
    → IsSpare head tail cs' q
IsSpare-move cs cs' q out spare = record {
  sound = spare.sound;
  ne_tail = spare.ne_tail;
  outside = (spare.outside.0, out spare.outside.1);
}

-- The spare nodes but the new one.
pub spares_grown :
    (head tail : Ptr) (n : Cell) (cs : List Cell) (ps : List Ptr)
    → All (λ q. q ≢ n.ptr) ps
    → All (IsSpare head tail cs) ps
    → All (IsSpare head tail (insert_cell n cs)) ps
spares_grown head tail n cs [] ne all = tt
spares_grown head tail n cs (p ∷ ps) (ne, nes) (s, all) = (
  IsSpare-move cs (insert_cell n cs) p (All-insert_cell (λ c. c.ptr ≢ p) n cs λ e. ne (sym e)) s,
  spares_grown head tail n cs ps nes all,
)

spares_shrunk :
    (head tail : Ptr) (key : Key) (cs : List Cell) (ps : List Ptr)
    → All (IsSpare head tail cs) ps
    → All (IsSpare head tail (remove_cell key cs)) ps
spares_shrunk head tail key cs [] all = tt
spares_shrunk head tail key cs (p ∷ ps) (s, all) = (
  IsSpare-move cs (remove_cell key cs) p (All-remove_cell (λ c. c.ptr ≢ p) key cs) s,
  spares_shrunk head tail key cs ps all,
)

frees_kept :
    (m m' : Memory) (ps : List Ptr)
    → All (λ p. is_deleted (m.cached p) ≡ true → is_deleted (m'.cached p) ≡ true) ps
    → All (IsFree m) ps
    → All (IsFree m') ps
frees_kept m m' [] keep all = tt
frees_kept m m' (p ∷ ps) (keep, keeps) (free, all) =
    ((free.0, keep free.1), frees_kept m m' ps keeps all)

others_same :
    (m m' : Memory) (pn : Ptr) (ps : List Ptr)
    → ((x : Ptr) → x ≢ pn → m'.cached x ≡ m.cached x)
    → All (λ q. q ≢ pn) ps
    → All (λ p. is_deleted (m.cached p) ≡ true → is_deleted (m'.cached p) ≡ true) ps
others_same m m' pn [] same ne = tt
others_same m m' pn (p ∷ ps) same (ne, nes) =
    ((λ free. rw (same p ne) free), others_same m m' pn ps same nes)

-- `insert` of a key that was missing.
pub grow-Usable :
    {objs : List Ptr} {head tail n pn : Ptr} {cs : List Cell} {m m' : Memory}
    {nrest prest : List Ptr} (key : Key)
    → Usable objs head tail cs m
    → m.node_pool ≡ n ∷ nrest
    → m.pnode_pool ≡ pn ∷ prest
    → IsList m' head tail (insert_cell (new_cell n key pn) cs)
    → m'.node_pool ≡ nrest
    → m'.pnode_pool ≡ prest
    → ((x : Ptr) → x ≢ pn → m'.cached x ≡ m.cached x)
    → Usable objs head tail (insert_cell (new_cell n key pn) cs) m'
grow-Usable {objs} {head} {tail} {n} {pn} {cs} {m} {m'} {nrest} {prest} key u pool ppool list left
      pleft same =
    let spares = rw pool at u.spares in
    let distinct = rw pool at u.distinct in
    let frees = rw ppool at u.frees in
    let pdistinct = rw ppool at u.pnode_distinct in
    let inside = rw ppool at u.pnode_within in
    record {
      list = list;
      within = λ x k l. elim (Bool-cases (pn == x)) [
        | inl e ↦ subst (λ y. member y objs ≡ true) ((==_iff _ _).0 e) inside.0
        | inr ne ↦ u.within x k (ground (arith, lists-insert_cell x k (new_cell n key pn) cs))
      ];
      spares = rw left (spares_grown head tail (new_cell n key pn) cs nrest distinct.0 spares.1);
      distinct = rw left distinct.1;
      frees = rw pleft (frees_kept m m' prest (others_same m m' pn prest same pdistinct.0) frees.1);
      pnode_distinct = rw pleft pdistinct.1;
      pnode_within = rw pleft inside.1;
    }

lists-removed :
    (x : Ptr) (k key : Key) (cs : List Cell)
    → lists x k (remove_cell key cs) ≡ true
    → lists x k cs ≡ true
lists-removed x k key [] h = h
lists-removed x k key (c ∷ cs) h = ground (arith, lists-removed x k key cs)

-- `remove` of a key that was there.
pub shrink-Usable :
    {objs : List Ptr} {head tail : Ptr} {cs : List Cell} {m m' : Memory} (key : Key)
    → Usable objs head tail cs m
    → IsList m' head tail (remove_cell key cs)
    → m'.node_pool ≡ m.node_pool
    → m'.pnode_pool ≡ m.pnode_pool
    → ((x : Ptr) → is_deleted (m.cached x) ≡ true → is_deleted (m'.cached x) ≡ true)
    → Usable objs head tail (remove_cell key cs) m'
shrink-Usable {head} {tail} {cs} {m} {m'} key u list pool ppool keep = record {
  list = list;
  within = λ x k l. u.within x k (lists-removed x k key cs l);
  spares = rw pool (spares_shrunk head tail key cs m.node_pool u.spares);
  distinct = rw pool u.distinct;
  frees = rw ppool (frees_kept m m' m.pnode_pool (everywhere m.pnode_pool keep) u.frees);
  pnode_distinct = rw ppool u.pnode_distinct;
  pnode_within = rw ppool u.pnode_within;
}
