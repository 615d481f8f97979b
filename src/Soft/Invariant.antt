-- ===== src/Soft/Invariant.antt =====
-- The invariant of a SOFT list between two calls of one thread, in the caches and in NVRAM.
use efficient_lock_free_dura.Common.{
  ℕ, ◌<◌, ◌≡◌, ◌≢◌, sym, ap, subst, ◌∙◌, refl, true, false, not, some, none, List, [], ◌∷◌, ◌++◌,
  All, ==_iff, ◌==◌, Bool-cases, inl, inr, arith,
}
use efficient_lock_free_dura.Soft.Memory.{Ptr, nullptr, Key, Node, Memory, is_wild}
use efficient_lock_free_dura.Soft.PersistentNode.{is_valid, is_deleted}
use efficient_lock_free_dura.Soft.PersistentNode.Lifecycle.{recovered, repaired}
use efficient_lock_free_dura.Soft.List.{int_min, int_max}
use efficient_lock_free_dura.Soft.Shape.{
  Cell, Seg, cons, Ascends, IsTail, At, Outside, has, lists, Seg-append, Seg-head, Seg-held,
  Seg-tail, Seg-end,
}
use efficient_lock_free_dura.Soft.Cells.{has-split, has-Reached}
use efficient_lock_free_dura.Soft.Find.{Found, Reached}

abbrev pub head_cell : Ptr → Cell
head_cell head = record { ptr = head; key = int_min; pptr = nullptr }

-- The persistent node of a cell is written and not destroyed, with the validity that the volatile node
-- keeps for it.
pub record Written (m : Memory) (c : Cell) : Type 0 where
  pub sound : is_wild c.pptr ≡ false
  pub start_eq : (m.cached c.pptr).valid_start ≡ (m.nodes c.ptr).p_validity
  pub end_eq : (m.cached c.pptr).valid_end ≡ (m.nodes c.ptr).p_validity
  pub live : (m.cached c.pptr).deleted ≡ not (m.nodes c.ptr).p_validity
  pub key_eq : (m.cached c.pptr).key ≡ c.key

-- The chain leads from the head to the tail, each of its nodes has a written persistent node, NVRAM
-- holds what the caches hold, as far as `recovery` can tell, and `recovery` would insert no persistent
-- node but that of a cell, and with its key; each other persistent node is ready for `alloc` once
-- `recovery` has set its start bit.
pub record IsList (m : Memory) (head tail : Ptr) (cs : List Cell) : Type 0 where
  pub here : At m.nodes tail (head_cell head) (m.nodes head).next cs
  pub written : All (Written m) cs
  pub tidy : (x : Ptr) → recovered (m.durable x) ≡ none → is_deleted (repaired (m.durable x)) ≡ true
  pub settled : (x : Ptr) → recovered (m.durable x) ≡ recovered (m.cached x)
  pub owned :
      (x : Ptr) (k : Key) (v : ℕ) → recovered (m.cached x) ≡ some (k, v) → lists x k cs ≡ true

-- An object that `ssmem_alloc` may hand out for a volatile node, and one for a persistent node.
pub record IsSpare (head tail : Ptr) (cs : List Cell) (p : Ptr) : Type 0 where
  pub sound : is_wild p ≡ false
  pub ne_tail : tail ≢ p
  pub outside : Outside p (head_cell head ∷ cs)

abbrev pub IsFree : Memory → Ptr → Type 0
IsFree m p = (is_wild p ≡ false) × (is_deleted (m.cached p) ≡ true)

pub Written-recovered :
    {m : Memory} (c : Cell)
    → Written m c
    → recovered (m.cached c.pptr) ≡ some (c.key, (m.cached c.pptr).value)
unfolding is_valid is_deleted
Written-recovered c w = rw (w.start_eq, w.end_eq, w.live, w.key_eq) (ground arith)

-- The cells that a search has split, in one chain again.
pub join :
    {nodes : Ptr → Node} {tail start curr : Ptr} {r : Cell} {fs bs : List Cell}
    → Seg nodes r.ptr start fs
    → At nodes tail r curr bs
    → Seg nodes tail start (fs ++ r ∷ bs)
join {r} {fs} {bs} front here =
    Seg-append fs (r ∷ bs) front (cons refl here.held (rw here.next here.seg))

-- The place at the first cell of a chain, from the chain.
pub assemble :
    {nodes : Ptr → Node} {tail start : Ptr} {q : Cell} {cs : List Cell}
    → Seg nodes tail start (q ∷ cs)
    → Ascends q.key cs
    → IsTail nodes tail
    → At nodes tail q (nodes q.ptr).next cs
assemble s up end = record { held = Seg-held s; next = refl; seg = Seg-tail s; up = up; end = end }

-- The key of the node at which `find` stops is the one sought exactly if the list has it.
pub Found-has :
    {nodes : Ptr → Node} {tail : Ptr} {q : Cell} (cs : List Cell) {p c : Ptr} (key : Key)
    → q.key < key
    → key < int_max
    → (f : Found nodes tail key q cs p c) → has key cs ≡ ((nodes c).key == key)
Found-has {nodes} {tail} {q} cs {c} key above small f =
    ground arith
    ∙ ap (has key) (sym f.split)
    ∙ has-split f.r f.bs key f.fs f.below f.before
    ∙ stopped f.bs f.here f.reached
  where
    stopped :
        (bs : List Cell)
        → At nodes tail f.r c bs
        → Reached key bs
        → has key bs ≡ ((nodes c).key == key)
    stopped [] here reached = rw (Seg-end here.seg, here.end.key_eq) (ground arith)
    stopped (b ∷ bs) here reached =
        has-Reached key b bs f.r.key here.up reached
        ∙ rw (Seg-head here.seg, (Seg-held here.seg).key_eq)

-- NVRAM carries each key of the list.
pub has_durable :
    {m : Memory} {head tail : Ptr} {cs : List Cell} {key : Key}
    → IsList m head tail cs
    → has key cs ≡ true
    → (x : Ptr) × (v : ℕ) × (recovered (m.durable x) ≡ some (key, v))
has_durable {m} {cs} {key} is there =
    let (x, v, e) = go cs is.written there in (x, v, is.settled x ∙ e)
  where
    go :
        (ds : List Cell)
        → All (Written m) ds
        → has key ds ≡ true
        → (x : Ptr) × (v : ℕ) × (recovered (m.cached x) ≡ some (key, v))
    go [] all h = cc
    go (d ∷ ds) (w, all) h = elim (Bool-cases (d.key == key)) [
      | inl hit ↦ (
        d.pptr,
        (m.cached d.pptr).value,
        subst (λ k. recovered (m.cached d.pptr) ≡ some (k, (m.cached d.pptr).value))
            ((==_iff _ _).0 hit) (Written-recovered d w),
      )
      | inr miss ↦ go ds all (ground arith)
    ]
