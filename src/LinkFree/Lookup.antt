-- ===== src/LinkFree/Lookup.antt =====
-- What the call of `find` tells `insert`, `remove` and `contains`: whether the key is there.
use efficient_lock_free_dura.Common.{
  ℕ, ◌<◌, ◌≤◌, ◌≡◌, ◌≢◌, ◌∙◌, sym, ap, subst, true, false, List, [], ◌∷◌, ◌++◌, length, ◌==◌, arith,
}
use efficient_lock_free_dura.Common.Prog.{Returns, run-bind}
use efficient_lock_free_dura.LinkFree.Memory.{Ptr, nullptr, Key, Node, Memory, exec, perform}
use efficient_lock_free_dura.LinkFree.List.{find, load_next, int_min, int_max}
use efficient_lock_free_dura.LinkFree.Commands.{load_next_lem}
use efficient_lock_free_dura.LinkFree.Shape.{Cell, Holds, has}
use efficient_lock_free_dura.LinkFree.Cells.{lists, has-split, has-Reached}
use efficient_lock_free_dura.LinkFree.Find.Step.{
  At, Seg-end, Seg-head, Seg-held, Seg-tail, Seg-sound, not_null,
}
use efficient_lock_free_dura.LinkFree.Utilities.Marks.{get_ref_of_unmarked}
use efficient_lock_free_dura.LinkFree.Find.Walk.{
  sweep, has-sweep, Reached, Found, Searched, find_loop-Searched,
}
use efficient_lock_free_dura.LinkFree.Invariant.{IsList, head_cell}

-- `find` returns, with enough fuel for each cell and the tail.
pub find-Searched :
    {m : Memory} {head tail : Ptr} {cs : List Cell} (walk : ℕ) (key : Key)
    → IsList m head tail cs
    → length cs < walk
    → int_min < key
    → key ≤ int_max
    → Returns (Searched m tail key (head_cell head) cs) (exec (find walk head key) m)
unfolding find
find-Searched {m} {head} {cs} walk key is fuel above small =
    rw (run-bind perform (load_next head) _ m, load_next_lem m head is.here.held.sound)
      (find_loop-Searched walk m (head_cell head) cs key is.here fuel above small)

has_where_stopped :
    {nodes : Ptr → Node} {tail c : Ptr} {r : Cell} (bs : List Cell) (key : Key)
    → At nodes tail r c bs
    → Reached key bs
    → key < int_max
    → has key bs ≡ ((nodes c).key == key)
has_where_stopped [] key here reached small = rw (Seg-end here.seg, here.end.key_eq) (ground arith)
has_where_stopped {r} (b ∷ bs) key here reached small =
    has-Reached key b bs r.key here.up reached ∙ rw (Seg-head here.seg, (Seg-held here.seg).key_eq)

-- The key of the node at which `find` stops is the one sought exactly if the list has it.
pub Found-has :
    {m : Memory} {tail : Ptr} {q : Cell} (cs : List Cell) {found : Ptr × Ptr} (key : Key)
    → q.key < key
    → key < int_max
    → (f : Found m tail key q cs found.0 found.1) → has key cs ≡ ((m.cached found.1).key == key)
Found-has {q} cs key above small f =
    sym (has-sweep key key cs)
    ∙ ground arith
    ∙ ap (has key) (sym f.split)
    ∙ has-split f.r f.bs key f.fs f.below f.before
    ∙ has_where_stopped f.bs key f.here f.reached small

-- The node that a search for `key` has hit.
pub record Hit (m : Memory) (head tail : Ptr) (key : Key) (cells : List Cell) (c : Ptr)
    : Type 0 where
  pub held : Holds m.cached (record { ptr = c; key = key; marked = false })
  pub ne_head : c ≢ head
  pub linked : (m.cached c).next ≢ nullptr
  pub listed : lists c key cells ≡ true

lists-append :
    (x : Ptr) (k : Key) (fs bs : List Cell) → lists x k bs ≡ true → lists x k (fs ++ bs) ≡ true
lists-append x k [] bs h = h
lists-append x k (f ∷ fs) bs h = ground (arith, lists-append x k fs bs h)

Hit-At :
    {m : Memory} {head tail c : Ptr} {r : Cell} {cells : List Cell} (bs : List Cell) (key : Key)
    → At m.cached tail r c bs
    → Reached key bs
    → int_min < key
    → key < int_max
    → (m.cached head).key ≡ int_min
    → (m.cached c).key ≡ key
    → (lists c key bs ≡ true → lists c key cells ≡ true)
    → Hit m head tail key cells c
Hit-At {m} [] key here reached above small at_head key_c more =
    absurd (omega (arith, here.end.key_eq, ap (λ x. (m.cached x).key) (Seg-end here.seg)))
Hit-At {m} {head} {c} (b ∷ bs) key here (live, le) above small at_head key_c more =
    let e = Seg-head here.seg in
    let hb = Seg-held here.seg in
    let next_sound = Seg-sound (Seg-tail here.seg) here.end.sound in
    let unmarked = hb.mark_eq ∙ live in
    let b_key : b.key ≡ key = sym hb.key_eq ∙ ap (λ x. (m.cached x).key) (sym e) ∙ key_c in
    record {
      held = record {
        sound = rw e hb.sound;
        key_eq = key_c;
        mark_eq = rw e unmarked;
        byte = rw e hb.byte;
        valid_of_marked = λ dead. cc;
        undeleted = λ l. rw e (hb.undeleted live);
        inserted = rw e hb.inserted;
      };
      ne_head = λ h. absurd (omega (arith, at_head, key_c, ap (λ x. (m.cached x).key) h));
      linked = rw (e, sym (get_ref_of_unmarked _ unmarked)) (not_null _ next_sound);
      listed = more (ground (arith, e, b_key, live));
    }

-- Where the search stops at the key, the node there is an unmarked one of the list.
pub Found-Hit :
    {m : Memory} {head tail : Ptr} {cs : List Cell} {pred curr : Ptr} (key : Key)
    → IsList m head tail (sweep key cs)
    → (f : Found m tail key (head_cell head) cs pred curr) → int_min < key
    → key < int_max
    → (m.cached curr).key ≡ key
    → Hit m head tail key (sweep key cs) curr
Found-Hit {m} {head} {cs} {curr} key is f above small key_c =
    Hit-At f.bs key f.here f.reached above small is.here.held.key_eq key_c λ h.
      let whole : lists curr key (f.fs ++ f.r ∷ f.bs) ≡ true =
        lists-append curr key f.fs (f.r ∷ f.bs) (ground (arith, h)) in
      let at_q : lists curr key (head_cell head ∷ sweep key cs) ≡ true =
        subst (λ l. lists curr key l ≡ true) f.split whole in
      ground (arith, at_q)
