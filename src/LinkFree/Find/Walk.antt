-- ===== src/LinkFree/Find/Walk.antt =====
-- The loop of `find`: it ends, unlinks each marked node that it passes, and stops at the first
-- unmarked node whose key is not below the one that is sought.
use efficient_lock_free_dura.Common.{
  ℕ, zero, suc, ◌<◌, ◌≤◌, ◌≡◌, sym, ap, ◌∙◌, refl, true, false, List, [], ◌∷◌, ◌++◌, All, length,
  leb, if◌then◌else◌, Bool-cases, inl, inr, arith,
}
use efficient_lock_free_dura.Common.Prog.{Returns, returns, Returns-mono}
use efficient_lock_free_dura.LinkFree.Memory.{Ptr, Key, Node, Memory, exec}
use efficient_lock_free_dura.LinkFree.Utilities.{get_ref}
use efficient_lock_free_dura.LinkFree.List.{find_loop, int_max}
use efficient_lock_free_dura.LinkFree.Shape.{Cell, Holds-eq, Seg, nil, cons, Outside, has}
use efficient_lock_free_dura.LinkFree.Find.Rounds.{find_loop-stop, find_loop-pass, find_loop-trim}
use efficient_lock_free_dura.LinkFree.Find.Quiet.{Quiet, Quiet-refl, Quiet-trans}
use efficient_lock_free_dura.LinkFree.Find.Step.{
  At, held_c, below_c, q_out, clean, Seg-head, Seg-end, link_after_flush, after_trim, after_trim-At,
  after_trim-Quiet, after_trim-Outside, after_trim-freed, At-pass,
}
use efficient_lock_free_dura.LinkFree.Utilities.Marks.{get_ref_of_unmarked}

-- The cells that are left: the marked ones up to the first unmarked one at or above `key` are gone.
abbrev pub sweep : Key → List Cell → List Cell
sweep key [] = []
sweep key (c ∷ cs) =
    let rest = sweep key cs in if c.marked then rest else if leb key c.key then c ∷ cs else c ∷ rest

-- The objects given to `ssmem_free` on the way, the last one first, in front of `acc`.
abbrev pub swept : Key → List Cell → List Ptr → List Ptr
swept key [] acc = acc
swept key (c ∷ cs) acc =
    let rest = swept key cs (if c.marked then c.ptr ∷ acc else acc) in
    if c.marked then rest else if leb key c.key then acc else rest

-- The cells from the one that the search stops at.
abbrev pub Reached : Key → List Cell → Type 0
Reached key [] = Unit
Reached key (c ∷ cs) = (c.marked ≡ false) × (key ≤ c.key)

pub record Found (m : Memory) (tail : Ptr) (key : Key) (q : Cell) (cs : List Cell) (p c : Ptr)
    : Type 0 where
  pub fs : List Cell
  pub r : Cell
  pub bs : List Cell
  pub split : fs ++ r ∷ bs ≡ q ∷ sweep key cs
  pub ptr : p ≡ r.ptr
  pub front : Seg m.cached r.ptr q.ptr fs
  pub below : All (λ d. d.key < r.key) fs
  pub here : At m.cached tail r c bs
  pub reached : Reached key bs
  pub before : r.key < key
  pub above : q.key ≤ r.key

-- What a search from `q` in `m` has done when it returns.
pub record Searched (m : Memory) (tail : Ptr) (key : Key) (q : Cell) (cs : List Cell)
    (found : Ptr × Ptr) (m' : Memory) : Type 0 where
  pub found_at : Found m' tail key q cs found.0 found.1
  pub quiet : Quiet m m'
  pub outside : (x : Ptr) → Outside x (q ∷ cs) → m'.cached x ≡ m.cached x
  pub freed : m'.freed ≡ swept key cs m.freed

pub has-sweep : (j key : Key) (cs : List Cell) → has j (sweep key cs) ≡ has j cs
has-sweep j key [] = refl
has-sweep j key (c ∷ cs) = ground (arith, has-sweep j key cs)

stopped :
    {m : Memory} {tail : Ptr} {q : Cell} {curr : Ptr} {cs : List Cell} (key : Key)
    → At m.cached tail q curr cs
    → q.key < key
    → Reached key cs
    → sweep key cs ≡ cs
    → swept key cs m.freed ≡ m.freed
    → Searched m tail key q cs (q.ptr, curr) m
stopped {m} {q} {cs} key here lt reached swept_none freed_none = record {
  found_at = record {
    fs = [];
    r = q;
    bs = cs;
    split = ap (λ l. q ∷ l) (sym swept_none);
    ptr = refl;
    front = nil refl;
    below = tt;
    here = here;
    reached = reached;
    before = lt;
    above = omega arith;
  };
  quiet = Quiet-refl m;
  outside = λ x out. refl;
  freed = sym freed_none;
}

-- The search goes past the unmarked cell `c`.
passed :
    {m m' : Memory} {tail curr : Ptr} {q c : Cell} {cs : List Cell} (key : Key) (found : Ptr × Ptr)
    → At m.cached tail q curr (c ∷ cs)
    → c.marked ≡ false
    → leb key c.key ≡ false
    → Searched m tail key c cs found m'
    → Searched m tail key q (c ∷ cs) found m'
passed {m} {m'} {q} {c} {cs} key found here live short s =
    let f = s.found_at in
    let same = s.outside q.ptr (q_out m here) in
    let clean_c = clean c.ptr (held_c m here).sound in
    let link =
      ap (λ n. get_ref n.next) same
      ∙ ap get_ref (here.next ∙ Seg-head here.seg)
      ∙ get_ref_of_unmarked c.ptr clean_c in
    record {
      found_at = record {
        fs = q ∷ f.fs;
        r = f.r;
        bs = f.bs;
        split = ap (λ l. q ∷ l) (f.split ∙ rw (live, short));
        ptr = f.ptr;
        front = cons refl (Holds-eq q same here.held) (rw link f.front);
        below = (omega (arith, f.above, below_c m here), f.below);
        here = f.here;
        reached = f.reached;
        before = f.before;
        above = omega (arith, f.above, below_c m here);
      };
      quiet = s.quiet;
      outside = λ x out. s.outside x out.1;
      freed = s.freed ∙ rw (live, short);
    }

-- The search goes on from `q` after `trim` has unlinked the marked cell `c`.
trimmed :
    {m m1 m' : Memory} {tail : Ptr} {q c : Cell} {cs : List Cell} (key : Key) (found : Ptr × Ptr)
    → c.marked ≡ true
    → Quiet m m1
    → ((x : Ptr) → Outside x (q ∷ c ∷ cs) → m1.cached x ≡ m.cached x)
    → m1.freed ≡ c.ptr ∷ m.freed
    → Searched m1 tail key q cs found m'
    → Searched m tail key q (c ∷ cs) found m'
trimmed {q} {c} {cs} key found dead quiet outside freed s =
    let f = s.found_at in
    record {
      found_at = record {
        fs = f.fs;
        r = f.r;
        bs = f.bs;
        split = f.split ∙ rw dead;
        ptr = f.ptr;
        front = f.front;
        below = f.below;
        here = f.here;
        reached = f.reached;
        before = f.before;
        above = f.above;
      };
      quiet = Quiet-trans quiet s.quiet;
      outside = λ x out. s.outside x (out.0, out.1.1) ∙ outside x out;
      freed = s.freed ∙ rw (freed, dead);
    }

At-move :
    {nodes : Ptr → Node} {tail curr curr' : Ptr} {q : Cell} {cs : List Cell}
    → curr ≡ curr'
    → At nodes tail q curr cs
    → At nodes tail q curr' cs
At-move e here = rw e at here

-- The loop ends within one round for each cell and one for the tail.
pub find_loop-Searched :
    (fuel : ℕ) (m : Memory) {tail curr : Ptr} (q : Cell) (cs : List Cell) (key : Key)
    → At m.cached tail q curr cs
    → length cs < fuel
    → q.key < key
    → key ≤ int_max
    → Returns (Searched m tail key q cs) (exec (find_loop fuel key q.ptr curr) m)
find_loop-Searched zero m q cs key here lt above small = absurd (omega arith)
find_loop-Searched (suc fuel) m {tail} {curr} q [] key here lt above small = rw (Seg-end here.seg) (
    rw
      (find_loop-stop fuel m key q.ptr tail here.end.sound here.end.unmarked
        (ground (arith, here.end.key_eq)))
      (returns (stopped {m = m} key (At-move (Seg-end here.seg) here) above tt refl refl)))
find_loop-Searched (suc fuel) m {tail} {curr} q (c ∷ cs) key here lt above small =
    let held = held_c m here in
    rw (Seg-head here.seg) (elim (Bool-cases c.marked) [
      | inl dead ↦
          rw
            (find_loop-trim fuel m key q.ptr c.ptr held.sound (held.mark_eq ∙ dead) here.held.sound
              (link_after_flush m here dead))
            (Returns-mono
              (find_loop-Searched fuel (after_trim m q c) q cs key (after_trim-At m here dead)
                (omega arith) above small)
              λ found m' s.
                trimmed key found dead (after_trim-Quiet m here dead)
                  (after_trim-Outside m here dead) (after_trim-freed m here dead) s)
      | inr live ↦ elim (Bool-cases (leb key c.key)) [
        | inl reached ↦
            rw
              (find_loop-stop fuel m key q.ptr c.ptr held.sound (held.mark_eq ∙ live)
                (rw held.key_eq reached))
              (returns (
                stopped {m = m} key (At-move (Seg-head here.seg) here) above (live, ground arith)
                  (rw (live, reached)) (rw (live, reached))))
        | inr short ↦
            rw
              (find_loop-pass fuel m key q.ptr c.ptr held.sound (held.mark_eq ∙ live)
                (rw held.key_eq short))
              (Returns-mono
                (find_loop-Searched fuel m c cs key (At-pass m here live) (omega arith)
                  (ground arith) small)
                λ found m' s. passed key found here live short s)
      ]
    ])
