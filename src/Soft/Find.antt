-- ===== src/Soft/Find.antt =====
-- `find` of SOFT/SOFTList.h, run by one thread on a list of inserted nodes: it ends, writes nothing, and
-- stops at the first node whose key is not below the one that is sought.
use efficient_lock_free_dura.Common.{
  ℕ, zero, suc, ◌<◌, ◌≤◌, ◌≡◌, ap, refl, true, false, List, [], ◌∷◌, ◌++◌, All, length, leb,
  Bool-cases, inl, inr, arith,
}
use efficient_lock_free_dura.Common.Prog.{Returns, returns, Returns-mono, run-bind, done}
use efficient_lock_free_dura.Soft.Utilities.{State, get_state}
use efficient_lock_free_dura.Soft.Memory.{Ptr, Key, Node, Memory, is_wild, exec, perform}
use efficient_lock_free_dura.Soft.List.{find, find_loop, load_next, load_key, int_min, int_max}
use efficient_lock_free_dura.Soft.Shape.{
  Cell, Seg, nil, cons, At, Seg-sound, get_ref_sound, get_state_sound, create_ref_sound, Seg-end,
  Seg-head, Seg-held, Seg-tail,
}
use efficient_lock_free_dura.Soft.Commands.{load_next_lem}

abbrev pub Reached : Key → List Cell → Type 0
Reached key [] = Unit
Reached key (c ∷ cs) = key ≤ c.key

-- Where the search stops: behind the cell `r`, at the first of the cells `bs`.
pub record Found (nodes : Ptr → Node) (tail : Ptr) (key : Key) (q : Cell) (cs : List Cell)
    (p c : Ptr) : Type 0 where
  pub fs : List Cell
  pub r : Cell
  pub bs : List Cell
  pub split : fs ++ r ∷ bs ≡ q ∷ cs
  pub ptr : p ≡ r.ptr
  pub front : Seg nodes r.ptr q.ptr fs
  pub below : All (λ d. d.key < r.key) fs
  pub here : At nodes tail r c bs
  pub reached : Reached key bs
  pub before : r.key < key
  pub above : q.key ≤ r.key

abbrev pub Searched : Memory → Ptr → Key → Cell → List Cell → Ptr × Ptr × State → Memory → Type 0
Searched m tail key q cs found m' =
    (m' ≡ m) × (Found m.nodes tail key q cs found.0 found.1 × (found.2 ≡ State.inserted))

module _ (fuel : ℕ) (m : Memory) (key : Key) (prev curr : Ptr) (sound : is_wild curr ≡ false)
    (inserted : get_state (m.nodes curr).next ≡ State.inserted) where
  pub find_loop-stop :
      leb key (m.nodes curr).key ≡ true
      → exec (find_loop (suc fuel) key prev curr State.inserted) m
        ≡ done (prev, curr, State.inserted) m
  unfolding find_loop load_next load_key perform
  find_loop-stop reached = ground (arith, get_ref_sound curr sound)

  pub find_loop-pass :
      leb key (m.nodes curr).key ≡ false
      → is_wild (m.nodes curr).next ≡ false
      → exec (find_loop (suc fuel) key prev curr State.inserted) m
        ≡ exec (find_loop fuel key curr (m.nodes curr).next State.inserted) m
  unfolding find_loop load_next load_key perform
  find_loop-pass short next_sound =
      ground
        (arith, get_ref_sound curr sound, get_ref_sound _ next_sound, create_ref_sound _ next_sound)

pub stopped :
    {m : Memory} {tail curr : Ptr} {q : Cell} {cs : List Cell} (key : Key)
    → At m.nodes tail q curr cs
    → q.key < key
    → Reached key cs
    → Searched m tail key q cs (q.ptr, curr, State.inserted) m
stopped {q} {cs} key here lt reached = (
  refl,
  (
    record {
      fs = [];
      r = q;
      bs = cs;
      split = refl;
      ptr = refl;
      front = nil refl;
      below = tt;
      here = here;
      reached = reached;
      before = lt;
      above = omega arith;
    },
    refl,
  ),
)

-- The search goes past the cell `c`.
pub passed :
    {m m' : Memory} {tail curr : Ptr} {q c : Cell} {cs : List Cell} (key : Key)
    (found : Ptr × Ptr × State)
    → At m.nodes tail q curr (c ∷ cs)
    → curr ≡ c.ptr
    → Searched m tail key c cs found m'
    → Searched m tail key q (c ∷ cs) found m'
passed {q} {c} {cs} key found here at_c (same, (f, state)) = (
  same,
  (
    record {
      fs = q ∷ f.fs;
      r = f.r;
      bs = f.bs;
      split = ap (λ l. q ∷ l) f.split;
      ptr = f.ptr;
      front = cons refl here.held (rw (here.next, at_c) f.front);
      below = (omega (arith, f.above, here.up.0), f.below);
      here = f.here;
      reached = f.reached;
      before = f.before;
      above = omega (arith, f.above, here.up.0);
    },
    state,
  ),
)

-- The loop ends within one round for each cell and one for the tail.
find_loop-Searched :
    (fuel : ℕ) (m : Memory) {tail curr : Ptr} (q : Cell) (cs : List Cell) (key : Key)
    → At m.nodes tail q curr cs
    → length cs < fuel
    → q.key < key
    → key ≤ int_max
    → Returns (Searched m tail key q cs) (exec (find_loop fuel key q.ptr curr State.inserted) m)
find_loop-Searched zero m q cs key here lt above small = absurd (omega arith)
find_loop-Searched (suc fuel) m {tail} {curr} q [] key here lt above small =
    let e = Seg-end here.seg in
    rw
      (find_loop-stop fuel m key q.ptr curr (rw e here.end.sound) (rw e here.end.state)
        (ground (arith, ap (λ x. (m.nodes x).key) e, here.end.key_eq)))
      (returns (stopped {m = m} key here above tt))
find_loop-Searched (suc fuel) m {tail} {curr} q (c ∷ cs) key here lt above small =
    let held = Seg-held here.seg in
    let rest = Seg-tail here.seg in
    let next_sound = Seg-sound cs here.end.sound rest in
    let state = get_state_sound (m.nodes c.ptr).next next_sound in
    rw (Seg-head here.seg) (elim (Bool-cases (leb key c.key)) [
      | inl reached ↦
          rw (find_loop-stop fuel m key q.ptr c.ptr held.sound state (rw held.key_eq reached))
            (returns (stopped {m = m} key (rw (Seg-head here.seg) at here) above (ground arith)))
      | inr short ↦
          rw
            (find_loop-pass fuel m key q.ptr c.ptr held.sound state (rw held.key_eq short)
              next_sound)
            (Returns-mono
              (find_loop-Searched fuel m c cs key
                (record { held = held; next = refl; seg = rest; up = here.up.1; end = here.end })
                (omega arith) (ground arith) small)
              λ found m' f. passed {m = m} key found here (Seg-head here.seg) f)
    ])

abbrev pub head_cell : Ptr → Ptr → Cell
head_cell head pptr = record { ptr = head; key = int_min; pptr = pptr }

-- `find` returns, with enough fuel for each cell and the tail.
pub find-Searched :
    {m : Memory} {tail : Ptr} {q : Cell} {cs : List Cell} (walk : ℕ) (key : Key)
    → At m.nodes tail q (m.nodes q.ptr).next cs
    → length cs < walk
    → q.key < key
    → key ≤ int_max
    → Returns (Searched m tail key q cs) (exec (find walk q.ptr key) m)
unfolding find
find-Searched {m} {tail} {q} {cs} walk key here fuel above small =
    rw
      (
        run-bind perform (load_next q.ptr) _ m,
        load_next_lem m q.ptr here.held.sound,
        get_state_sound _ (Seg-sound cs here.end.sound here.seg),
      )
      (find_loop-Searched walk m q cs key here fuel above small)
