-- ===== src/Soft/Rebuild/Search.antt =====
-- The search that `quickInsert` of SOFT/SOFTList.h repeats inline: on a list of inserted nodes without the
-- key it stops where `find` stops, and no `assert` fails.
pub mod Equivalence
use efficient_lock_free_dura.Common.{
  ℕ, zero, suc, ◌<◌, ◌≡◌, ap, ◌∙◌, refl, true, false, List, [], ◌∷◌, length, ltb, ◌==◌, Bool-cases,
  inl, inr, arith,
}
use efficient_lock_free_dura.Common.Prog.{Returns, returns, Returns-mono, done}
use efficient_lock_free_dura.Soft.Utilities.{State, get_state}
use efficient_lock_free_dura.Soft.Memory.{Ptr, Key, Memory, is_wild, exec, perform}
use efficient_lock_free_dura.Soft.List.{load_next, load_key, int_max}
use efficient_lock_free_dura.Soft.Recovery.{quick_find}
use efficient_lock_free_dura.Soft.Shape.{
  Cell, has, At, Seg-sound, Seg-end, Seg-head, Seg-held, Seg-tail, get_ref_sound, get_state_sound,
}
use efficient_lock_free_dura.Soft.Find.{Found, stopped, passed}

abbrev pub Sought : Memory → Ptr → Key → Cell → List Cell → Ptr × Ptr → Memory → Type 0
Sought m tail key q cs found m' = (m' ≡ m) × Found m.nodes tail key q cs found.0 found.1

module _ (fuel : ℕ) (m : Memory) (key : Key) (prev curr : Ptr) (sound : is_wild curr ≡ false)
    (inserted : get_state (m.nodes curr).next ≡ State.inserted) where
  pub quick_find-stop :
      ltb (m.nodes curr).key key ≡ false
      → ((m.nodes curr).key == key) ≡ false
      → exec (quick_find (suc fuel) key prev curr) m ≡ done (prev, curr) m
  unfolding quick_find load_next load_key perform
  quick_find-stop reached other = ground (arith, get_ref_sound curr sound)

  pub quick_find-pass :
      ltb (m.nodes curr).key key ≡ true
      → exec (quick_find (suc fuel) key prev curr) m
        ≡ exec (quick_find fuel key curr (m.nodes curr).next) m
  unfolding quick_find load_next load_key perform
  quick_find-pass short = ground (arith, get_ref_sound curr sound)

pub quick_find-Sought :
    (fuel : ℕ) (m : Memory) {tail curr : Ptr} (q : Cell) (cs : List Cell) (key : Key)
    → At m.nodes tail q curr cs
    → has key cs ≡ false
    → length cs < fuel
    → q.key < key
    → key < int_max
    → Returns (Sought m tail key q cs) (exec (quick_find fuel key q.ptr curr) m)
quick_find-Sought zero m q cs key here new lt above small = absurd (omega arith)
quick_find-Sought (suc fuel) m {tail} {curr} q [] key here new lt above small =
    let e = Seg-end here.seg in
    let at_key = ap (λ x. (m.nodes x).key) e ∙ here.end.key_eq in
    let (same, found) = stopped {m = m} key here above tt in
    rw
      (quick_find-stop fuel m key q.ptr curr (rw e here.end.sound) (rw e here.end.state)
        (ground (arith, at_key)) (ground (arith, at_key)))
      (returns (refl, found.0))
quick_find-Sought (suc fuel) m {tail} {curr} q (c ∷ cs) key here new lt above small =
    let held = Seg-held here.seg in
    let rest = Seg-tail here.seg in
    let state = get_state_sound _ (Seg-sound cs here.end.sound rest) in
    let at_c = rw (Seg-head here.seg) at here in
    rw (Seg-head here.seg) (elim (Bool-cases (ltb c.key key)) [
      | inl short ↦
          rw (quick_find-pass fuel m key q.ptr c.ptr held.sound state (rw held.key_eq short)) (
            Returns-mono
              (quick_find-Sought fuel m c cs key
                (record { held = held; next = refl; seg = rest; up = here.up.1; end = here.end })
                (ground (arith, new)) (omega arith) (ground arith) small)
              λ found m' (same, f).
                let whole =
                  passed {m = m} key (found.0, found.1, State.inserted) here (Seg-head here.seg)
                    (same, (f, refl)) in
                (whole.0, whole.1.0))
      | inr reached ↦
          let (same, found) = stopped {m = m} key at_c above (ground (arith, reached)) in
          rw
            (quick_find-stop fuel m key q.ptr c.ptr held.sound state (rw held.key_eq reached)
              (rw held.key_eq (ground (arith, new))))
            (returns (refl, found.0))
    ])
