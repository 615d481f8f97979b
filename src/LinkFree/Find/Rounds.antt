-- ===== src/LinkFree/Find/Rounds.antt =====
-- One round of the loop of `find`, in each of its three cases.
use efficient_lock_free_dura.Common.{ℕ, suc, ◌≡◌, true, false, leb, ◌∙◌, ==_iff, arith}
use efficient_lock_free_dura.Common.Prog.{◌>>=◌, ◌>>◌, run-bind, done}
use efficient_lock_free_dura.LinkFree.Memory.{Ptr, Key, Memory, is_wild, Cmd, exec, perform}
use efficient_lock_free_dura.LinkFree.Utilities.{is_marked, get_ref}
use efficient_lock_free_dura.LinkFree.List.{load_next, load_key, trim, find_loop}
use efficient_lock_free_dura.LinkFree.Commands.{
  after_flush_delete, detached, trim_lem, load_next_lem,
}

module _ (fuel : ℕ) (m : Memory) (key : Key) (prev curr : Ptr) (sound : is_wild curr ≡ false) where
  pub find_loop-stop :
      is_marked (m.cached curr).next ≡ false
      → leb key (m.cached curr).key ≡ true
      → exec (find_loop (suc fuel) key prev curr) m ≡ done (prev, curr) m
  unfolding find_loop load_next load_key perform
  find_loop-stop unmarked reached = ground arith

  pub find_loop-pass :
      is_marked (m.cached curr).next ≡ false
      → leb key (m.cached curr).key ≡ false
      → exec (find_loop (suc fuel) key prev curr) m
        ≡ exec (find_loop fuel key curr (get_ref (m.cached curr).next)) m
  unfolding find_loop load_next load_key perform
  find_loop-pass unmarked reached = ground arith

  abbrev after_trim : Memory
  after_trim = detached (after_flush_delete m curr) prev curr

  abbrev go_on : Cmd (Ptr × Ptr)
  go_on = load_next curr >>= λ next. find_loop fuel key prev (get_ref next)

  enter :
      is_marked (m.cached curr).next ≡ true
      → exec (find_loop (suc fuel) key prev curr) m ≡ exec (trim prev curr >> go_on) m
  unfolding find_loop load_next perform
  enter marked = ground arith

  trimmed :
      is_wild prev ≡ false
      → ((after_flush_delete m curr).cached prev).next ≡ curr
      → exec (trim prev curr) m ≡ done true after_trim
  trimmed sound_prev linked = trim_lem m prev curr sound_prev sound ∙ rw ((==_iff _ _).1 linked)

  leave :
      exec go_on after_trim
      ≡ exec (find_loop fuel key prev (get_ref (after_trim.cached curr).next)) after_trim
  leave = run-bind perform (load_next curr) _ after_trim ∙ rw (load_next_lem after_trim curr sound)

  pub find_loop-trim :
      is_marked (m.cached curr).next ≡ true
      → is_wild prev ≡ false
      → ((after_flush_delete m curr).cached prev).next ≡ curr
      → exec (find_loop (suc fuel) key prev curr) m ≡ (
          let m' = detached (after_flush_delete m curr) prev curr in
          exec (find_loop fuel key prev (get_ref (m'.cached curr).next)) m')
  find_loop-trim marked sound_prev linked =
      enter marked
      ∙ run-bind perform (trim prev curr) (λ _. go_on) m
      ∙ rw (trimmed sound_prev linked) leave
