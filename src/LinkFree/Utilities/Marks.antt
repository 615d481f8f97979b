-- ===== src/LinkFree/Utilities/Marks.antt =====
-- What `mark`, `getRef` and `isMarked` of LinkFree/utilities.h do to each other.
use efficient_lock_free_dura.Common.{ℕ, ◌≡◌, true, false, arith}
use efficient_lock_free_dura.LinkFree.Utilities.{is_marked, get_ref, mark}

pub get_ref_of_unmarked : (p : ℕ) → is_marked p ≡ false → get_ref p ≡ p
unfolding is_marked get_ref
get_ref_of_unmarked p h = ground arith

pub is_marked-mark : (p : ℕ) → is_marked (mark p) ≡ true
unfolding is_marked mark
is_marked-mark p = ground arith

pub get_ref-mark : (p : ℕ) → is_marked p ≡ false → get_ref (mark p) ≡ p
unfolding is_marked mark
get_ref-mark p h = ground arith

pub is_marked-get_ref : (p : ℕ) → is_marked (get_ref p) ≡ false
unfolding is_marked get_ref
is_marked-get_ref p = ground arith
