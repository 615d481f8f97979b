-- ===== src/Common/Objects.antt =====
-- The objects of the chunks of an allocator, and a loop over them.
use Prim.Native.Nat.{ℕ, zero, suc, ◌+◌}
use mathlib.Core.Path.{◌≡◌, refl, sym, ap, ◌∙◌}
use mathlib.Core.List.{List, [], ◌∷◌, ◌++◌}
use efficient_lock_free_dura.Common.Prog.{Prog, ret, ◌>>◌, bind_assoc}

abbrev pub chunk_objects : (size count : ℕ) → ℕ → List ℕ
chunk_objects size zero p = []
chunk_objects size (suc count) p = p ∷ chunk_objects size count (p + size)

abbrev pub objects : (size count : ℕ) → List ℕ → List ℕ
objects size count [] = []
objects size count (chunk ∷ rest) = chunk_objects size count chunk ++ objects size count rest

module _ {Op : Type 0} {Res : Op → Type 0} (body : ℕ → Prog Op Res (Unit {0})) where
  abbrev pub each : List ℕ → Prog Op Res (Unit {0})
  each [] = ret tt
  each (p ∷ ps) = body p >> each ps

  pub each-append : (ps qs : List ℕ) → each (ps ++ qs) ≡ (each ps >> each qs)
  each-append [] qs = refl
  each-append (p ∷ ps) qs =
      ap (λ r. body p >> r) (each-append ps qs)
      ∙ sym (bind_assoc (body p) (λ u. each ps) (λ u. each qs))
