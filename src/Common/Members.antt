-- ===== src/Common/Members.antt =====
-- Lists of addresses: membership, and lists without repetition.
use Prim.Native.Nat.{ℕ}
use mathlib.Core.Path.{◌≡◌}
use mathlib.Core.Logic.{◌≢◌}
use mathlib.Core.Bool.{Bool, true, false, ◌||◌}
use mathlib.Core.List.{List, [], ◌∷◌}
use native.Mathlib.Omega.{arith}
use efficient_lock_free_dura.Common.Tests.{◌==◌, ==_iff, All}

abbrev pub member : ℕ → List ℕ → Bool
member x [] = false
member x (p ∷ ps) = p == x || member x ps

abbrev pub Distinct : List ℕ → Type 0
Distinct [] = Unit
Distinct (p ∷ ps) = All (λ q. q ≢ p) ps × Distinct ps

pub everywhere : {P : ℕ → Type 0} (ps : List ℕ) → ((p : ℕ) → P p) → All P ps
everywhere [] f = tt
everywhere (p ∷ ps) f = (f p, everywhere ps f)

-- Each object is one of the objects.
module _ (all : List ℕ) where
  members_of :
      (ps : List ℕ)
      → ((x : ℕ) → member x ps ≡ true → member x all ≡ true)
      → All (λ p. member p all ≡ true) ps
  members_of [] sub = tt
  members_of (p ∷ ps) sub =
      (sub p (ground (arith, ==_iff p p)), members_of ps λ x inside. sub x (ground arith))

  pub members : All (λ p. member p all ≡ true) all
  members = members_of all λ x inside. inside
