-- ===== src/Soft/Rebuild/Waiting.antt =====
-- What recovery of a SOFT list needs of all the objects that it has not come to, and how a step keeps that.
use efficient_lock_free_dura.Common.{
  ◌≡◌, ◌≢◌, ◌∙◌, ap, refl, Bool, false, List, [], ◌∷◌, All, ◌||◌, Bool-cases, inl, inr, arith,
}
use efficient_lock_free_dura.Soft.Memory.{Ptr, Key, Memory}
use efficient_lock_free_dura.Soft.PersistentNode.Lifecycle.{recovered}
use efficient_lock_free_dura.Soft.Shape.{Cell}
use efficient_lock_free_dura.Soft.Rebuild.Step.{is_key, broken, IsReady, Stepped}

-- Two objects at different addresses, that `recovery` does not insert with the same key.
abbrev pub Apart : Memory → Ptr → Ptr → Type 0
Apart m p q =
    (q ≢ p)
    × (broken (m.cached p) ≡ false
        → broken (m.cached q) ≡ false
        → (m.cached p).key ≢ (m.cached q).key)

abbrev pub Image : Memory → List Cell → List Ptr → Type 0
Image m cs [] = Unit
Image m cs (p ∷ ps) = IsReady m cs p × (All (Apart m p) ps × Image m cs ps)

-- Some object with the key would be inserted by `recovery`.
abbrev pub carries : Memory → List Ptr → Key → Bool
carries m [] k = false
carries m (p ∷ ps) k = is_key (recovered (m.cached p)) k || carries m ps k

module _ {m m' : Memory} {head tail : Ptr} {cs : List Cell} {p : Ptr}
    (s : Stepped m head tail cs p tt m') where
  step-IsReady : (q : Ptr) → Apart m p q → IsReady m cs q → IsReady m' s.cells q
  step-IsReady q apart ready =
      let same = s.others q apart.0 in
      record {
        sound = ready.sound;
        tidy = rw same ready.tidy;
        above = rw same ready.above;
        small = rw same ready.small;
        new = rw same λ keep. elim (Bool-cases (broken (m.cached p))) [
          | inl out ↦ s.keys (m.cached q).key ∙ ground (arith, ready.new keep)
          | inr keep_p ↦
              s.keys (m.cached q).key ∙ ground (arith, ready.new keep, apart.1 keep_p keep)
        ];
      }

  pub step-same : (qs : List Ptr) → All (Apart m p) qs → All (λ q. m'.cached q ≡ m.cached q) qs
  step-same [] aparts = tt
  step-same (q ∷ qs) (apart, aparts) = (s.others q apart.0, step-same qs aparts)

  step-Apart :
      (q : Ptr) (rs : List Ptr)
      → m'.cached q ≡ m.cached q
      → All (λ r. m'.cached r ≡ m.cached r) rs
      → All (Apart m q) rs
      → All (Apart m' q) rs
  step-Apart q [] same sames all = tt
  step-Apart q (r ∷ rs) same (same_r, sames) (a, all) =
      (rw (same, same_r) a, step-Apart q rs same sames all)

  pub step-Image : (qs : List Ptr) → All (Apart m p) qs → Image m cs qs → Image m' s.cells qs
  step-Image [] aparts image = tt
  step-Image (q ∷ qs) (apart, aparts) (ready, (others, image)) = (
    step-IsReady q apart ready,
    (step-Apart q qs (s.others q apart.0) (step-same qs aparts) others, step-Image qs aparts image),
  )

pub carries-same :
    (m m' : Memory) (k : Key) (ps : List Ptr)
    → All (λ q. m'.cached q ≡ m.cached q) ps
    → carries m' ps k ≡ carries m ps k
carries-same m m' k [] all = refl
carries-same m m' k (p ∷ ps) (same, all) =
    rw same (ap (λ b. is_key (recovered (m.cached p)) k || b) (carries-same m m' k ps all))
