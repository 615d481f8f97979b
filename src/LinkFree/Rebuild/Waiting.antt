-- ===== src/LinkFree/Rebuild/Waiting.antt =====
-- What recovery needs of all the objects that it has not come to, and how a step keeps that.
use efficient_lock_free_dura.Common.{
  ◌≡◌, ◌≢◌, sym, refl, true, List, [], ◌∷◌, All, Bool-cases, inl, inr, arith,
}
use efficient_lock_free_dura.LinkFree.Memory.{Ptr, Node, Memory}
use efficient_lock_free_dura.LinkFree.Shape.{Cell}
use efficient_lock_free_dura.LinkFree.Insert.Link.{new_cell}
use efficient_lock_free_dura.LinkFree.Cells.{has-insert_cell, Outside-insert_cell}
use efficient_lock_free_dura.LinkFree.Shape.{kept}
use efficient_lock_free_dura.LinkFree.Rebuild.Ready.{add_cell, IsReady, Stepped}

-- Two objects at different addresses, that `recover` does not insert with the same key.
abbrev pub Apart : (Ptr → Node) → Ptr → Ptr → Type 0
Apart nodes p q =
    (q ≢ p) × (kept (nodes p) ≡ true → kept (nodes q) ≡ true → (nodes p).key ≢ (nodes q).key)

abbrev pub Image : (Ptr → Node) → (head tail : Ptr) → List Cell → List Ptr → Type 0
Image nodes head tail cs [] = Unit
Image nodes head tail cs (p ∷ ps) =
    IsReady nodes head tail cs p × (All (Apart nodes p) ps × Image nodes head tail cs ps)

module _ {m m' : Memory} {head tail : Ptr} {cs : List Cell} {p : Ptr}
    (s : Stepped m head tail cs p tt m') where
  untouched :
      (q : Ptr) → Apart m.cached p q → IsReady m.cached head tail cs q → m'.cached q ≡ m.cached q
  untouched q apart ready = s.outside q apart.0 ready.outside

  step-IsReady :
      (q : Ptr)
      → Apart m.cached p q
      → IsReady m.cached head tail cs q
      → IsReady m'.cached head tail (add_cell m.cached p cs) q
  step-IsReady q apart ready =
      let same = untouched q apart ready in
      record {
        sound = ready.sound;
        ne_tail = ready.ne_tail;
        outside = (
          ready.outside.0,
          elim (Bool-cases (kept (m.cached p))) [
            | inl keep ↦ rw keep (
                Outside-insert_cell q (new_cell p (m.cached p).key) cs (λ e. apart.0 (sym e))
                  ready.outside.1)
            | inr out ↦ rw out ready.outside.1
          ],
        );
        byte = rw same ready.byte;
        undeleted = rw same ready.undeleted;
        above = rw same ready.above;
        small = rw same ready.small;
        new = rw same (λ keep_q. elim (Bool-cases (kept (m.cached p))) [
          | inl keep ↦
              rw (keep, has-insert_cell (m.cached q).key (new_cell p (m.cached p).key) cs refl)
                (ground (arith, apart.1 keep keep_q, ready.new keep_q))
          | inr out ↦ rw out (ready.new keep_q)
        ]);
      }

  step-Apart :
      (q : Ptr) (rs : List Ptr)
      → m'.cached q ≡ m.cached q
      → All (λ r. m'.cached r ≡ m.cached r) rs
      → All (Apart m.cached q) rs
      → All (Apart m'.cached q) rs
  step-Apart q [] same sames all = tt
  step-Apart q (r ∷ rs) same (same_r, sames) (a, all) =
      (rw (same, same_r) a, step-Apart q rs same sames all)

  pub step-same :
      (qs : List Ptr)
      → All (Apart m.cached p) qs
      → Image m.cached head tail cs qs
      → All (λ q. m'.cached q ≡ m.cached q) qs
  step-same [] aparts image = tt
  step-same (q ∷ qs) (apart, aparts) (ready, (_, image)) =
      (untouched q apart ready, step-same qs aparts image)

  pub step-Image :
      (qs : List Ptr)
      → All (Apart m.cached p) qs
      → Image m.cached head tail cs qs
      → Image m'.cached head tail (add_cell m.cached p cs) qs
  step-Image [] aparts image = tt
  step-Image (q ∷ qs) (apart, aparts) (ready, (others, image)) = (
    step-IsReady q apart ready,
    (
      step-Apart q qs (untouched q apart ready) (step-same qs aparts image) others,
      step-Image qs aparts image,
    ),
  )
