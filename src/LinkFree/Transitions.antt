-- ===== src/LinkFree/Transitions.antt =====
-- LinkFree/LinkFreeList.h: how the operations change the links, whatever other threads do meanwhile.
use efficient_lock_free_dura.Common.{ℕ, zero, suc, ◌≡◌, ◌⊎◌, inl, inr, Bool, false, not, leb, ◌==◌}
use efficient_lock_free_dura.Common.Prog.{Heeds, Heeds-bind, Heeds-if, atomic, ◌>>◌}
use efficient_lock_free_dura.LinkFree.Memory.{
  Ptr, Key, Op, Res, Cmd, is_wild, load, store, cas_next, free,
}
use efficient_lock_free_dura.LinkFree.Utilities.{is_valid, is_marked, get_ref}
use efficient_lock_free_dura.LinkFree.Utilities.Marks.{is_marked-get_ref, get_ref-mark}
use efficient_lock_free_dura.LinkFree.List
use efficient_lock_free_dura.LinkFree.Find.Step.{clean}

-- A compare-exchange expects an unmarked link, and puts in an unmarked one or the same with the mark.
abbrev pub Lawful : Op → Type 0
Lawful (cas_next p expected desired) =
    (is_marked expected ≡ false) × ((is_marked desired ≡ false) ⊎ (get_ref desired ≡ expected))
Lawful o = Unit

-- A load or a store has an answer only through a sound pointer.
abbrev pub Possible : (o : Op) → Res o → Type 0
Possible (load p) r = is_wild p ≡ false
Possible (store p f) r = is_wild p ≡ false
Possible o r = Unit

abbrev pub Any : {A : Type 0} → A → Type 0
Any a = Unit

make_valid-Heeds : (p : Ptr) → Heeds Lawful Possible Any (List.make_valid_of p)
unfolding List.make_valid_of
make_valid-Heeds p =
    (tt, λ n known. Heeds-if Lawful Possible Any (is_valid n.meta_data) _ _ tt (tt, λ u k. tt))

flush_delete-Heeds : (p : Ptr) → Heeds Lawful Possible Any (List.flush_delete p)
unfolding List.flush_delete
flush_delete-Heeds p =
    (tt, λ n known. Heeds-if Lawful Possible Any n.delete_flag _ _ tt (tt, λ u k. (tt, λ v l. tt)))

flush_insert-Heeds : (p : Ptr) → Heeds Lawful Possible Any (List.flush_insert p)
unfolding List.flush_insert
flush_insert-Heeds p =
    (tt, λ n known. Heeds-if Lawful Possible Any n.insert_flag _ _ tt (tt, λ u k. (tt, λ v l. tt)))

trim-Heeds :
    (pred curr : Ptr) → is_marked curr ≡ false → Heeds Lawful Possible Any (List.trim pred curr)
unfolding List.trim List.load_next
trim-Heeds pred curr clear =
    Heeds-bind Lawful Possible Any Any (List.flush_delete curr) _ (flush_delete-Heeds curr) λ u any.
      (
        tt,
        λ n known. (
          (clear, inl (is_marked-get_ref n.next)),
          λ result k. Heeds-if Lawful Possible Any result _ _ (tt, λ v l. tt) tt,
        ),
      )

abbrev Sound : Ptr × Ptr → Type 0
Sound found = is_wild found.1 ≡ false

find_loop-Heeds :
    (fuel : ℕ) (key : Key) (prev curr : Ptr)
    → Heeds Lawful Possible Sound (List.find_loop fuel key prev curr)
unfolding List.find_loop List.load_next List.load_key
find_loop-Heeds zero key prev curr = tt
find_loop-Heeds (suc fuel) key prev curr = (
  tt,
  λ n known.
      Heeds-if Lawful Possible Sound (is_marked n.next) _ _
        (Heeds-bind Lawful Possible Any Sound (List.trim prev curr) _
          (trim-Heeds prev curr (clean curr known))
          λ r any. (tt, λ n' k. find_loop-Heeds fuel key prev (get_ref n'.next)))
        (
          tt,
          λ n' k.
              Heeds-if Lawful Possible Sound (leb key n'.key) _ _ known
                (tt, λ n'' l. find_loop-Heeds fuel key curr (get_ref n''.next)),
        ),
)

find-Heeds :
    (fuel : ℕ) (head : Ptr) (key : Key) → Heeds Lawful Possible Sound (List.find fuel head key)
unfolding List.find List.load_next
find-Heeds fuel head key = (tt, λ n known. find_loop-Heeds fuel key head n.next)

alloc_node-Heeds :
    (key : Key) (value : ℕ) (next : Ptr)
    → Heeds Lawful Possible (λ p. is_wild p ≡ false) (List.alloc_node key value next)
unfolding List.alloc_node List.flip_v1_of
alloc_node-Heeds key value next = (
  tt,
  λ p k. (
    tt,
    λ n known.
        (tt, λ a ka. (tt, λ b kb. (tt, λ c kc. (tt, λ d kd. (tt, λ e ke. (tt, λ f kf. known)))))),
  ),
)

link_new-Heeds :
    (key : Key) (value : ℕ) (pred curr : Ptr) (again : Cmd Bool)
    → is_marked curr ≡ false
    → Heeds Lawful Possible Any again
    → Heeds Lawful Possible Any (List.link_new key value pred curr again)
unfolding List.link_new List.discard
link_new-Heeds key value pred curr again clear rest =
    Heeds-bind Lawful Possible (λ p. is_wild p ≡ false) Any (List.alloc_node key value curr) _
      (alloc_node-Heeds key value curr)
      λ p sound. (
        (clear, inl (clean p sound)),
        λ linked k.
            Heeds-if Lawful Possible Any linked _ _
              (Heeds-bind Lawful Possible Any Any (List.make_valid_of p) _ (make_valid-Heeds p)
                λ u any.
                  Heeds-bind Lawful Possible Any Any (List.flush_insert p) _ (flush_insert-Heeds p)
                    λ v l. tt)
              (
                tt,
                λ a ka.
                    Heeds-bind Lawful Possible Any Any (List.make_valid_of p >> atomic (free p)) _
                      (Heeds-bind Lawful Possible Any Any (List.make_valid_of p) _
                        (make_valid-Heeds p) λ u any. (tt, λ v l. tt))
                      λ u any. rest,
              ),
      )

insert-Heeds :
    (rounds walk : ℕ) (head : Ptr) (key : Key) (value : ℕ)
    → Heeds Lawful Possible Any (List.insert rounds walk head key value)
unfolding List.insert List.insert_at List.load_key
insert-Heeds zero walk head key value = tt
insert-Heeds (suc rounds) walk head key value =
    Heeds-bind Lawful Possible Sound Any (List.find walk head key) _ (find-Heeds walk head key)
      λ found sound. (
        tt,
        λ n known.
            Heeds-if Lawful Possible Any (n.key == key) _ _
              (Heeds-bind Lawful Possible Any Any (List.make_valid_of found.1) _
                (make_valid-Heeds found.1)
                λ u any.
                  Heeds-bind Lawful Possible Any Any (List.flush_insert found.1) _
                    (flush_insert-Heeds found.1) λ v l. tt)
              (link_new-Heeds key value found.0 found.1 (List.insert rounds walk head key value)
                (clean found.1 sound) (insert-Heeds rounds walk head key value)),
      )

remove-Heeds :
    (rounds walk : ℕ) (head : Ptr) (key : Key)
    → Heeds Lawful Possible Any (List.remove rounds walk head key)
unfolding List.remove List.remove_at List.load_key List.load_next
remove-Heeds zero walk head key = tt
remove-Heeds (suc rounds) walk head key =
    Heeds-bind Lawful Possible Sound Any (List.find walk head key) _ (find-Heeds walk head key)
      λ found sound. (
        tt,
        λ n known. Heeds-if Lawful Possible Any (not (n.key == key)) _ _ tt (
          tt,
          λ x k.
              Heeds-bind Lawful Possible Any Any (List.make_valid_of found.1) _
                (make_valid-Heeds found.1)
                λ u any. (
                  (
                    is_marked-get_ref x.next,
                    inr (get_ref-mark (get_ref x.next) (is_marked-get_ref x.next)),
                  ),
                  λ won l.
                      Heeds-if Lawful Possible Any won _ _
                        (Heeds-bind Lawful Possible Any Any (List.trim found.0 found.1) _
                          (trim-Heeds found.0 found.1 (clean found.1 sound)) λ v w. tt)
                        (remove-Heeds rounds walk head key),
                ),
        ),
      )

-- Whatever other threads do meanwhile, each compare-exchange that `insert` or `remove` tries on a link
-- expects an unmarked link, so that a marked link stays as it is; and it puts in an unmarked link, or
-- the one that it expects with the mark set. What is known of the answers is that an access through a null or
-- marked pointer has none.
pub operations-Heeds :
    (rounds walk : ℕ) (head : Ptr) (key : Key) (value : ℕ)
    → Heeds Lawful Possible Any (List.insert rounds walk head key value)
      × Heeds Lawful Possible Any (List.remove rounds walk head key)
operations-Heeds rounds walk head key value =
    (insert-Heeds rounds walk head key value, remove-Heeds rounds walk head key)
