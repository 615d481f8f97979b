-- ===== src/LinkFree/Insert/Link.antt =====
-- The chain after the new node has been linked behind the place where the search stopped.
use efficient_lock_free_dura.Common.{
  ℕ, ◌<◌, ◌≡◌, ◌≢◌, ◌∙◌, sym, ap, refl, true, false, List, [], ◌∷◌, ◌++◌, All, arith,
}
use efficient_lock_free_dura.LinkFree.Memory.{Ptr, Key, Node, is_wild, write}
use efficient_lock_free_dura.LinkFree.Utilities.{is_valid, is_marked, get_ref}
use efficient_lock_free_dura.LinkFree.Utilities.Marks.{get_ref_of_unmarked}
use efficient_lock_free_dura.LinkFree.List.{int_max}
use efficient_lock_free_dura.LinkFree.Shape.{
  Cell, Holds, cons, Ascends, IsTail, Outside, write_self, write_ne, Seg-write, Holds-write, has,
}
use efficient_lock_free_dura.LinkFree.Find.Step.{
  At, Seg-sound, clean, IsTail-write, Holds-relink, linked_to, Outside-above,
}
use efficient_lock_free_dura.LinkFree.Find.Walk.{sweep, Reached}

abbrev pub new_cell : Ptr → Key → Cell
new_cell p key = record { ptr = p; key = key; marked = false }

-- The new node `p`, linked between `pred` and `curr`.
abbrev pub linked : (Ptr → Node) → (pred p : Ptr) → Node → Ptr → Node
linked nodes pred p n = let nodes' = write nodes p n in write nodes' pred (linked_to nodes' pred p)

pub All-append_left :
    (P : Cell → Type 0) (cs ds : List Cell) → All P (cs ++ ds) → All P cs × All P ds
All-append_left P [] ds h = (tt, h)
All-append_left P (c ∷ cs) ds (h, hs) =
    let both = All-append_left P cs ds hs in ((h, both.0), both.1)

pub Outside-sweep : (p : Ptr) (key : Key) (cs : List Cell) → Outside p cs → Outside p (sweep key cs)
Outside-sweep p key [] out = tt
Outside-sweep p key (c ∷ cs) (ne, out) = ground (arith, Outside-sweep p key cs out)

pub ne_of_below : (n : ℕ) (fs : List Cell) → All (λ d. d.key < n) fs → All (λ d. d.key ≢ n) fs
ne_of_below n [] below = tt
ne_of_below n (f ∷ fs) (h, below) = (omega arith, ne_of_below n fs below)

pub Ascends-Reached :
    (lo key : Key) (bs : List Cell)
    → Ascends lo bs
    → Reached key bs
    → has key bs ≡ false
    → key < int_max
    → Ascends key bs
Ascends-Reached lo key [] up reached miss small = small
Ascends-Reached lo key (b ∷ bs) (h, hs) (live, le) miss small = (ground arith, hs)

pub Ascends-replace :
    (lo n : Key) (r c : Cell) (fs bs : List Cell)
    → Ascends lo (fs ++ r ∷ bs)
    → r.key < c.key
    → Ascends c.key bs
    → Ascends lo (fs ++ r ∷ c ∷ bs)
Ascends-replace lo n r c [] bs (h, hs) lt up = (h, (lt, up))
Ascends-replace lo n r c (f ∷ fs) bs (h, hs) lt up = (h, Ascends-replace f.key n r c fs bs hs lt up)

module _ {nodes : Ptr → Node} {tail curr : Ptr} {r : Cell} {bs : List Cell} (p : Ptr) (n : Node)
    (here : At nodes tail r curr bs) (sound : is_wild p ≡ false) (r_ne_p : r.ptr ≢ p)
    (tail_ne_p : tail ≢ p) (bs_out : Outside p bs) (next : n.next ≡ curr)
    (fresh : n.delete_flag ≡ false) (flushed : n.insert_flag ≡ true → is_valid n.meta_data ≡ true)
    (byte : n.meta_data < 256) where
  with_new : Ptr → Node
  with_new = write nodes p n

  p_ne_r : p ≢ r.ptr
  p_ne_r e = r_ne_p (sym e)

  curr_sound : is_wild curr ≡ false
  curr_sound = Seg-sound here.seg here.end.sound

  new-Holds : Holds with_new (new_cell p n.key)
  unfolding with_new
  new-Holds =
      let self = write_self nodes p n in
      record {
        sound = sound;
        key_eq = rw self refl;
        mark_eq = rw (self, next) (clean curr curr_sound);
        byte = rw self byte;
        valid_of_marked = λ dead. cc;
        undeleted = λ live. rw self fresh;
        inserted = rw self flushed;
      }

  r_out : Outside r.ptr bs
  r_out = Outside-above r.ptr r.key here.seg here.up here.held.key_eq

  new_next : get_ref (linked nodes r.ptr p n p).next ≡ curr
  unfolding with_new
  new_next =
      ap (λ x. get_ref x.next) (write_ne with_new r.ptr (linked_to with_new r.ptr p) p p_ne_r)
      ∙ ap (λ x. get_ref x.next) (write_self nodes p n)
      ∙ ap get_ref next
      ∙ get_ref_of_unmarked curr (clean curr curr_sound)

  old_mark : is_marked (with_new r.ptr).next ≡ false
  unfolding with_new
  old_mark =
      ap (λ x. is_marked x.next) (write_ne nodes p n r.ptr r_ne_p) ∙ here.held.mark_eq ∙ here.live

  linked-IsTail : IsTail (linked nodes r.ptr p n) tail
  unfolding with_new
  linked-IsTail =
      IsTail-write r.ptr (linked_to with_new r.ptr p) refl (clean p sound ∙ sym old_mark) (record {
        sound = here.end.sound;
        key_eq = ap (λ x. x.key) (write_ne nodes p n tail tail_ne_p) ∙ here.end.key_eq;
        unmarked =
            ap (λ x. is_marked x.next) (write_ne nodes p n tail tail_ne_p) ∙ here.end.unmarked;
      })

  pub linked-At :
      r.key < n.key
      → Ascends n.key bs
      → At (linked nodes r.ptr p n) tail r p (new_cell p n.key ∷ bs)
  unfolding with_new
  linked-At lt up =
      let content = linked_to with_new r.ptr p in
      record {
        held = Holds-relink p here.live (clean p sound) (Holds-write p n r_ne_p here.held);
        live = here.live;
        next = ap (λ x. x.next) (write_self with_new r.ptr content);
        seg =
            cons refl (Holds-write r.ptr content p_ne_r new-Holds)
              (rw new_next (Seg-write r.ptr content (Seg-write p n here.seg bs_out) r_out));
        up = (lt, up);
        end = linked-IsTail;
      }
