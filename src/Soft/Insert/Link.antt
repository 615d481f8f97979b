-- ===== src/Soft/Insert/Link.antt =====
-- The short commands of `insert` of SOFT/SOFTList.h, and what they leave in memory.
use efficient_lock_free_dura.Common.{
  ℕ, suc, ◌≡◌, ◌≢◌, ◌∙◌, sym, ap, refl, fun_ext, Bool, true, false, not, List, ◌∷◌, if◌then◌else◌,
  arith,
}
use efficient_lock_free_dura.Common.Prog.{done, atomic, run-bind, ◌>>=◌, ◌>>◌}
use efficient_lock_free_dura.Soft.Utilities.{State, create_ref}
use efficient_lock_free_dura.Soft.Memory.{
  Ptr, Key, Node, Memory, Cmd, is_wild, write, exec, perform, store, cas_next, load, alloc_pnode,
  free_node, free_pnode,
}
use efficient_lock_free_dura.Soft.PersistentNode
use efficient_lock_free_dura.Soft.List.{alloc_new_volatile_node, finish_insert, link_new, advance}
use efficient_lock_free_dura.Soft.Commands.{
  write_self, write_ne, write-write, with_pnode, created, alloc_lem, create_lem, load_lem,
  store_lem, cas_next_lem, alloc_pnode_lem,
}
use efficient_lock_free_dura.Soft.Shape.{get_ref_sound, get_state_sound, create_ref_sound}
use efficient_lock_free_dura.Soft.States.{with_next, advance_lem}

abbrev pub content : Key → ℕ → Ptr → Bool → Ptr → Node
content key value pptr p_validity next = record {
  key = key;
  value = value;
  pptr = pptr;
  p_validity = p_validity;
  next = next;
}

alloc_new_lem :
    (m : Memory) (n : Ptr) (rest : List Ptr) (key : Key) (value : ℕ) (pptr : Ptr) (v : Bool)
    → is_wild n ≡ false
    → m.node_pool ≡ n ∷ rest
    → exec (alloc_new_volatile_node key value pptr v) m
      ≡ done n (record m {
        node_pool = rest;
        nodes = write m.nodes n (content key value pptr v (m.nodes n).next);
      })
unfolding alloc_new_volatile_node perform
alloc_new_lem m n rest key value pptr v sound e = rw e (simp (sound, write_self, write-write))

-- After `finish_insert` of the node at `p`, linked to `next`.
abbrev pub finished : Memory → (p next : Ptr) → Memory
finished m p next =
    let n = m.nodes p in
    with_next (with_pnode m n.pptr (created (m.cached n.pptr) n.p_validity n.key n.value)) p next

pub finish_insert_lem :
    (m : Memory) (p next : Ptr) (fuel : ℕ) (result : Bool)
    → is_wild p ≡ false
    → is_wild next ≡ false
    → is_wild (m.nodes p).pptr ≡ false
    → (m.nodes p).next ≡ create_ref next State.intend_to_insert
    → exec (finish_insert (suc (suc fuel)) p result) m ≡ done result (finished m p next)
unfolding finish_insert
finish_insert_lem m p next fuel result sound sound_next sound_p e =
    let n = m.nodes p in
    let m' = with_pnode m n.pptr (created (m.cached n.pptr) n.p_validity n.key n.value) in
    run-bind perform (atomic (load p)) _ m
    ∙ rw
        (
          load_lem m p sound,
          run-bind perform (PersistentNode.create n.pptr n.key n.value n.p_validity) _ m,
          create_lem m n.pptr sound_p n.key n.value n.p_validity,
          run-bind perform (advance (suc (suc fuel)) p State.intend_to_insert State.inserted) _ m',
          advance_lem m' p next sound sound_next fuel State.intend_to_insert State.inserted e refl
              refl,
          create_ref_sound next sound_next,
        )
        refl

-- The validity that `PNode::alloc` gives to a persistent node.
abbrev pub validity : Memory → Ptr → Bool
validity m pn = not (m.cached pn).valid_start

-- The new node `n`, linked between `pred` and `next`.
abbrev pub linked_nodes :
    (Ptr → Node) → (n pn : Ptr) → Bool → (pred : Ptr) → Key → ℕ → Ptr → Ptr → Node
linked_nodes nodes n pn v pred key value next =
    write (write nodes n (content key value pn v next)) pred (record (nodes pred) { next = n })

module _ (m : Memory) (n pn : Ptr) (nrest prest : List Ptr) (pred curr : Ptr) (key : Key)
    (value : ℕ) where
  -- After a round of `insert` that linked the new node `n`, whose persistent node is `pn`.
  abbrev pub after_insert : Memory
  after_insert =
      with_pnode
        (record m {
          nodes = linked_nodes m.nodes n pn (validity m pn) pred key value curr;
          node_pool = nrest;
          pnode_pool = prest;
        })
        pn (created (m.cached pn) (validity m pn) key value)

  abbrev half_linked : Memory
  half_linked = record m {
    nodes =
        linked_nodes m.nodes n pn (validity m pn) pred key value
          (create_ref curr State.intend_to_insert);
    node_pool = nrest;
    pnode_pool = prest;
  }

  module _ (ne : pred ≢ n) where
    n_ne : n ≢ pred
    n_ne e = ne (sym e)

    at_new :
        (next : Ptr)
        → linked_nodes m.nodes n pn (validity m pn) pred key value next n
          ≡ content key value pn (validity m pn) next
    at_new next = write_ne _ pred _ n n_ne ∙ write_self m.nodes n _

    relinked :
        write
          (linked_nodes m.nodes n pn
            (validity m pn)
            pred
            key
            value
            (create_ref curr State.intend_to_insert))
          n
          (content key value pn (validity m pn) curr)
        ≡ linked_nodes m.nodes n pn (validity m pn) pred key value curr
    unfolding write
    relinked = fun_ext λ x. ground (arith, ne)

    finished_lem : finished half_linked n curr ≡ after_insert
    finished_lem = rw (at_new (create_ref curr State.intend_to_insert), relinked) refl

    pub link_new_lem :
        (fuel : ℕ) (again : Cmd Bool)
        → m.node_pool ≡ n ∷ nrest
        → m.pnode_pool ≡ pn ∷ prest
        → is_wild n ≡ false
        → is_wild pn ≡ false
        → is_wild pred ≡ false
        → is_wild curr ≡ false
        → (m.nodes pred).next ≡ curr
        → exec (link_new (suc (suc fuel)) key value pred curr again) m ≡ done true after_insert
    unfolding link_new
    link_new_lem fuel again pool ppool sound sound_p sound_pred sound_curr at_curr =
        let v = validity m pn in
        let m1 = record m { pnode_pool = prest } in
        rw
          (
            run-bind perform (atomic alloc_pnode) _ m,
            alloc_pnode_lem m pn prest ppool,
            run-bind perform (PersistentNode.alloc pn) _ m1,
            alloc_lem m1 pn sound_p,
            run-bind perform (alloc_new_volatile_node key value pn v) _ m1,
            alloc_new_lem m1 n nrest key value pn v sound pool,
            get_ref_sound curr sound_curr,
            get_state_sound curr sound_curr,
          )
          (stored ∙ published)
      where
        m2 : Memory
        m2 = record m {
          pnode_pool = prest;
          node_pool = nrest;
          nodes = write m.nodes n (content key value pn (validity m pn) (m.nodes n).next);
        }

        next : Ptr
        next = create_ref curr State.intend_to_insert

        m3 : Memory
        m3 = record m2 { nodes = write m.nodes n (content key value pn (validity m pn) next) }

        finish : Bool → Cmd Bool
        finish won =
            if won
            then finish_insert (suc (suc fuel)) n true
            else atomic (free_node n) >> (atomic (free_pnode pn) >> again)

        publish : Cmd Bool
        publish = atomic (cas_next pred curr (create_ref n State.inserted)) >>= finish

        stored :
            exec (atomic (store n λ x. record x { next = next }) >> publish) m2 ≡ exec publish m3
        stored =
            run-bind perform (atomic (store n λ x. record x { next = next })) (λ u. publish) m2
            ∙ rw
                (
                  store_lem m2 n sound λ x. record x { next = next },
                  write_self m.nodes n (content key value pn (validity m pn) (m.nodes n).next),
                  write-write m.nodes n (content key value pn (validity m pn) (m.nodes n).next)
                      (content key value pn (validity m pn) next),
                )
                refl

        at_pred : (m3.nodes pred) ≡ m.nodes pred
        at_pred = write_ne m.nodes n _ pred ne

        published : exec publish m3 ≡ done true after_insert
        published =
            run-bind perform (atomic (cas_next pred curr (create_ref n State.inserted))) finish m3
            ∙ rw
                (
                  cas_next_lem m3 pred sound_pred curr (create_ref n State.inserted)
                      (ap (λ x. x.next) at_pred ∙ at_curr),
                  create_ref_sound n sound,
                  at_pred,
                )
                (finish_insert_lem half_linked n curr fuel true sound sound_curr
                    (ap (λ x. is_wild x.pptr) (at_new next) ∙ sound_p)
                    (ap (λ x. x.next) (at_new next))
                  ∙ ap (λ x. done true x) finished_lem)
