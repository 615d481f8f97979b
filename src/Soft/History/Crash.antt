-- ===== src/Soft/History/Crash.antt =====
-- A crash between two calls, and `recovery` of SOFT/SOFTList.h on a new list: the list before the crash
-- and the one after recovery hold the same keys.
use efficient_lock_free_dura.Common.{
  ℕ, suc, ◌<◌, ◌≤◌, ◌≡◌, ◌≢◌, ◌∙◌, sym, ap, subst, fun_ext, refl, true, false, Option, some, none,
  List, [], ◌∷◌, All, member, members, Distinct, length, ==_iff, Bool-cases, inl, inr, arith,
}
use efficient_lock_free_dura.Common.Prog.{Returns, Returns-mono}
use efficient_lock_free_dura.Common.Objects.{objects}
use efficient_lock_free_dura.SetSpec.{Call, Keys, answers, final_set, run_calls}
use efficient_lock_free_dura.Soft.Memory.{
  Ptr, nullptr, Key, PNode, Memory, is_wild, exec, perform, write,
}
use efficient_lock_free_dura.Soft.Utilities.{get_state}
use efficient_lock_free_dura.Soft.PersistentNode.{is_valid, is_deleted}
use efficient_lock_free_dura.Soft.PersistentNode.Lifecycle.{recovered, repaired}
use efficient_lock_free_dura.Soft.List.{construct, volatile_node, int_min, int_max}
use efficient_lock_free_dura.Soft.Recovery.{crash, recovery}
use efficient_lock_free_dura.Soft.Commands.{write_self, write_ne}
use efficient_lock_free_dura.Soft.Shape.{Cell, nil, At, Ascends, Ascends-max, has, lists}
use efficient_lock_free_dura.Soft.Cells.{lists_unique, lists-has}
use efficient_lock_free_dura.Soft.Invariant.{IsSpare, head_cell, has_durable}
use efficient_lock_free_dura.Soft.Rebuild.{Recovered, soft_recovery-Recovered}
use efficient_lock_free_dura.Soft.Rebuild.Step.{is_key, broken, IsReady}
use efficient_lock_free_dura.Soft.Rebuild.Waiting.{Apart, Image, carries}
use efficient_lock_free_dura.Soft.History.{
  Serving, keys_of, InRange, run_call, soft_history-Refines,
}
use efficient_lock_free_dura.Soft.History.State.{Usable}

-- The sentinels: the head is linked to the tail.
pub construct-At :
    (m : Memory) (min max : Ptr)
    → is_wild min ≡ false
    → is_wild max ≡ false
    → min ≢ max
    → (let m' = construct min max m in At m'.nodes max (head_cell min) (m'.nodes min).next [])
unfolding construct get_state
construct-At m min max sound_min sound_max ne =
    let last = volatile_node int_max 0 nullptr false in
    let first = record (volatile_node int_min 0 nullptr false) { next = max } in
    let at_min = write_self (write m.nodes max last) min first in
    let at_max =
      write_ne (write m.nodes max last) min first max (λ e. ne (sym e))
      ∙ write_self m.nodes max last in
    record {
      held = record { sound = sound_min; key_eq = rw at_min refl; pptr_eq = rw at_min refl };
      next = refl;
      seg = nil (rw at_min refl);
      up = omega arith;
      end = record { sound = sound_max; key_eq = rw at_max refl; state = rw at_max refl };
    }

lists-range :
    (x : Ptr) (k lo : Key) (cs : List Cell)
    → Ascends lo cs
    → lists x k cs ≡ true
    → (lo < k) × (k < int_max)
lists-range x k lo [] up l = cc
lists-range x k lo (c ∷ cs) (h, hs) l =
    ground (arith, lists-range x k c.key cs hs, Ascends-max c.key cs hs)

carries-some :
    (m : Memory) (k : Key) (ps : List Ptr)
    → carries m ps k ≡ true
    → (x : Ptr) × (member x ps ≡ true) × (is_key (recovered (m.cached x)) k ≡ true)
carries-some m k [] h = cc
carries-some m k (p ∷ ps) h = elim (Bool-cases (carries m ps k)) [
  | inl there ↦ let (x, inside, e) = carries-some m k ps there in (x, ground arith, e)
  | inr absent ↦ (p, ground (arith, ==_iff p p), ground arith)
]

carries-member :
    (m : Memory) (k : Key) (ps : List Ptr) (x : Ptr)
    → member x ps ≡ true
    → is_key (recovered (m.cached x)) k ≡ true
    → carries m ps k ≡ true
carries-member m k [] x h e = cc
carries-member m k (p ∷ ps) x h e = elim (Bool-cases (member x ps)) [
  | inl there ↦ ground (arith, carries-member m k ps x there e)
  | inr far ↦
      let at_p : p ≡ x = (==_iff _ _).0 (ground arith) in
      let e' = rw (sym at_p) at e in ground arith
]

broken-none : (n : PNode) → broken n ≡ true → recovered n ≡ none
broken-none n out = ground arith

-- The key that recovery would insert is that of the content.
is_key-kept :
    (n : PNode) (k : Key) → is_key (recovered n) k ≡ true → recovered n ≡ some (k, n.value)
is_key-kept n k e = elim (Bool-cases (broken n)) [
  | inl out ↦ absurd (clash (sym e ∙ rw (broken-none n out) refl))
  | inr keep ↦
      let at_k : n.key ≡ k = (==_iff _ _).0 (sym (ap (λ o. is_key o k) (carried keep)) ∙ e) in
      carried keep ∙ ap (λ j. pack j) at_k
]
  where
    clash : true ≡ false → ⊥
    clash h = cc

    pack : Key → Option (Key × ℕ)
    pack j = some (j, n.value)

    carried : broken n ≡ false → recovered n ≡ some (n.key, n.value)
    carried keep = ground arith

module _ {objs : List Ptr} {head tail : Ptr} {cs : List Cell} {m : Memory} (fresh : List Ptr)
    (u : Usable objs head tail cs m) (min max : Ptr) where
  abbrev m0 : Memory
  m0 = construct min max (crash objs fresh m)

  from_durable : (x : Ptr) → member x objs ≡ true → m0.cached x ≡ m.durable x
  unfolding crash construct
  from_durable x inside = ground arith

  covered : (x : Ptr) → broken (m0.cached x) ≡ false → member x objs ≡ true
  unfolding crash construct is_valid is_deleted
  covered x keep = ground arith

  settled : (x : Ptr) → recovered (m0.durable x) ≡ recovered (m0.cached x)
  unfolding crash construct
  settled x = refl

  tidy : (x : Ptr) → recovered (m0.durable x) ≡ none → is_deleted (repaired (m0.durable x)) ≡ true
  unfolding crash construct is_deleted
  tidy x e = elim (Bool-cases (member x objs)) [
    | inl inside ↦ rw inside (u.list.tidy x (rw inside at e))
    | inr out ↦ rw out refl
  ]

  -- An object that would be inserted is listed with its key.
  listed_durable :
      (x : Ptr) (k : Key) (v : ℕ) → recovered (m.durable x) ≡ some (k, v) → lists x k cs ≡ true
  listed_durable x k v e = u.list.owned x k v (sym (u.list.settled x) ∙ e)

  would_list :
      (x : Ptr)
      → member x objs ≡ true
      → broken (m0.cached x) ≡ false
      → lists x (m0.cached x).key cs ≡ true
  would_list x inside keep =
      listed_durable x (m0.cached x).key (m0.cached x).value
        (sym (ap recovered (from_durable x inside)) ∙ ground arith)

  in_range :
      (x : Ptr)
      → member x objs ≡ true
      → broken (m0.cached x) ≡ false
      → (int_min < (m0.cached x).key) × ((m0.cached x).key < int_max)
  in_range x inside keep =
      lists-range x (m0.cached x).key int_min cs u.list.here.up (would_list x inside keep)

  ready : (p : Ptr) → member p objs ≡ true → is_wild p ≡ false → IsReady m0 [] p
  ready p inside sound = record {
    sound = sound;
    tidy = λ out.
        rw (from_durable p inside)
          (u.list.tidy p (broken-none (m.durable p) (rw (from_durable p inside) at out)));
    above = λ keep. (in_range p inside keep).0;
    small = λ keep. (in_range p inside keep).1;
    new = λ keep. refl;
  }

  Apart-objects : (p q : Ptr) → member p objs ≡ true → member q objs ≡ true → q ≢ p → Apart m0 p q
  Apart-objects p q p_in q_in ne = (
    ne,
    λ keep_p keep_q same. ne (
        lists_unique q p (m0.cached q).key int_min cs u.list.here.up (would_list q q_in keep_q)
          (subst (λ k. lists p k cs ≡ true) same (would_list p p_in keep_p))),
  )

  aparts :
      (p : Ptr) (qs : List Ptr)
      → member p objs ≡ true
      → All (λ q. member q objs ≡ true) qs
      → All (λ q. q ≢ p) qs
      → All (Apart m0 p) qs
  aparts p [] p_in inside ne = tt
  aparts p (q ∷ qs) p_in (q_in, inside) (ne, nes) =
      (Apart-objects p q p_in q_in ne, aparts p qs p_in inside nes)

  image :
      (ps : List Ptr)
      → All (λ p. member p objs ≡ true) ps
      → All (λ p. is_wild p ≡ false) ps
      → Distinct ps
      → Image m0 [] ps
  image [] inside sound distinct = tt
  image (p ∷ ps) (p_in, inside) (sound_p, sound) (ne, distinct) =
      (ready p p_in sound_p, (aparts p ps p_in inside ne, image ps inside sound distinct))

  carries-has : (k : Key) → carries m0 objs k ≡ has k cs
  carries-has k = elim (Bool-cases (carries m0 objs k)) [
    | inl carried ↦
        let (x, inside, e) = carries-some m0 k objs carried in
        let kept = is_key-kept (m0.cached x) k e in
        carried
        ∙ sym (
            lists-has x k cs (
              listed_durable x k (m0.cached x).value
                (sym (ap recovered (from_durable x inside)) ∙ kept)))
    | inr uncarried ↦ elim (Bool-cases (has k cs)) [
      | inl there ↦
          let (x, v, e) = has_durable u.list there in
          let inside = u.within x k (listed_durable x k v e) in
          carries-member m0 k objs x inside (rw (from_durable x inside, e) ((==_iff k k).1 refl))
          ∙ sym there
      | inr absent ↦ uncarried ∙ sym absent
    ]
  ]

  Recovered-Serving :
      (walk : ℕ) {m' : Memory}
      → Recovered m0 min max objs tt m'
      → length objs < walk
      → Serving objs min max walk (keys_of cs) 0 m'
  unfolding construct crash
  Recovered-Serving walk {m'} r fuel = record {
    cells = r.cells;
    usable = record {
      list = r.list;
      within = r.within;
      spares = r.spares;
      distinct = r.distinct;
      frees = rw r.pnode_pool tt;
      pnode_distinct = rw r.pnode_pool tt;
      pnode_within = rw r.pnode_pool tt;
    };
    keys = fun_ext λ k. r.keys k ∙ carries-has k;
    fuel = omega (arith, r.longer);
    room = omega arith;
    pnode_room = omega arith;
  }

fresh_pool :
    (objs fresh : List Ptr) (m : Memory) (min max : Ptr)
    → (construct min max (crash objs fresh m)).node_pool ≡ fresh
unfolding construct crash
fresh_pool objs fresh m min max = refl

-- A crash between two calls of the SOFT list, the restart and recovery lose no key and bring none
-- back: the constructor makes a new list, `recovery` on it returns, with no `assert` failed and no
-- fault, and the list that it leaves holds exactly the keys that the list held when the crash
-- came, in the order that calls need and keep, with an allocator of persistent nodes that has none
-- yet. The conditions: the list was ready for calls; the objects of the chunks are at different
-- sound addresses; so are the new sentinels; the new allocator of volatile nodes has a spare node
-- for each object, at different addresses; and the fuel of the walk exceeds the number of objects.
pub crash-recovery :
    {head tail : Ptr} {walk budget : ℕ} {s : Keys} {m : Memory} (rounds walk' size count : ℕ)
    (chunks fresh : List Ptr) (min max : Ptr)
    → Serving (objects size count chunks) head tail walk s budget m
    → All (λ p. is_wild p ≡ false) (objects size count chunks)
    → Distinct (objects size count chunks)
    → is_wild min ≡ false
    → is_wild max ≡ false
    → min ≢ max
    → All (IsSpare min max []) fresh
    → Distinct fresh
    → length (objects size count chunks) ≤ length fresh
    → length (objects size count chunks) < walk'
    → Returns
        (λ u m'. Serving (objects size count chunks) min max walk' s 0 m')
        (exec
          (recovery (suc rounds) walk' min size count chunks)
          (construct min max (crash (objects size count chunks) fresh m)))
crash-recovery {m} rounds walk' size count chunks fresh min max v sound distinct sound_min sound_max
      ne spares fresh_distinct room fuel =
    let objs = objects size count chunks in
    let u = v.usable in
    let pool = fresh_pool objs fresh m min max in
    Returns-mono
      (soft_recovery-Recovered rounds walk' size count chunks
        (construct-At (crash objs fresh m) min max sound_min sound_max ne) (rw pool spares)
        (rw pool fresh_distinct) (settled fresh u min max) (tidy fresh u min max)
        (covered fresh u min max) (image fresh u min max objs (members objs) sound distinct)
        (rw pool room) fuel)
      λ a m' r.
        subst (λ t. Serving objs min max walk' t 0 m') v.keys
          (Recovered-Serving fresh u min max walk' r fuel)

-- Any sequence of calls of the SOFT list by one thread on a list that was ready, then a crash, the
-- restart and recovery: the calls were answered as a mathematical set answers them, and the new
-- list holds exactly the keys of the set after the calls, in the order that calls need and keep,
-- with an allocator of persistent nodes that has none yet; nothing faults or runs out of fuel. The
-- conditions: the keys of the calls lie strictly between those of the sentinels; the list was
-- ready, with a spare node and a free persistent node for each call and a walk longer than the
-- nodes and the calls together; the objects of the chunks are at different sound addresses, and so
-- are the new sentinels; after the restart there is a spare node for each object, at different
-- addresses; the fuel of the walk of recovery exceeds the number of objects, and that of the state
-- loops is two at least.
pub history-crash-recovery :
    {head tail : Ptr} {s : Keys} {m : Memory} (rounds walk walk' fuel size count : ℕ)
    (chunks fresh : List Ptr) (min max : Ptr) (calls : List Call)
    → All InRange calls
    → Serving (objects size count chunks) head tail walk s (length calls) m
    → All (λ p. is_wild p ≡ false) (objects size count chunks)
    → Distinct (objects size count chunks)
    → is_wild min ≡ false
    → is_wild max ≡ false
    → min ≢ max
    → All (IsSpare min max []) fresh
    → Distinct fresh
    → length (objects size count chunks) ≤ length fresh
    → length (objects size count chunks) < walk'
    → Returns
        (λ bs m'.
          (bs ≡ answers s calls)
          × Returns
              (λ u m''. Serving (objects size count chunks) min max walk' (final_set s calls) 0 m'')
              (exec
                (recovery (suc rounds) walk' min size count chunks)
                (construct min max (crash (objects size count chunks) fresh m'))))
        (exec (run_calls perform (run_call (suc rounds) walk (suc (suc fuel)) head) calls) m)
history-crash-recovery rounds walk walk' fuel size count chunks fresh min max calls range v sound
      distinct sound_min sound_max ne spares fresh_distinct room enough =
    Returns-mono (soft_history-Refines rounds walk fuel calls range v) λ bs m' (eq, w). (
      eq,
      crash-recovery rounds walk' size count chunks fresh min max w sound distinct sound_min
          sound_max ne spares fresh_distinct room enough,
    )
