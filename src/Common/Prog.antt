-- ===== src/Common/Prog.antt =====
-- Programs over a shared memory: a tree of atomic operations, each with its answer, and its runs.
-- One text of an algorithm serves a run by one thread and the interleavings of several.
use mathlib.Core.Path.{◌≡◌, refl, ap, fun_ext}
use mathlib.Core.Option.{Option, none, some}
use mathlib.Core.List.{List, [], ◌∷◌}
use mathlib.Core.Bool.{Bool, true, false}
use efficient_lock_free_dura.Common.Tests.{if◌then◌else◌}

-- `stop` is a loop whose fuel is used up, `abort` an `assert` that fails or a division by zero.
pub data Prog (Op : Type 0) (Res : Op → Type 0) (A : Type 0) : Type 0 where
  ret : A → Prog Op Res A
  op : (o : Op) → (Res o → Prog Op Res A) → Prog Op Res A
  stop : Prog Op Res A
  abort : Prog Op Res A

module _ {Op : Type 0} {Res : Op → Type 0} where
  infixl 5 ◌>>=◌ ◌>>◌
  abbrev pub ◌>>=◌ : {A B : Type 0} → Prog Op Res A → (A → Prog Op Res B) → Prog Op Res B
  ret a >>= f = f a
  op o k >>= f = op o (λ r. k r >>= f)
  stop >>= f = stop
  abort >>= f = abort

  abbrev pub ◌>>◌ : {A B : Type 0} → Prog Op Res A → Prog Op Res B → Prog Op Res B
  m >> n = m >>= λ _. n

  abbrev pub atomic : (o : Op) → Prog Op Res (Res o)
  atomic o = op o ret

-- How a run ends. A fault is an access through a pointer that is no address of an object.
pub data Outcome (S A : Type 0) : Type 0 where
  done : A → S → Outcome S A
  fault : Outcome S A
  out_of_fuel : Outcome S A
  aborted : Outcome S A

-- What follows an atomic operation: a fault, or the rest with its answer.
abbrev pub follow : {R S A : Type 0} → Option (R × S) → (R → S → Outcome S A) → Outcome S A
follow none f = fault
follow (some (r, s)) f = f r s

module _ {Op : Type 0} {Res : Op → Type 0} {S : Type 0}
    (perform : (o : Op) → S → Option (Res o × S)) where
  abbrev pub run : {A : Type 0} → Prog Op Res A → S → Outcome S A
  run (ret a) s = done a s
  run (op o k) s = follow (perform o s) (λ r s'. run (k r) s')
  run stop s = out_of_fuel
  run abort s = aborted

-- The states before and after each atomic operation of a run, in order.
abbrev pub trace_rest : {R S : Type 0} → Option (R × S) → (R → S → List S) → List S
trace_rest none f = []
trace_rest (some (r, s)) f = f r s

module _ {Op : Type 0} {Res : Op → Type 0} {S : Type 0}
    (perform : (o : Op) → S → Option (Res o × S)) where
  abbrev pub trace : {A : Type 0} → Prog Op Res A → S → List S
  trace (ret a) s = s ∷ []
  trace (op o k) s = s ∷ trace_rest (perform o s) (λ r s'. trace (k r) s')
  trace stop s = s ∷ []
  trace abort s = s ∷ []

module _ {S A B : Type 0} where
  abbrev pub and_then : Outcome S A → (A → S → Outcome S B) → Outcome S B
  and_then (done a s) f = f a s
  and_then fault f = fault
  and_then out_of_fuel f = out_of_fuel
  and_then aborted f = aborted

pub bind_assoc :
    {Op : Type 0} {Res : Op → Type 0} {A B C : Type 0} (p : Prog Op Res A) (f : A → Prog Op Res B)
    (g : B → Prog Op Res C)
    → ((p >>= f) >>= g) ≡ (p >>= λ a. f a >>= g)
bind_assoc (ret a) f g = refl
bind_assoc (op o k) f g = ap (op o) (fun_ext λ r. bind_assoc (k r) f g)
bind_assoc stop f g = refl
bind_assoc abort f g = refl

module _ {Op : Type 0} {Res : Op → Type 0} {S A B : Type 0}
    (perform : (o : Op) → S → Option (Res o × S)) where
  pub run-bind :
      (p : Prog Op Res A) (f : A → Prog Op Res B) (s : S)
      → run perform (p >>= f) s ≡ and_then (run perform p s) (λ a s'. run perform (f a) s')
  run-bind (ret a) f s = refl
  run-bind (op o k) f s = go (λ a s'. run-bind (k a) f s') (perform o s)
    where
      go :
          ((a : Res o) (s' : S)
            → run perform (k a >>= f) s'
              ≡ and_then (run perform (k a) s') (λ b s''. run perform (f b) s''))
          → (r : Option (Res o × S))
          → follow r (λ a s'. run perform (k a >>= f) s')
            ≡ and_then (follow r (λ a s'. run perform (k a) s')) (λ a s'. run perform (f a) s')
      go ih none = refl
      go ih (some (a, s')) = ih a s'
  run-bind stop f s = refl
  run-bind abort f s = refl

-- The run ends, with a result and a memory that satisfy P.
pub data Returns {S A : Type 0} (P : A → S → Type 0) : Outcome S A → Type 0 where
  returns : {a : A} {s : S} → P a s → Returns P (done a s)

pub Returns-mono :
    {S A : Type 0} {P Q : A → S → Type 0} {r : Outcome S A}
    → Returns P r
    → ((a : A) (s : S) → P a s → Q a s)
    → Returns Q r
Returns-mono (returns p) weaken = returns (weaken _ _ p)

-- The rule for a sequence of two programs.
pub Returns-bind :
    {Op : Type 0} {Res : Op → Type 0} {S A B : Type 0} {P : A → S → Type 0} {Q : B → S → Type 0}
    (perform : (o : Op) → S → Option (Res o × S)) (p : Prog Op Res A) (f : A → Prog Op Res B)
    (s : S)
    → Returns P (run perform p s)
    → ((a : A) (s' : S) → P a s' → Returns Q (run perform (f a) s'))
    → Returns Q (run perform (p >>= f) s)
Returns-bind {Res} {S} {A} {P} {Q} perform p f s first next = rw (run-bind perform p f s) (go first)
  where
    go : {r : Outcome S A} → Returns P r → Returns Q (and_then r (λ a s'. run perform (f a) s'))
    go (returns h) = next _ _ h

-- A sequence whose rest ends in one way.
pub run-bind-same :
    {Op : Type 0} {Res : Op → Type 0} {S A B : Type 0} {P : A → S → Type 0} {end : Outcome S B}
    (perform : (o : Op) → S → Option (Res o × S)) (p : Prog Op Res A) (f : A → Prog Op Res B)
    (s : S)
    → Returns P (run perform p s)
    → ((a : A) (s' : S) → P a s' → run perform (f a) s' ≡ end)
    → run perform (p >>= f) s ≡ end
run-bind-same {Res} {S} {A} {P} {end} perform p f s first next =
    rw (run-bind perform p f s) (go first)
  where
    go : {r : Outcome S A} → Returns P r → and_then r (λ a s'. run perform (f a) s') ≡ end
    go (returns h) = next _ _ h

-- Each operation of the program satisfies P, whatever answers it gets on the way: a statement about its
-- runs among those of other threads.
module _ {Op : Type 0} {Res : Op → Type 0} (P : Op → Type 0) where
  abbrev pub Obeys : {A : Type 0} → Prog Op Res A → Type 0
  Obeys (ret a) = Unit
  Obeys (op o k) = P o × ((r : Res o) → Obeys (k r))
  Obeys stop = Unit
  Obeys abort = Unit

  pub Obeys-bind :
      {A B : Type 0} (p : Prog Op Res A) (f : A → Prog Op Res B)
      → Obeys p
      → ((a : A) → Obeys (f a))
      → Obeys (p >>= f)
  Obeys-bind (ret a) f first next = next a
  Obeys-bind (op o k) f (h, rest) next = (h, λ r. Obeys-bind (k r) f (rest r) next)
  Obeys-bind stop f first next = tt
  Obeys-bind abort f first next = tt

  pub Obeys-if :
      {A : Type 0} (b : Bool) (p q : Prog Op Res A) → Obeys p → Obeys q → Obeys (if b then p else q)
  Obeys-if true p q hp hq = hp
  Obeys-if false p q hp hq = hq

-- The same, with what is known of the answers, and with what the program's result then satisfies.
module _ {Op : Type 0} {Res : Op → Type 0} (P : Op → Type 0)
    (Possible : (o : Op) → Res o → Type 0) where
  abbrev pub Heeds : {A : Type 0} → (A → Type 0) → Prog Op Res A → Type 0
  Heeds Q (ret a) = Q a
  Heeds Q (op o k) = P o × ((r : Res o) → Possible o r → Heeds Q (k r))
  Heeds Q stop = Unit
  Heeds Q abort = Unit

  pub Heeds-bind :
      {A B : Type 0} (Q : A → Type 0) (R : B → Type 0) (p : Prog Op Res A) (f : A → Prog Op Res B)
      → Heeds Q p
      → ((a : A) → Q a → Heeds R (f a))
      → Heeds R (p >>= f)
  Heeds-bind Q R (ret a) f first next = next a first
  Heeds-bind Q R (op o k) f (h, rest) next =
      (h, λ r known. Heeds-bind Q R (k r) f (rest r known) next)
  Heeds-bind Q R stop f first next = tt
  Heeds-bind Q R abort f first next = tt

  pub Heeds-if :
      {A : Type 0} (Q : A → Type 0) (b : Bool) (p q : Prog Op Res A)
      → Heeds Q p
      → Heeds Q q
      → Heeds Q (if b then p else q)
  Heeds-if Q true p q hp hq = hp
  Heeds-if Q false p q hp hq = hq
