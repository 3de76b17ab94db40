-- ===== src/Proc/Rules.antt =====
-- Reasoning about handlers, whatever the other requests do between their steps: what every atomic
-- step does to the state, and what every result says. The rules serve `search`.
use delivery_plus.Prelude.{
  List, [], ◌∷◌, ◌≡◌, refl, Bool, true, false, Option, none, some, if◌then◌else◌,
}
use delivery_plus.Shared.Errors.{Error}
use delivery_plus.Proc.{
  Proc, done, act, Result, ok, err, catch, ◌>>=◌, ◌>>◌, or_throw, throw_if, when, gets, request,
  run,
}

-- Each step takes the state that it meets to a state related to it by `G`.
pub data Guarantees {S A : Type 0} (G : S → S → Type 0) : Proc S A → Type 0 where
  at_end : (r : Result A) → Guarantees G (done r)
  at_step :
      {u : S → S} {k : S → Proc S A}
      → ((s : S) → G s (u s))
      → ((s : S) → Guarantees G (k s))
      → Guarantees G (act u k)

module _ {S A B : Type 0} {G : S → S → Type 0} where
  pub Guarantees-bind :
      {p : Proc S A} {f : A → Proc S B}
      → Guarantees G p
      → ((a : A) → Guarantees G (f a))
      → Guarantees G (p >>= f)
  unfolding ◌>>=◌
  Guarantees-bind (at_end (ok a)) k = k a
  Guarantees-bind (at_end (err e)) k = at_end (err e)
  Guarantees-bind (at_step h hs) k = at_step h (λ s. Guarantees-bind (hs s) k)

  pub Guarantees-option :
      (o : Option A) {p : Proc S B} {f : A → Proc S B}
      → Guarantees G p
      → ((a : A) → Guarantees G (f a))
      → Guarantees G (elim o [ none ↦ p | some a ↦ f a ])
  Guarantees-option none h k = h
  Guarantees-option (some a) h k = k a

module _ {S A : Type 0} {G : S → S → Type 0} where
  pub Guarantees-catch :
      {handle : Error → Proc S A} {p : Proc S A}
      → Guarantees G p
      → ((e : Error) → Guarantees G (handle e))
      → Guarantees G (catch handle p)
  unfolding catch
  Guarantees-catch (at_end (ok a)) k = at_end (ok a)
  Guarantees-catch (at_end (err e)) k = k e
  Guarantees-catch (at_step h hs) k = at_step h (λ s. Guarantees-catch (hs s) k)

  pub Guarantees-or_throw : (e : Error) (o : Option A) → Guarantees G (or_throw {S = S} e o)
  unfolding or_throw
  Guarantees-or_throw e none = at_end (err e)
  Guarantees-or_throw e (some a) = at_end (ok a)

  -- Each branch may use its test.
  pub Guarantees-if :
      (b : Bool) {p q : Proc S A}
      → (b ≡ true → Guarantees G p)
      → (b ≡ false → Guarantees G q)
      → Guarantees G (if b then p else q)
  Guarantees-if true h k = h refl
  Guarantees-if false h k = k refl

module _ {S : Type 0} {G : S → S → Type 0} where
  pub Guarantees-throw_if : (b : Bool) (e : Error) → Guarantees G (throw_if {S = S} b e)
  unfolding throw_if
  Guarantees-throw_if true e = at_end (err e)
  Guarantees-throw_if false e = at_end (ok tt)

  pub Guarantees-when :
      (b : Bool) {p : Proc S (Unit {0})} → Guarantees G p → Guarantees G (when b p)
  unfolding when
  Guarantees-when true h = h
  Guarantees-when false h = at_end (ok tt)

-- A check, and what follows it, which may use that the check passed.
pub Guarantees-checked :
    {S A : Type 0} {G : S → S → Type 0} (b : Bool) (e : Error) {p : Proc S A}
    → (b ≡ false → Guarantees G p)
    → Guarantees G (throw_if {S = S} b e >> p)
unfolding ◌>>=◌ throw_if
Guarantees-checked true e h = at_end (err e)
Guarantees-checked false e h = h refl

-- Reading steps, where `G` is reflexive.
module _ {S A : Type 0} {G : S → S → Type 0} (G-refl : (s : S) → G s s) where
  pub Guarantees-gets : (f : S → A) → Guarantees G (gets f)
  unfolding gets
  Guarantees-gets f = at_step G-refl (λ s. at_end (ok (f s)))

  pub Guarantees-request : (f : S → Result A) → Guarantees G (request f)
  unfolding request
  Guarantees-request f = at_step G-refl (λ s. at_end (f s))

module _ {S : Type 0} (G : S → S → Type 0) where
  -- The other requests move by `G` too.
  abbrev pub Interferes : List (S → S) → Type 0
  Interferes [] = Unit
  Interferes (f ∷ fs) = ((s : S) → G s (f s)) × Interferes fs

  module _ (G-refl : (s : S) → G s s) (G-trans : (s t u : S) → G s t → G t u → G s u) where
    -- Then so does the whole run.
    pub run-Guarantees :
        {A : Type 0} {p : Proc S A} (others : List (S → S)) (s : S)
        → Guarantees G p
        → Interferes others
        → G s (run p others s).1
    run-Guarantees others s (at_end r) i = G-refl s
    run-Guarantees [] s (at_step {u = u} {k = k} h hs) i =
        G-trans s (u s) _ (h s) (run-Guarantees [] (u s) (hs s) tt)
    run-Guarantees (f ∷ fs) s (at_step {u = u} {k = k} h hs) (i, is) =
        G-trans s (f s) _ (i s)
          (G-trans (f s) (u (f s)) _ (h (f s)) (run-Guarantees fs (u (f s)) (hs (f s)) is))

-- The predicate holds of a value that is returned.
abbrev pub Holds : {A : Type 0} → (A → Type 0) → Result A → Type 0
Holds Q (ok a) = Q a
Holds Q (err e) = Unit

module _ {S A : Type 0} (P : Result A → Type 0) where
  -- Every result satisfies `P`, whatever states the steps meet.
  abbrev pub Ensures : Proc S A → Type 0
  Ensures (done r) = P r
  Ensures (act u k) = (s : S) → Ensures (k s)

  pub run-Ensures :
      (p : Proc S A) (others : List (S → S)) (s : S) → Ensures p → P (run p others s).0
  run-Ensures (done r) others s h = h
  run-Ensures (act u k) [] s h = run-Ensures (k s) [] (u s) (h s)
  run-Ensures (act u k) (f ∷ fs) s h = run-Ensures (k (f s)) fs (u (f s)) (h (f s))

-- Every step keeps the invariant, where the states that the steps meet have it.
abbrev pub Maintains : {S A : Type 0} → (S → Type 0) → Proc S A → Type 0
Maintains I (done r) = Unit
Maintains I (act u k) = (s : _) → I s → I (u s) × Maintains I (k s)

module _ {S : Type 0} (I : S → Type 0) where
  pub Maintains-bind :
      {A B : Type 0} (p : Proc S A) (f : A → Proc S B)
      → Maintains I p
      → ((a : A) → Maintains I (f a))
      → Maintains I (p >>= f)
  unfolding ◌>>=◌
  Maintains-bind (done (ok a)) f h k = k a
  Maintains-bind (done (err e)) f h k = tt
  Maintains-bind (act u g) f h k = λ s i. ((h s i).0, Maintains-bind (g s) f ((h s i).1) k)

  pub Maintains-throw_if :
      {A : Type 0} (b : Bool) (e : Error) (p : Proc S A)
      → (b ≡ false → Maintains I p)
      → Maintains I (throw_if b e >> p)
  unfolding ◌>>=◌ throw_if
  Maintains-throw_if true e p h = tt
  Maintains-throw_if false e p h = h refl

  -- Others keep the invariant.
  abbrev pub Respects : List (S → S) → Type 0
  Respects [] = Unit
  Respects (f ∷ fs) = ((s : S) → I s → I (f s)) × Respects fs

  pub run-Maintains :
      {A : Type 0} (p : Proc S A) (others : List (S → S)) (s : S)
      → Maintains I p
      → Respects others
      → I s
      → I (run p others s).1
  run-Maintains (done r) others s h o i = i
  run-Maintains (act u k) [] s h o i = run-Maintains (k s) [] (u s) ((h s i).1) tt ((h s i).0)
  run-Maintains (act u k) (f ∷ fs) s h (o, os) i =
      let i' = o s i in run-Maintains (k (f s)) fs (u (f s)) ((h (f s) i').1) os ((h (f s) i').0)

-- Results of a composition, where errors satisfy the predicate.
pub Ensures-bind :
    {S A B : Type 0} (P : Result B → Type 0)
    → ((e : Error) → P (err e))
    → (p : Proc S A) (f : A → Proc S B) → ((a : A) → Ensures P (f a))
    → Ensures P (p >>= f)
unfolding ◌>>=◌
Ensures-bind P failed (done (ok a)) f h = h a
Ensures-bind P failed (done (err e)) f h = failed e
Ensures-bind P failed (act u k) f h = λ s. Ensures-bind P failed (k s) f h

-- The same, where what follows may use what its first part ensures.
pub Ensures-then :
    {S A B : Type 0} (Q : A → Type 0) (P : Result B → Type 0)
    → ((e : Error) → P (err e))
    → (p : Proc S A) (f : A → Proc S B) → Ensures (Holds Q) p
    → ((a : A) → Q a → Ensures P (f a))
    → Ensures P (p >>= f)
unfolding ◌>>=◌
Ensures-then Q P failed (done (ok a)) f q h = h a q
Ensures-then Q P failed (done (err e)) f q h = failed e
Ensures-then Q P failed (act u k) f q h = λ s. Ensures-then Q P failed (k s) f (q s) h

pub Ensures-catch :
    {S A : Type 0} (P : Result A → Type 0) (handle : Error → Proc S A) (p : Proc S A)
    → ((e : Error) → Ensures P (handle e))
    → Ensures P p
    → Ensures P (catch handle p)
unfolding catch
Ensures-catch P handle (done (ok a)) h q = q
Ensures-catch P handle (done (err e)) h q = h e
Ensures-catch P handle (act u k) h q = λ s. Ensures-catch P handle (k s) h (q s)

pub ruleset guarantees = (
  at_end, Guarantees-or_throw, Guarantees-if, Guarantees-throw_if, Guarantees-when,
  Guarantees-option, Guarantees-gets, Guarantees-request,
)
