-- ===== src/Proc/Secures.antt =====
-- Rely and guarantee: every state that a step meets has come by `R`, the moves of the others, from the
-- state that the step before it left, and satisfies the invariant; the step moves by `R` and keeps the
-- invariant. What was known of an earlier state and is stable under `R` is so at hand in a later step.
use delivery_plus.Prelude.{List, [], ◌∷◌, ◌≡◌, refl, Bool, true, false, if◌then◌else◌}
use delivery_plus.Shared.Errors.{Error}
use delivery_plus.Proc.{
  Proc, done, act, Result, ok, err, catch, ◌>>=◌, ◌>>◌, throw_if, gets, request, run,
}

-- The program, from the state `w` on: its results satisfy `Q` in the state that it leaves.
pub data Secures {S A : Type 0} (R : S → S → Type 0) (I : S → Type 0) (Q : Result A → S → Type 0)
    : Proc S A → S → Type 0 where
  at_end : {r : Result A} {w : S} → Q r w → Secures R I Q (done r) w
  at_step :
      {u : S → S} {k : S → Proc S A} {w : S}
      → ((s : S) → R w s → I s → R s (u s) × I (u s))
      → ((s : S) → R w s → I s → Secures R I Q (k s) (u s))
      → Secures R I Q (act u k) w

-- What a value that is returned satisfies, in the state of its return.
abbrev pub Returns : {S A : Type 0} → (A → S → Type 0) → Result A → S → Type 0
Returns X (ok a) s = X a s
Returns X (err e) s = Unit

-- A value is returned, and what it satisfies: no error is thrown.
abbrev pub Fulfils : {S A : Type 0} → (A → S → Type 0) → Result A → S → Type 0
Fulfils X (ok a) s = X a s
Fulfils X (err e) s = ⊥

module _ {S : Type 0} (R : S → S → Type 0) (I : S → Type 0) where
  -- The others move by `R` and keep the invariant.
  abbrev pub Cooperates : List (S → S) → Type 0
  Cooperates [] = Unit
  Cooperates (f ∷ fs) = ((s : S) → I s → R s (f s) × I (f s)) × Cooperates fs

module _ {S : Type 0} {R : S → S → Type 0} {I : S → Type 0} where
  pub Secures-bind :
      {A B : Type 0} (X : A → S → Type 0) {Y : B → S → Type 0} {p : Proc S A} {f : A → Proc S B}
      {w : S}
      → Secures R I (Returns X) p w
      → ((a : A) (t : S) → X a t → Secures R I (Returns Y) (f a) t)
      → Secures R I (Returns Y) (p >>= f) w
  unfolding ◌>>=◌
  Secures-bind X (at_end {r = ok a} {w = w} h) k = k a w h
  Secures-bind X (at_end {r = err e} h) k = at_end tt
  Secures-bind X (at_step h rest) k = at_step h (λ s r i. Secures-bind X (rest s r i) k)

  -- A composition fulfils what its parts fulfil.
  pub Fulfils-bind :
      {A B : Type 0} (X : A → S → Type 0) {Y : B → S → Type 0} {p : Proc S A} {f : A → Proc S B}
      {w : S}
      → Secures R I (Fulfils X) p w
      → ((a : A) (t : S) → X a t → Secures R I (Fulfils Y) (f a) t)
      → Secures R I (Fulfils Y) (p >>= f) w
  unfolding ◌>>=◌
  Fulfils-bind X (at_end {r = ok a} {w = w} h) k = k a w h
  Fulfils-bind X (at_end {r = err e} h) k = absurd h
  Fulfils-bind X (at_step h rest) k = at_step h (λ s r i. Fulfils-bind X (rest s r i) k)

  pub Secures-catch :
      {A : Type 0} (P : Result A → S → Type 0) {Q : Result A → S → Type 0}
      {handle : Error → Proc S A} {p : Proc S A} {w : S}
      → Secures R I P p w
      → ((a : A) (t : S) → P (ok a) t → Q (ok a) t)
      → ((e : Error) (t : S) → P (err e) t → Secures R I Q (handle e) t)
      → Secures R I Q (catch handle p) w
  unfolding catch
  Secures-catch P (at_end {r = ok a} {w = w} h) succeeded k = at_end (succeeded a w h)
  Secures-catch P (at_end {r = err e} {w = w} h) succeeded k = k e w h
  Secures-catch P (at_step h rest) succeeded k =
      at_step h (λ s r i. Secures-catch P (rest s r i) succeeded k)

  pub Secures-mono :
      {A : Type 0} (P : Result A → S → Type 0) {Q : Result A → S → Type 0} {p : Proc S A} {w : S}
      → ((r : Result A) (t : S) → P r t → Q r t)
      → Secures R I P p w
      → Secures R I Q p w
  Secures-mono P f (at_end {r = r} {w = w} h) = at_end (f r w h)
  Secures-mono P f (at_step h rest) = at_step h (λ s r i. Secures-mono P f (rest s r i))

  pub Secures-checked :
      {A : Type 0} {Y : A → S → Type 0} (b : Bool) (e : Error) {p : Proc S A} {w : S}
      → (b ≡ false → Secures R I (Returns Y) p w)
      → Secures R I (Returns Y) (throw_if b e >> p) w
  unfolding ◌>>=◌ throw_if
  Secures-checked true e h = at_end tt
  Secures-checked false e h = h refl

  pub Secures-throw_if :
      {Y : Unit {0} → S → Type 0} (b : Bool) (e : Error) {w : S}
      → Y tt w
      → Secures R I (Returns Y) (throw_if b e) w
  unfolding throw_if
  Secures-throw_if true e h = at_end tt
  Secures-throw_if false e h = at_end h

  -- Each branch may use its test.
  pub Secures-if :
      {A : Type 0} {Q : Result A → S → Type 0} (b : Bool) {p q : Proc S A} {w : S}
      → (b ≡ true → Secures R I Q p w)
      → (b ≡ false → Secures R I Q q w)
      → Secures R I Q (if b then p else q) w
  Secures-if true h k = h refl
  Secures-if false h k = k refl

module _ {S : Type 0} {R : S → S → Type 0} {I : S → Type 0} (R-refl : (s : S) → R s s) where
  pub Secures-gets :
      {A : Type 0} (Y : A → S → Type 0) (f : S → A) {w : S}
      → ((s : S) → R w s → Y (f s) s)
      → Secures R I (Returns Y) (gets f) w
  unfolding gets
  Secures-gets Y f h = at_step (λ s r i. (R-refl s, i)) (λ s r i. at_end (h s r))

  pub Secures-request :
      {A : Type 0} (Y : A → S → Type 0) (f : S → Result A) {w : S}
      → ((s : S) → R w s → (a : A) → Y a s)
      → Secures R I (Returns Y) (request f) w
  unfolding request
  Secures-request {A} Y f h =
      at_step (λ s r i. (R-refl s, i)) (λ s r i. at_end (answered s (f s) (h s r)))
    where
      answered : (s : S) (o : Result A) → ((a : A) → Y a s) → Returns Y o s
      answered s (ok a) y = y a
      answered s (err e) y = tt

  module _ (R-trans : (s t u : S) → R s t → R t u → R s u) where
    -- A run from a state with the invariant: where it ends, and what its result satisfies.
    pub run-Secures :
        {A : Type 0} (Q : Result A → S → Type 0) {p : Proc S A} (others : List (S → S)) (s : S)
        → Secures R I Q p s
        → Cooperates R I others
        → I s
        → R s (run p others s).1 × I (run p others s).1 × Q (run p others s).0 (run p others s).1
    run-Secures Q others s (at_end h) c i = (R-refl s, i, h)
    run-Secures Q [] s (at_step {u = u} h rest) c i =
        let step = h s (R-refl s) i in
        let end = run-Secures Q [] (u s) (rest s (R-refl s) i) tt (step.1) in
        (R-trans s (u s) _ (step.0) (end.0), end.1, end.2)
    run-Secures Q (f ∷ fs) s (at_step {u = u} h rest) (c, cs) i =
        let other = c s i in
        let step = h (f s) (other.0) (other.1) in
        let end = run-Secures Q fs (u (f s)) (rest (f s) (other.0) (other.1)) cs (step.1) in
        (R-trans s (f s) _ (other.0) (R-trans (f s) (u (f s)) _ (step.0) (end.0)), end.1, end.2)
