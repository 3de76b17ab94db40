-- ===== src/Proc.antt =====
-- Asynchronous handlers. An `async` method runs in atomic steps, one for each awaited query,
-- transaction or call; between two of them other requests may change the state. A step that only
-- reads leaves the state as it is, and the rest of the method sees the state that the step met.
pub mod Rules
pub mod Alone
pub mod Secures
pub mod Pool
use delivery_plus.Prelude.{List, [], ◌∷◌, Option, none, some, Bool, true, false}
use delivery_plus.Shared.Errors.{Error}

pub data Result (A : Type 0) : Type 0 where
  ok : A → Result A
  err : Error → Result A

pub data Proc (S A : Type 0) : Type 0 where
  done : Result A → Proc S A
  act : (S → S) → (S → Proc S A) → Proc S A

module _ {S A : Type 0} where
  abbrev pub ret : A → Proc S A
  ret a = done (ok a)

  abbrev pub throw : Error → Proc S A
  throw e = done (err e)

  -- One atomic read, and one atomic read and write.
  unfoldable pub gets : (S → A) → Proc S A
  gets f = act (λ s. s) (λ s. ret (f s))

  unfoldable pub atomically : (S → A × S) → Proc S A
  atomically f = act (λ s. (f s).1) (λ s. ret (f s).0)

  -- A call to another service, whose reply may be an error.
  unfoldable pub request : (S → Result A) → Proc S A
  request f = act (λ s. s) (λ s. done (f s))

  unfoldable pub or_throw : Error → Option A → Proc S A
  or_throw e none = throw e
  or_throw e (some a) = ret a

  -- `try { p } catch (e) { h(e) }`
  unfoldable pub catch : (Error → Proc S A) → Proc S A → Proc S A
  catch h (done (ok a)) = ret a
  catch h (done (err e)) = h e
  catch h (act u k) = act u (λ s. catch h (k s))

infixl 5 ◌>>=◌ ◌>>◌
unfoldable pub ◌>>=◌ : {S A B : Type 0} → Proc S A → (A → Proc S B) → Proc S B
done (ok a) >>= f = f a
done (err e) >>= f = throw e
act u k >>= f = act u (λ s. k s >>= f)

abbrev pub ◌>>◌ : {S A B : Type 0} → Proc S A → Proc S B → Proc S B
p >> q = p >>= λ _. q

module _ {S : Type 0} where
  unfoldable pub throw_if : Bool → Error → Proc S (Unit {0})
  throw_if true e = throw e
  throw_if false e = ret tt

  unfoldable pub when : Bool → Proc S (Unit {0}) → Proc S (Unit {0})
  when true p = p
  when false p = ret tt

module _ {S A : Type 0} where
  -- A run among other requests: the list holds what they do to the state before each step of the
  -- handler. Steps beyond its end are not interrupted.
  abbrev pub run : Proc S A → List (S → S) → S → Result A × S
  run (done r) others s = (r, s)
  run (act u k) [] s = run (k s) [] (u s)
  run (act u k) (f ∷ fs) s = let s' = f s in run (k s') fs (u s')

-- What a proof names to run a handler.
unfoldable pub combinators : Unit {0}
unfolding ◌>>=◌ gets atomically request or_throw catch throw_if when
combinators = tt
