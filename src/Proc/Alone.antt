-- ===== src/Proc/Alone.antt =====
-- Handlers that run without other requests between their steps: a run of a composition is the run of
-- its first part, then of the rest on what that gave.
use delivery_plus.Prelude.{◌≡◌, refl, []}
use delivery_plus.Shared.Errors.{Error}
use delivery_plus.Proc.{Proc, done, act, Result, ok, err, catch, ◌>>=◌, run}

module _ {S A : Type 0} where
  abbrev pub run_alone : Proc S A → S → Result A × S
  run_alone p s = run p [] s

module _ {S A B : Type 0} where
  -- The rest of a composition, on the result and the state of its first part.
  abbrev pub continue_with : (A → Proc S B) → Result A × S → Result B × S
  continue_with f (ok a, s) = run_alone (f a) s
  continue_with f (err e, s) = (err e, s)

  pub run_alone-bind :
      (p : Proc S A) (f : A → Proc S B) (s : S)
      → run_alone (p >>= f) s ≡ continue_with f (run_alone p s)
  unfolding ◌>>=◌
  run_alone-bind (done (ok a)) f s = refl
  run_alone-bind (done (err e)) f s = refl
  run_alone-bind (act u k) f s = run_alone-bind (k s) f (u s)

module _ {S A : Type 0} where
  -- A handler of errors, on the result and the state of the body.
  abbrev pub recover_with : (Error → Proc S A) → Result A × S → Result A × S
  recover_with h (ok a, s) = (ok a, s)
  recover_with h (err e, s) = run_alone (h e) s

  pub run_alone-catch :
      (h : Error → Proc S A) (p : Proc S A) (s : S)
      → run_alone (catch h p) s ≡ recover_with h (run_alone p s)
  unfolding catch
  run_alone-catch h (done (ok a)) s = refl
  run_alone-catch h (done (err e)) s = refl
  run_alone-catch h (act u k) s = run_alone-catch h (k s) (u s)
