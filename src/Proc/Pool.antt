-- ===== src/Proc/Pool.antt =====
-- Many requests at once: each that has arrived runs one atomic step when it is picked, in any order,
-- and what others do to the state comes between.
use delivery_plus.Prelude.{ℕ, zero, suc, List, [], ◌∷◌, ◌++◌, All}
use delivery_plus.Proc.{Proc, done, act, Result}
use delivery_plus.Proc.Secures.{Secures, at_end, at_step}

pub data Pick (S Q : Type 0) : Type 0 where
  arrives : Q → Pick S Q
  runs : (nth : ℕ) → Pick S Q
  elsewhere : (S → S) → Pick S Q

-- The requests that have arrived, each with the rest of its handler.
abbrev pub Pool : (S A Q : Type 0) → Type 0
Pool S A Q = List (Q × Proc S A)

module _ {S A Q : Type 0} where
  abbrev pub step_at : ℕ → Pool S A Q → S → Pool S A Q × S
  step_at n [] s = ([], s)
  step_at zero ((q, done r) ∷ pool) s = ((q, done r) ∷ pool, s)
  step_at zero ((q, act u k) ∷ pool) s = ((q, k s) ∷ pool, u s)
  step_at (suc n) (p ∷ pool) s = let next = step_at n pool s in (p ∷ next.0, next.1)

module _ {S A Q : Type 0} (handle : Q → Proc S A) where
  abbrev pub pick : Pick S Q → Pool S A Q × S → Pool S A Q × S
  pick (arrives q) (pool, s) = (pool ++ (q, handle q) ∷ [], s)
  pick (runs n) (pool, s) = step_at n pool s
  pick (elsewhere f) (pool, s) = (pool, f s)

  unfoldable pub serve : List (Pick S Q) → Pool S A Q × S → Pool S A Q × S
  serve [] y = y
  serve (p ∷ picks) y = serve picks (pick p y)

module _ {S Q : Type 0} (R : S → S → Type 0) (I : S → Type 0) where
  -- What others do moves by `R` and keeps the invariant.
  abbrev pub IsCooperative : Pick S Q → Type 0
  IsCooperative (arrives q) = Unit
  IsCooperative (runs n) = Unit
  IsCooperative (elsewhere f) = (s : S) → I s → R s (f s) × I (f s)

module _ {S A Q : Type 0} (X : Q → Result A → S → Type 0) where
  -- What a finished handler has answered, of the state as it is now.
  abbrev pub Answered : S → Q × Proc S A → Type 0
  Answered s (q, done r) = X q r s
  Answered s (q, act u k) = Unit

module _ {S A Q : Type 0} (R : S → S → Type 0) (I : S → Type 0) (X : Q → Result A → S → Type 0)
    (R-refl : (s : S) → R s s) (R-trans : (s t u : S) → R s t → R t u → R s u) where
  -- A handler in its course: it was secure in a state since which the others moved by `R`.
  abbrev pub InCourse : S → Q × Proc S A → Type 0
  InCourse s (q, p) = (w : S) × Secures R I (X q) p w × R w s

  InCourse-later :
      (s t : S) (pool : Pool S A Q) → R s t → All (InCourse s) pool → All (InCourse t) pool
  InCourse-later s t [] m h = tt
  InCourse-later s t ((q, p) ∷ pool) m ((w, h, r), hs) =
      ((w, h, R-trans w s t r m), InCourse-later s t pool m hs)

  step_at-InCourse :
      (n : ℕ) (pool : Pool S A Q) (s : S)
      → I s
      → All (InCourse s) pool
      → R s (step_at n pool s).1
        × I (step_at n pool s).1
        × All (InCourse (step_at n pool s).1) (step_at n pool s).0
  step_at-InCourse n [] s i h = (R-refl s, i, tt)
  step_at-InCourse zero ((q, done r) ∷ pool) s i h = (R-refl s, i, h)
  step_at-InCourse zero ((q, act u k) ∷ pool) s i ((w, at_step h rest, r), hs) =
      let step = h s r i in
      (step.0, step.1, ((u s, rest s r i, R-refl (u s)), InCourse-later s (u s) pool (step.0) hs))
  step_at-InCourse (suc n) ((q, p) ∷ pool) s i ((w, h, r), hs) =
      let next = step_at-InCourse n pool s i hs in
      (next.0, next.1, ((w, h, R-trans w s _ r (next.0)), next.2))

  arrived :
      (s : S) (pool : Pool S A Q) (q : Q) (p : Proc S A)
      → Secures R I (X q) p s
      → All (InCourse s) pool
      → All (InCourse s) (pool ++ (q, p) ∷ [])
  arrived s [] q p h hs = ((s, h, R-refl s), tt)
  arrived s (x ∷ pool) q p h (k, ks) = (k, arrived s pool q p h ks)

  module _ (handle : Q → Proc S A) (secure : (q : Q) (w : S) → Secures R I (X q) (handle q) w) where
    -- Whatever is served, in whatever order: where the state comes, and that every handler is in its
    -- course.
    pub serve-InCourse :
        (picks : List (Pick S Q)) (pool : Pool S A Q) (s : S)
        → All (IsCooperative R I) picks
        → I s
        → All (InCourse s) pool
        → R s (serve handle picks (pool, s)).1
          × I (serve handle picks (pool, s)).1
          × All (InCourse (serve handle picks (pool, s)).1) (serve handle picks (pool, s)).0
    unfolding serve
    serve-InCourse [] pool s c i h = (R-refl s, i, h)
    serve-InCourse (arrives q ∷ picks) pool s (c, cs) i h =
        serve-InCourse picks (pool ++ (q, handle q) ∷ []) s cs i
          (arrived s pool q (handle q) (secure q s) h)
    serve-InCourse (runs n ∷ picks) pool s (c, cs) i h =
        let next = step_at-InCourse n pool s i h in
        let rest =
          serve-InCourse picks (step_at n pool s).0 (step_at n pool s).1 cs (next.1) (next.2) in
        (R-trans s (step_at n pool s).1 _ (next.0) (rest.0), rest.1, rest.2)
    serve-InCourse (elsewhere f ∷ picks) pool s (c, cs) i h =
        let other = c s i in
        let rest =
          serve-InCourse picks pool (f s) cs (other.1) (InCourse-later s (f s) pool (other.0) h) in
        (R-trans s (f s) _ (other.0) (rest.0), rest.1, rest.2)

  pub InCourse-Answered :
      (s : S) (pool : Pool S A Q)
      → ((q : Q) (r : Result A) (w t : S) → X q r w → R w t → X q r t)
      → All (InCourse s) pool
      → All (Answered X s) pool
  InCourse-Answered s [] stable h = tt
  InCourse-Answered s ((q, done r) ∷ pool) stable ((w, at_end x, m), hs) =
      (stable q r w s x m, InCourse-Answered s pool stable hs)
  InCourse-Answered s ((q, act u k) ∷ pool) stable (h, hs) =
      (tt, InCourse-Answered s pool stable hs)
