-- ===== src/Settled.antt =====
-- Calls that come to an end, and what they leave where they succeed.
use fastffs.Prelude.{◌≡◌, ◌≢◌, refl, subst, Bool, true, false, if◌then◌else◌}
use fastffs.Status.{Error, hang, Result, ok, err, Action, next, pure, fail, ◌>>=◌}

-- Every error but `hang` is one that the code returns.
abbrev pub Ends : Error → Type 0
Ends hang = ⊥
Ends e = Unit

abbrev pub Settled : {S A : Type 0} → (A → S → Type 0) → Result A × S → Type 0
Settled Q (ok a, s) = Q a s
Settled Q (err e, s) = Ends e

pub next-Settled :
    {S A B : Type 0} (Q : A → S → Type 0) (R : B → S → Type 0) (r : Result A × S)
    (f : A → Action S B)
    → Settled Q r
    → ((a : A) (s : S) → Q a s → Settled R (f a s))
    → Settled R (next r f)
next-Settled Q R (ok a, s) f h k = k a s h
next-Settled Q R (err e, s) f h k = h

pub Settled-weaken :
    {S A : Type 0} (Q R : A → S → Type 0) (r : Result A × S)
    → Settled Q r
    → ((a : A) (s : S) → Q a s → R a s)
    → Settled R r
Settled-weaken Q R (ok a, s) h k = k a s h
Settled-weaken Q R (err e, s) h k = h

pub Settled-returns :
    {S A : Type 0} (Q : A → S → Type 0) (r : Result A × S) → Settled Q r → r.0 ≢ err hang
Settled-returns {A = A} Q (ok a, s) h e = subst is_value e tt
  where
    is_value : Result A → Type 0
    is_value (ok a) = Unit
    is_value (err e) = ⊥
Settled-returns {A = A} Q (err e, s) h same = subst ends same h
  where
    ends : Result A → Type 0
    ends (ok a) = Unit
    ends (err e) = Ends e

-- From every state with `P`, the action comes to an end, with `Q` where it succeeds.
pub record Runs {S A : Type 0} (P : S → Type 0) (m : Action S A) (Q : A → S → Type 0) : Type 0 where
  pub at : (s : S) → P s → Settled Q (m s)

module _ {S A : Type 0} {P : S → Type 0} {Q : A → S → Type 0} where
  pub Runs-pure : (a : A) → ((s : S) → P s → Q a s) → Runs P (pure a) Q
  Runs-pure a h = record { at = h }

  pub Runs-fail : (e : Error) → Ends e → Runs P (fail e) Q
  Runs-fail e h = record { at = λ s p. h }

  pub Runs-if :
      (test : Bool) {m n : Action S A}
      → (test ≡ true → Runs P m Q)
      → (test ≡ false → Runs P n Q)
      → Runs P (if test then m else n) Q
  Runs-if true km kn = km refl
  Runs-if false km kn = kn refl

pub Runs-bind :
    {S A B : Type 0} {P : S → Type 0} {Q : A → S → Type 0} {R : B → S → Type 0} {m : Action S A}
    {f : A → Action S B}
    → Runs P m Q
    → ((a : A) → Runs (Q a) (f a) R)
    → Runs P (m >>= f) R
Runs-bind {Q = Q} {R = R} {m = m} {f = f} km kf = record {
  at = λ s h. next-Settled Q R (m s) f (km.at s h) (λ a t k. (kf a).at t k);
}

pub Runs-weaken :
    {S A : Type 0} {P : S → Type 0} {Q R : A → S → Type 0} {m : Action S A}
    → Runs P m Q
    → ((a : A) (s : S) → Q a s → R a s)
    → Runs P m R
Runs-weaken {Q = Q} {R = R} {m = m} k after = record {
  at = λ s h. Settled-weaken Q R (m s) (k.at s h) after;
}
