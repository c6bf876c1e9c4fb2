-- ===== src/Triple.antt =====
-- What an action leads to, on success and on failure, with one rule for each way to build it.
use fastffs.Prelude.{◌≡◌, refl, Bool, true, false, if◌then◌else◌}
use fastffs.Status.{Error, Result, ok, err, Action, next, pure, fail, gets, modify, ◌>>=◌}
use fastffs.Fs.{Fs, on_flash}

-- `Q` holds of the value and the state of a success, and `E` of the state of a failure.
abbrev pub Outcome : {S A : Type 0} → (A → S → Type 0) → (S → Type 0) → Result A × S → Type 0
Outcome Q E (ok a, s) = Q a s
Outcome Q E (err e, s) = E s

-- From every state with `P`.
pub record Triple {S A : Type 0} (P : S → Type 0) (m : Action S A) (Q : A → S → Type 0)
    (E : S → Type 0) : Type 0 where
  pub at : (s : S) → P s → Outcome Q E (m s)

module _ {S A : Type 0} {P : S → Type 0} {E : S → Type 0} where
  pub Triple-pure : {Q : A → S → Type 0} → (a : A) → ((s : S) → P s → Q a s) → Triple P (pure a) Q E
  Triple-pure a h = record { at = h }

  pub Triple-fail :
      {Q : A → S → Type 0} → (e : Error) → ((s : S) → P s → E s) → Triple P (fail {A = A} e) Q E
  Triple-fail e h = record { at = h }

  -- What was read is remembered.
  pub Triple-gets : (f : S → A) → Triple P (gets f) (λ a s. P s × (a ≡ f s)) E
  Triple-gets f = record { at = λ s h. (h, refl) }

  -- Nor is it needed.
  pub Triple-gets_any : (f : S → A) → Triple P (gets f) (λ a. P) E
  Triple-gets_any f = record { at = λ s h. h }

  pub Triple-if :
      {Q : A → S → Type 0} (b : Bool) {m n : Action S A}
      → (b ≡ true → Triple P m Q E)
      → (b ≡ false → Triple P n Q E)
      → Triple P (if b then m else n) Q E
  Triple-if true km kn = km refl
  Triple-if false km kn = kn refl

pub Triple-modify :
    {S : Type 0} {P E : S → Type 0} {Q : Unit {0} → S → Type 0} (f : S → S)
    → ((s : S) → P s → Q tt (f s))
    → Triple P (modify f) Q E
Triple-modify f h = record { at = h }

-- Less is known before, and more is asked after.
pub Triple-weaken :
    {S A : Type 0} {P P' : S → Type 0} {Q Q' : A → S → Type 0} {E E' : S → Type 0} {m : Action S A}
    → Triple P m Q E
    → ((s : S) → P' s → P s)
    → ((a : A) (s : S) → Q a s → Q' a s)
    → ((s : S) → E s → E' s)
    → Triple P' m Q' E'
Triple-weaken {Q = Q} {Q' = Q'} {E = E} {E' = E'} {m = m} k before after failed = record {
  at = λ s h. weaker Q Q' E E' (m s) (k.at s (before s h)) after failed;
}
  where
    weaker :
        {S A : Type 0} (Q Q' : A → S → Type 0) (E E' : S → Type 0) (r : Result A × S)
        → Outcome Q E r
        → ((a : A) (s : S) → Q a s → Q' a s)
        → ((s : S) → E s → E' s)
        → Outcome Q' E' r
    weaker Q Q' E E' (ok a, s) h k l = k a s h
    weaker Q Q' E E' (err e, s) h k l = l s h

next-Outcome :
    {S A B : Type 0} (Q : A → S → Type 0) (R : B → S → Type 0) (E : S → Type 0)
    → (r : Result A × S) (f : A → Action S B) → Outcome Q E r
    → ((a : A) (s : S) → Q a s → Outcome R E (f a s))
    → Outcome R E (next r f)
next-Outcome Q R E (ok a, s) f h k = k a s h
next-Outcome Q R E (err e, s) f h k = h

-- Two things are known.
pub Triple-and :
    {S A : Type 0} {P P' : S → Type 0} {Q Q' : A → S → Type 0} {E E' : S → Type 0} {m : Action S A}
    → Triple P m Q E
    → Triple P' m Q' E'
    → Triple (λ s. P s × P' s) m (λ a s. Q a s × Q' a s) (λ s. E s × E' s)
Triple-and {Q = Q} {Q' = Q'} {E = E} {E' = E'} {m = m} k k' = record {
  at = λ s h. both Q Q' E E' (m s) (k.at s h.0) (k'.at s h.1);
}
  where
    both :
        {S A : Type 0} (Q Q' : A → S → Type 0) (E E' : S → Type 0) (r : Result A × S)
        → Outcome Q E r
        → Outcome Q' E' r
        → Outcome (λ a s. Q a s × Q' a s) (λ s. E s × E' s) r
    both Q Q' E E' (ok a, s) h h' = (h, h')
    both Q Q' E E' (err e, s) h h' = (h, h')

pub Triple-bind :
    {S A B : Type 0} {E : S → Type 0} {Q : A → S → Type 0} {R : B → S → Type 0} {P : S → Type 0}
    {m : Action S A} {f : A → Action S B}
    → Triple P m Q E
    → ((a : A) → Triple (Q a) (f a) R E)
    → Triple P (m >>= f) R E
Triple-bind {E = E} {Q = Q} {R = R} {m = m} {f = f} km kf = record {
  at = λ s h. next-Outcome Q R E (m s) f (km.at s h) (λ a t k. (kf a).at t k);
}

flash-Outcome :
    {Ctx A : Type 0} (P : Fs Ctx → Type 0) (fs : Fs Ctx) (r : Result A × Ctx)
    → ((c : Ctx) → P (record fs { ctx = c }))
    → Outcome (λ (a : A). P) P (r.0, record fs { ctx = r.1 })
flash-Outcome P fs (ok a, c) h = h c
flash-Outcome P fs (err e, c) h = h c

module _ {Ctx A : Type 0} {P : Fs Ctx → Type 0} where
  -- A call that touches the flash alone keeps what does not speak of the flash.
  pub Triple-on_flash :
      (m : Action Ctx A)
      → ((fs : Fs Ctx) (c : Ctx) → P fs → P (record fs { ctx = c }))
      → Triple P (on_flash m) (λ a. P) P
  unfolding on_flash
  Triple-on_flash m keep = record { at = λ fs h. flash-Outcome P fs (m fs.ctx) (λ c. keep fs c h) }
