-- ===== src/Status.antt =====
-- include/fastffs/fastffs.h, `enum fffs_status`: an operation returns a value or one of the
-- error codes, and keeps the state that it has reached.
-- `hang` is none of the codes: it stands for a call that never returns, and nothing runs after it.
pub data Error : Type 0 where
  invalid nomem range no_space not_found exists name_too_long corrupt io hang : Error

pub data Result {ℓ} (A : Type ℓ) : Type ℓ where
  err : Error → Result A
  ok : A → Result A

-- What C code does on a state: it stops at the first error, and what was changed stays changed.
abbrev pub Action : Type 0 → Type 0 → Type 0
Action S A = S → Result A × S

abbrev pub next : {S A B : Type 0} → Result A × S → (A → Action S B) → Result B × S
next (ok a, s) f = f a s
next (err e, s) f = (err e, s)

infixl 5 ◌>>=◌ ◌>>◌
abbrev pub ◌>>=◌ : {S A B : Type 0} → Action S A → (A → Action S B) → Action S B
◌>>=◌ m f s = next (m s) f

abbrev pub ◌>>◌ : {S B : Type 0} → Action S (Unit {0}) → Action S B → Action S B
m >> k = m >>= λ _. k

abbrev pub pure : {S A : Type 0} → A → Action S A
pure a s = (ok a, s)

abbrev pub fail : {S A : Type 0} → Error → Action S A
fail e s = (err e, s)

abbrev pub lift : {S A : Type 0} → Result A → Action S A
lift r s = (r, s)

abbrev pub gets : {S A : Type 0} → (S → A) → Action S A
gets f s = (ok (f s), s)

abbrev pub modify : {S : Type 0} → (S → S) → Action S (Unit {0})
modify f s = (ok tt, f s)

-- Where the code passes over an error that it is given, `instead` stands for it.
unfoldable pub passed_over : {A : Type 0} → A → Error → Result A
passed_over instead hang = err hang
passed_over instead e = ok instead
