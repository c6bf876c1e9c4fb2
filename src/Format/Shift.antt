-- ===== src/Format/Shift.antt =====
-- The sector sizes that a format chooses from, and multiples of them.
use fastffs.Prelude.{
  ℕ, zero, suc, ◌+◌, ◌*◌, ◌/◌, ◌%◌, ◌≤◌, ◌<◌, ◌≡◌, ap, subst, ◌∙◌, arith, Bool, true, false, ◌==◌,
  if◌then◌else◌,
}
use native.Mathlib.Nat.{mod-add-div', mul-mod_left, mul_right_comm}
use fastffs.Status.{Result, ok, err}
use fastffs.Discovery.{shifted_sector_size}
use fastffs.Format.{shift_from}

pub mul-mod_zero : (n k g : ℕ) → n % g ≡ 0 → n * k % g ≡ 0
mul-mod_zero n k g h = ap (λ x. x % g) (factor n k g h) ∙ mul-mod_left (n / g * k) g
  where
    whole : (n g : ℕ) → n % g ≡ 0 → n ≡ n / g * g
    whole n g h = omega (arith, mod-add-div' n g)

    factor : (n k g : ℕ) → n % g ≡ 0 → n * k ≡ n / g * k * g
    factor n k g h = ap (λ x. x * k) (whole n g h) ∙ mul_right_comm (n / g) g k

pub sector_some : (shift : ℕ) → 256 ≤ shifted_sector_size shift
sector_some zero = omega arith
sector_some (suc shift) = omega (arith, sector_some shift)

pub one_more : (k n size : ℕ) → k < n → k * size + size ≤ n * size
one_more k n size lt = grind arith

-- A shift that the loop gives is one that it tries.
pub shift_from-lt : (left shift size r : ℕ) → shift_from left shift size ≡ ok r → r < shift + left
unfolding shift_from
shift_from-lt left shift size r e = subst (IsBelow (shift + left)) e (below left shift)
  where
    IsBelow : ℕ → Result ℕ → Type 0
    IsBelow n (ok r) = r < n
    IsBelow n (err x) = Unit

    pick :
        (n : ℕ) (t : Bool) (x y : Result ℕ)
        → IsBelow n x
        → IsBelow n y
        → IsBelow n (if t then x else y)
    pick n true x y h k = h
    pick n false x y h k = k

    below : (left shift : ℕ) → IsBelow (shift + left) (shift_from left shift size)
    below zero shift = tt
    below (suc left) shift =
        pick (shift + suc left) (shifted_sector_size shift == size) (ok shift)
          (shift_from left (shift + 1) size) (omega arith)
          (subst (λ n. IsBelow n (shift_from left (shift + 1) size)) (again left shift)
            (below left (shift + 1)))
      where
        again : (left shift : ℕ) → shift + 1 + left ≡ shift + suc left
        again left shift = omega arith
