-- ===== src/Bits/Digit.antt =====
-- The lowest binary digit of `&` and `|`, and then every digit.
use Prim.Native.Nat.{min, max, digits, bit_and-bitwise, bit_or-bitwise}
use fastffs.Prelude.{
  ap, ◌∙◌, refl, ◌≡◌, ◌≤◌, arith, bit_or, bit_and, ◌*◌, ◌+◌, ◌/◌, ◌%◌, suc, zero, ℕ,
}

-- Bitwise operations count the digits of the first number down; any larger count gives the same.
module _ (end : ℕ → ℕ) (op : ℕ → ℕ → ℕ) where
  any_count : (w v i j : ℕ) → w ≤ i → w ≤ j → digits end op i w v ≡ digits end op j w v
  any_count zero v zero zero hi hj = refl
  any_count zero v zero (suc j) hi hj = refl
  any_count zero v (suc i) zero hi hj = refl
  any_count zero v (suc i) (suc j) hi hj = refl
  any_count (suc w) v zero j hi hj = absurd (omega arith)
  any_count (suc w) v (suc i) zero hi hj = absurd (omega arith)
  any_count (suc w) v (suc i) (suc j) hi hj =
      let smaller : digits end op i (suc w / 2) (v / 2) ≡ digits end op j (suc w / 2) (v / 2) =
        any_count (suc w / 2) (v / 2) i j (omega arith) (omega arith) in
      ap (λ (t : ℕ). t * 2 + op (suc w % 2) (v % 2)) smaller

  -- The lowest digit, and the digits above it on their own count.
  lowest :
      (w v : ℕ)
      → digits end op (suc w) (suc w) v
        ≡ digits end op (suc w / 2) (suc w / 2) (v / 2) * 2 + op (suc w % 2) (v % 2)
  lowest w v = ap (λ (t : ℕ). t * 2 + op (suc w % 2) (v % 2)) counted
    where
      counted : digits end op w (suc w / 2) (v / 2) ≡ digits end op (suc w / 2) (suc w / 2) (v / 2)
      counted = any_count (suc w / 2) (v / 2) w (suc w / 2) (omega arith) (omega arith)

pub bit_and_step : (x y : ℕ) → bit_and x y ≡ min (x % 2) (y % 2) + 2 * bit_and (x / 2) (y / 2)
bit_and_step zero y = ground (arith, bit_and-bitwise 0 y, bit_and-bitwise 0 (y / 2))
bit_and_step (suc x) y = omega (
  arith,
  lowest (λ rest. 0) min x y,
  bit_and-bitwise (suc x) y,
  bit_and-bitwise (suc x / 2) (y / 2),
)

pub bit_or_step : (x y : ℕ) → bit_or x y ≡ max (x % 2) (y % 2) + 2 * bit_or (x / 2) (y / 2)
bit_or_step zero y = ground (arith, bit_or-bitwise 0 y, bit_or-bitwise 0 (y / 2))
bit_or_step (suc x) y = omega (
  arith,
  lowest (λ rest. rest) max x y,
  bit_or-bitwise (suc x) y,
  bit_or-bitwise (suc x / 2) (y / 2),
)

-- Digit `k` of `w`.
abbrev pub digit : ℕ → ℕ → ℕ
digit w zero = w % 2
digit w (suc k) = digit (w / 2) k

pub digit-bit_or : (k a b : ℕ) → digit (bit_or a b) k ≡ max (digit a k) (digit b k)
digit-bit_or zero a b = omega (arith, bit_or_step a b)
digit-bit_or (suc k) a b = ap (λ w. digit w k) (half a b) ∙ digit-bit_or k (a / 2) (b / 2)
  where
    half : (a b : ℕ) → bit_or a b / 2 ≡ bit_or (a / 2) (b / 2)
    half a b = omega (arith, bit_or_step a b)

pub digit-bit_and : (k a b : ℕ) → digit (bit_and a b) k ≡ min (digit a k) (digit b k)
digit-bit_and zero a b = omega (arith, bit_and_step a b)
digit-bit_and (suc k) a b = ap (λ w. digit w k) (half a b) ∙ digit-bit_and k (a / 2) (b / 2)
  where
    half : (a b : ℕ) → bit_and a b / 2 ≡ bit_and (a / 2) (b / 2)
    half a b = omega (arith, bit_and_step a b)
