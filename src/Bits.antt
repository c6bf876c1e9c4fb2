-- ===== src/Bits.antt =====
-- `&` and `|` on machine words as arithmetic: fields, masks and single digits, at every width.
mod Digit
pub use Digit.{digit, digit-bit_or, digit-bit_and}
use Digit.{bit_and_step, bit_or_step}
use Prim.Native.Nat.{bit_or-bitwise, bit_and-bitwise}
use native.Mathlib.Nat.{pow-suc, one-le-pow}
use fastffs.Prelude.{
  ℕ, zero, suc, ◌+◌, ◌-◌, ◌*◌, ◌/◌, ◌%◌, ◌^◌, ◌≤◌, ◌<◌, bit_and, bit_or, ◌≡◌, ◌≢◌, refl, arith, ap,
  ◌∙◌,
}

bit_and_zero_fuel : (n a : ℕ) → a ≤ n → bit_and a 0 ≡ 0
bit_and_zero_fuel n zero h = refl
bit_and_zero_fuel zero (suc a) h = absurd (omega arith)
bit_and_zero_fuel (suc n) (suc a) h =
    omega (arith, bit_and_step (suc a) 0, bit_and_zero_fuel n (suc a / 2) (omega arith))

pub bit_and-zero : (a : ℕ) → bit_and a 0 ≡ 0
bit_and-zero a = bit_and_zero_fuel a a (omega arith)

-- A field below `2 ^ k` beside one above it: `lo | (hi << k)` is a sum.
pub bit_or-add : (k lo hi : ℕ) → lo < 2 ^ k → bit_or lo (hi * 2 ^ k) ≡ lo + hi * 2 ^ k
bit_or-add zero zero hi h = omega (arith, bit_or-bitwise 0 (hi * 1))
bit_or-add zero (suc lo) hi h = absurd (omega arith)
bit_or-add (suc k) lo hi h = ground (
  arith,
  bit_or_step lo (hi * 2 ^ suc k),
  pow-suc 2 k,
  ap (λ (t : ℕ). hi * t) (pow-suc 2 k),
  bit_or-add k (lo / 2) hi,
)

-- A word of `hi` above `k` digits `lo`, under a mask of those digits.
bit_and-mask_field : (k hi lo : ℕ) → lo < 2 ^ k → bit_and (lo + hi * 2 ^ k) (2 ^ k - 1) ≡ lo
bit_and-mask_field zero hi lo h = omega (arith, bit_and-zero (lo + hi * 1))
bit_and-mask_field (suc k) hi lo h = ground (
  arith,
  bit_and_step (lo + hi * 2 ^ suc k) (2 ^ suc k - 1),
  pow-suc 2 k,
  ap (λ (t : ℕ). hi * t) (pow-suc 2 k),
  bit_and-mask_field k hi (lo / 2) (omega (arith, pow-suc 2 k)),
)

-- Keeping the low `k` digits is the remainder by `2 ^ k`.
pub bit_and-mask : (k a : ℕ) → bit_and a (2 ^ k - 1) ≡ a % 2 ^ k
bit_and-mask k a = ground (arith, one-le-pow k 2, bit_and-mask_field k (a / 2 ^ k) (a % 2 ^ k))

pub digit-two-pow_self : (k : ℕ) → digit (2 ^ k) k ≡ 1
digit-two-pow_self zero = refl
digit-two-pow_self (suc k) = ap (λ w. digit w k) (halve k) ∙ digit-two-pow_self k
  where
    halve : (k : ℕ) → 2 ^ suc k / 2 ≡ 2 ^ k
    halve k = omega (arith, pow-suc 2 k)

digit_zero : (k : ℕ) → digit 0 k ≡ 0
digit_zero zero = refl
digit_zero (suc k) = digit_zero k

pub digit-two-pow_ne : (j k : ℕ) → j ≢ k → digit (2 ^ j) k ≡ 0
digit-two-pow_ne zero zero h = absurd (h refl)
digit-two-pow_ne zero (suc k) h = digit_zero k
digit-two-pow_ne (suc j) zero h = omega (arith, pow-suc 2 j)
digit-two-pow_ne (suc j) (suc k) h =
    ap (λ w. digit w k) (halve j) ∙ digit-two-pow_ne j k (λ e. h (ap suc e))
  where
    halve : (k : ℕ) → 2 ^ suc k / 2 ≡ 2 ^ k
    halve k = omega (arith, pow-suc 2 k)

-- Testing a single digit by a mask.
pub bit_and-two-pow : (k w : ℕ) → bit_and w (2 ^ k) ≡ digit w k * 2 ^ k
bit_and-two-pow zero w = omega (arith, bit_and_step w 1, bit_and-zero (w / 2))
bit_and-two-pow (suc k) w = ground (
  arith,
  bit_and_step w (2 ^ suc k),
  pow-suc 2 k,
  ap (λ (t : ℕ). digit (w / 2) k * t) (pow-suc 2 k),
  bit_and-two-pow k (w / 2),
)

bit_and_comm_fuel : (n a b : ℕ) → a ≤ n → b ≤ n → bit_and a b ≡ bit_and b a
bit_and_comm_fuel zero a b p q =
    ap (λ (t : ℕ). bit_and t b) (zeros a b p q) ∙ ap (λ (t : ℕ). bit_and b t) (zeros b a q p)
  where
    zeros : (a b : ℕ) → a ≤ 0 → b ≤ 0 → a ≡ b
    zeros a b p q = omega arith
bit_and_comm_fuel (suc n) a b p q = omega (
  arith,
  bit_and_step a b,
  bit_and_step b a,
  bit_and_comm_fuel n (a / 2) (b / 2) (omega arith) (omega arith),
)

pub bit_and_comm : (a b : ℕ) → bit_and a b ≡ bit_and b a
bit_and_comm a b = bit_and_comm_fuel (a + b) a b (omega arith) (omega arith)

bit_and_absorb_fuel : (n a b : ℕ) → a ≤ n → bit_and a (bit_and a b) ≡ bit_and a b
bit_and_absorb_fuel zero a b p =
    ground (arith, zeros a p, bit_and-bitwise 0 b, bit_and-bitwise 0 (bit_and 0 b))
  where
    zeros : (a : ℕ) → a ≤ 0 → a ≡ 0
    zeros a p = omega arith
bit_and_absorb_fuel (suc n) a b p = ground (
  arith,
  bit_and_step a (bit_and a b),
  bit_and_step a b,
  halve a b,
  bit_and_absorb_fuel n (a / 2) (b / 2) (omega arith),
)
  where
    halve : (a b : ℕ) → bit_and a b / 2 ≡ bit_and (a / 2) (b / 2)
    halve a b = omega (arith, bit_and_step a b)

pub bit_and_absorb : (a b : ℕ) → bit_and a (bit_and a b) ≡ bit_and a b
bit_and_absorb a b = bit_and_absorb_fuel a a b (omega arith)

bit_or_comm_fuel : (n a b : ℕ) → a ≤ n → b ≤ n → bit_or a b ≡ bit_or b a
bit_or_comm_fuel zero a b p q =
    ap (λ (t : ℕ). bit_or t b) (zeros a b p q) ∙ ap (λ (t : ℕ). bit_or b t) (zeros b a q p)
  where
    zeros : (a b : ℕ) → a ≤ 0 → b ≤ 0 → a ≡ b
    zeros a b p q = omega arith
bit_or_comm_fuel (suc n) a b p q = omega (
  arith,
  bit_or_step a b,
  bit_or_step b a,
  bit_or_comm_fuel n (a / 2) (b / 2) (omega arith) (omega arith),
)

pub bit_or_comm : (a b : ℕ) → bit_or a b ≡ bit_or b a
bit_or_comm a b = bit_or_comm_fuel (a + b) a b (omega arith) (omega arith)

bit_and_le_fuel : (n a b : ℕ) → a ≤ n → bit_and a b ≤ a
bit_and_le_fuel zero a b p = omega (arith, zeros a b p)
  where
    zeros : (a b : ℕ) → a ≤ 0 → bit_and a b ≡ 0
    zeros a b p = ap (λ (t : ℕ). bit_and t b) (zero_of a p) ∙ bit_and-bitwise 0 b
      where
        zero_of : (a : ℕ) → a ≤ 0 → a ≡ 0
        zero_of a p = omega arith
bit_and_le_fuel (suc n) a b p =
    omega (arith, bit_and_step a b, bit_and_le_fuel n (a / 2) (b / 2) (omega arith))

pub bit_and_le : (a b : ℕ) → bit_and a b ≤ a
bit_and_le a b = bit_and_le_fuel a a b (omega arith)
