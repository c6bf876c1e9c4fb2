-- ===== src/AllocMap/Marks.antt =====
-- The map as a set of sectors: what each operation does to the answer for every sector.
use fastffs.Prelude.{
  ℕ, zero, suc, ◌+◌, ◌-◌, ◌/◌, ◌%◌, ◌^◌, ◌≤◌, ◌<◌, ◌≡◌, ◌≢◌, refl, ap, ◌∙◌, sym, arith, bit_and,
  bit_or, List, false, ◌!=◌, ◌==◌, leb, if◌then◌else◌, get_or, set, length, get_or-set_self,
  get_or-set_ne, ==_ne, ==_refl,
}
use native.Mathlib.Nat.{pow-suc, one-le-pow}
use native.Mathlib.Decide.{ℕ_discrete}
use fastffs.Bits.{
  digit, digit-bit_or, digit-bit_and, digit-two-pow_self, digit-two-pow_ne, bit_and-two-pow,
  bit_and-mask,
}
use fastffs.AllocMap.{map_mask, maybe_used}

-- The digit of a sector.
abbrev pub bit_of : List ℕ → ℕ → ℕ
bit_of words s = digit (get_or words (s / 32) 0) (s % 32)

digit_le : (k w : ℕ) → digit w k ≤ 1
digit_le zero w = omega arith
digit_le (suc k) w = digit_le k (w / 2)

digit-complement : (n k a : ℕ) → a < 2 ^ n → k < n → digit (2 ^ n - 1 - a) k + digit a k ≡ 1
digit-complement zero k a h lt = absurd (omega arith)
digit-complement (suc n) zero a h lt = omega (arith, pow-suc 2 n)
digit-complement (suc n) (suc k) a h lt =
    ap (λ (w : ℕ). digit w k + digit (a / 2) k) (halve n a h)
    ∙ digit-complement n k (a / 2) (omega (arith, pow-suc 2 n)) (omega arith)
  where
    halve : (n a : ℕ) → a < 2 ^ suc n → (2 ^ suc n - 1 - a) / 2 ≡ 2 ^ n - 1 - a / 2
    halve n a h = omega (arith, pow-suc 2 n)

pow_lt : (k n : ℕ) → k < n → 2 ^ k < 2 ^ n
pow_lt k zero h = absurd (omega arith)
pow_lt zero (suc n) h = omega (arith, pow-suc 2 n, one-le-pow n 2)
pow_lt (suc k) (suc n) h = omega (arith, pow-suc 2 n, pow-suc 2 k, pow_lt k n (omega arith))

pub mask_digit : (s : ℕ) → map_mask s ≡ 2 ^ (s % 32)
unfolding map_mask
mask_digit s = ap (λ (k : ℕ). 2 ^ k) (bit_and-mask 5 s)

-- The test of a word by the mask reads the digit.
pub test_digit : (w k : ℕ) → (bit_and w (2 ^ k) != 0) ≡ (digit w k == 1)
test_digit w k = rw (bit_and-two-pow k w) (elim (ℕ_discrete (digit w k) 0) [
  | yes e ↦ rw e (ground arith)
  | no ne ↦ rw (one ne) (ground (arith, one-le-pow k 2))
])
  where
    one : digit w k ≢ 0 → digit w k ≡ 1
    one ne = omega (arith, digit_le k w)

pub maybe_used-bit :
    (count : ℕ) (words : List ℕ) (t : ℕ)
    → maybe_used count words t ≡ (if leb count t then false else bit_of words t == 1)
unfolding maybe_used
maybe_used-bit count words t = rw (mask_digit t, test_digit (get_or words (t / 32) 0) (t % 32)) refl

pub used_word : (w j k : ℕ) → digit (bit_or w (2 ^ j)) k ≡ (if k == j then 1 else digit w k)
used_word w j k = elim (ℕ_discrete k j) [
  | yes e ↦
      rw (e, ==_refl j)
        (omega (arith, digit-bit_or j w (2 ^ j), digit-two-pow_self j, digit_le j w))
  | no ne ↦
      rw (==_ne k j ne)
        (omega (arith, digit-bit_or k w (2 ^ j), digit-two-pow_ne j k (λ e. ne (sym e))))
]

pub unknown_word :
    (w j k : ℕ)
    → j < 32
    → k < 32
    → digit (bit_and w (2 ^ 32 - 1 - 2 ^ j)) k ≡ (if k == j then 0 else digit w k)
unknown_word w j k hj hk = elim (ℕ_discrete k j) [
  | yes e ↦
      rw (e, ==_refl j)
        (omega (
          arith,
          digit-bit_and j w (2 ^ 32 - 1 - 2 ^ j),
          digit-complement 32 j (2 ^ j) (pow_lt j 32 hj) hj,
          digit-two-pow_self j,
        ))
  | no ne ↦ rw (==_ne k j ne) (
      omega (
        arith,
        digit-bit_and k w (2 ^ 32 - 1 - 2 ^ j),
        digit-complement 32 k (2 ^ j) (pow_lt j 32 hj) hk,
        digit-two-pow_ne j k (λ e. ne (sym e)),
        digit_le k w,
      ))
]

-- The digit of `t` when the word of `s` gets a value that agrees with it but for the digit of `s`.
pub set_bit :
    (words : List ℕ) (s t v new : ℕ)
    → s / 32 < length words
    → ((k : ℕ)
        → k < 32
        → digit v k ≡ (if k == s % 32 then new else digit (get_or words (s / 32) 0) k))
    → bit_of (set words (s / 32) v) t ≡ (if t == s then new else bit_of words t)
set_bit words s t v new h agrees = elim (ℕ_discrete (t / 32) (s / 32)) [
  | no ne ↦
      rw
        (
          get_or-set_ne words (s / 32) (t / 32) v 0 (λ e. ne (sym e)),
          ==_ne t s (λ e. ne (ap (λ (x : ℕ). x / 32) e)),
        )
        refl
  | yes e ↦
      rw (e, get_or-set_self words (s / 32) v 0 h, agrees (t % 32) (omega arith))
        (elim (ℕ_discrete t s) [
          | yes same ↦ rw (same, ==_refl s, ==_refl (s % 32)) refl
          | no ne ↦ rw (==_ne t s ne, ==_ne (t % 32) (s % 32) (λ f. ne (omega arith))) refl
        ])
]
