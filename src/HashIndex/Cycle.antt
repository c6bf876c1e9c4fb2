-- ===== src/HashIndex/Cycle.antt =====
-- The masks of the table as steps round a cycle of `2 ^ k` buckets.
use native.Mathlib.Decide.{dec_lt, dec_le}
use native.Mathlib.Nat.{pow-suc, one-le-pow, add-mul-mod_self_right, mod-eq_of_lt}
use fastffs.Prelude.{
  ℕ, zero, suc, ◌+◌, ◌-◌, ◌*◌, ◌%◌, ◌^◌, ◌≤◌, ◌<◌, ◌≡◌, ◌≢◌, ap, ◌∙◌, arith, bit_and, ltb, leb,
  if◌then◌else◌,
}
use fastffs.Bits.{bit_and-mask}
use fastffs.HashIndex.{bucket_for, next_bucket, probe_distance}

-- The steps from `a` on to `b`, and the bucket one step after `a`.
unfoldable pub dist : ℕ → ℕ → ℕ → ℕ
dist size a b = if leb a b then b - a else b + size - a

unfoldable pub after : ℕ → ℕ → ℕ
after size a = if ltb (a + 1) size then a + 1 else 0

module _ (size h p : ℕ) (hh : h < size) (hp : p < size) where
  pub dist-lt : dist size h p < size
  unfolding dist
  dist-lt = ground arith

  pub dist_self : dist size h h ≡ 0
  unfolding dist
  dist_self = ground arith

  pub after-lt : after size p < size
  unfolding after
  after-lt = ground arith

  pub dist-after : dist size h p + 1 < size → dist size h (after size p) ≡ dist size h p + 1
  unfolding dist after
  dist-after lt = ground arith

  pub dist-after_round : dist size h p + 1 ≡ size → after size p ≡ h
  unfolding dist after
  dist-after_round e = ground arith

  pub dist-from_after : h ≢ p → dist size (after size h) p + 1 ≡ dist size h p
  unfolding dist after
  dist-from_after ne = ground arith

module _ (size h p q : ℕ) (hh : h < size) (hp : p < size) (hq : q < size) where
  pub dist_inj : dist size h p ≡ dist size h q → p ≡ q
  unfolding dist
  dist_inj e = ground arith

  -- From a bucket on the way the rest of the way is left.
  pub dist_on : dist size h p ≤ dist size h q → dist size h p + dist size p q ≡ dist size h q
  unfolding dist
  dist_on le = ground arith

  -- To a bucket off the way it is on beyond the end of it.
  pub dist_off :
      dist size h q < dist size h p → dist size h p + dist size p q ≡ dist size h q + size
  unfolding dist
  dist_off lt = ground arith

two_pow_split : (k j : ℕ) → 2 ^ (k + j) ≡ 2 ^ j * 2 ^ k
two_pow_split k zero = ground (arith)
two_pow_split k (suc j) = omega (
  arith,
  ap (λ (t : ℕ). 2 ^ t) (move k j),
  pow-suc 2 (k + j),
  ap (λ (t : ℕ). t * 2 ^ k) (pow-suc 2 j),
  two_pow_split k j,
)
  where
    move : (k j : ℕ) → k + suc j ≡ suc (k + j)
    move k j = omega arith

mod_wrap : (x n : ℕ) → x ≡ n → x % n ≡ 0
mod_wrap x n e = grind arith

cycle_le : (m n : ℕ) → 1 ≤ m → n ≤ m * n
cycle_le m n h = grind arith

wrap_up : (a b : ℕ) → a ≤ b → b < 2 ^ 64 → (b + 2 ^ 64 - a) % 2 ^ 64 ≡ b - a
wrap_up a b up h = omega arith

wrap_down : (a b : ℕ) → b < a → (b + 2 ^ 64 - a) % 2 ^ 64 ≡ b + 2 ^ 64 - a
wrap_down a b h = omega arith

less_one : (m n w : ℕ) → 1 ≤ m → w ≡ m * n → w ≡ n + (m - 1) * n
less_one (suc m) n w h e = ground arith
less_one zero n w h e = absurd (omega arith)

step_down : (a b m n w : ℕ) → b < a → a < n → 1 ≤ m → w ≡ m * n → (b + w - a) % n ≡ b + n - a
step_down a b m n w h k pos e =
    ap (λ t. t % n) (omega (arith, less_one m n w pos e))
    ∙ add-mul-mod_self_right (b + n - a) (m - 1) n
    ∙ mod-eq_of_lt {n = b + n - a} {m = n} (omega arith)

-- The number of buckets, a power of two that a `size_t` holds.
module _ (size k : ℕ) (power : size ≡ 2 ^ k) (small : k ≤ 64) where
  pub size-pos : 0 < size
  size-pos = omega (arith, power, one-le-pow k 2)

  word_cycles : (m : ℕ) × (2 ^ 64 ≡ m * size) × (1 ≤ m)
  word_cycles = (2 ^ (64 - k), whole, one-le-pow (64 - k) 2 (omega arith))
    where
      parts : 64 ≡ k + (64 - k)
      parts = omega arith

      whole : 2 ^ 64 ≡ 2 ^ (64 - k) * size
      whole = rw (power, ← two_pow_split k (64 - k)) (ap (λ (t : ℕ). 2 ^ t) parts)

  masked : (x : ℕ) → bit_and x (size - 1) ≡ x % size
  masked x = rw power (bit_and-mask k x)

  pub bucket_for-mod : (slot : ℕ) → bucket_for size slot ≡ slot % size
  unfolding bucket_for
  bucket_for-mod slot = masked slot

  pub bucket_for-lt : (slot : ℕ) → bucket_for size slot < size
  bucket_for-lt slot = omega (arith, bucket_for-mod slot, size-pos)

  pub next_bucket-after : (a : ℕ) → a < size → next_bucket size a ≡ after size a
  unfolding next_bucket after
  next_bucket-after a h = elim (dec_lt (a + 1) size) [
    | yes lt ↦ ground (arith, masked (a + 1), mod-eq_of_lt lt)
    | no ge ↦ ground (arith, masked (a + 1), mod_wrap (a + 1) size (omega arith))
  ]

  pub probe_distance-dist :
      (a b : ℕ) → a < size → b < size → probe_distance (size - 1) a b ≡ dist size a b
  unfolding probe_distance dist
  probe_distance-dist a b ha hb =
      let (m, whole, pos) = word_cycles in
      elim (dec_le a b) [
        | yes up ↦ ground (
          arith,
          masked ((b + 2 ^ 64 - a) % 2 ^ 64),
          wrap_up a b up (omega (arith, cycle_le m size pos, whole)),
          mod-eq_of_lt {n = b - a} {m = size} (omega arith),
        )
        | no down ↦ ground (
          arith,
          masked ((b + 2 ^ 64 - a) % 2 ^ 64),
          wrap_down a b (omega arith),
          step_down a b m size (2 ^ 64) (omega arith) (omega arith) pos whole,
        )
      ]
