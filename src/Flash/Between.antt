-- ===== src/Flash/Between.antt =====
-- What a cell may hold after programs that were cut off.
use fastffs.Prelude.{ℕ, ◌<◌, bit_and, ◌≡◌, arith, ◌⊎◌, inl, inr}
use fastffs.Bits.{bit_and_comm, bit_and_absorb}
use fastffs.Flash.Nor.{Between, bit_and-0xff}

pub Between-full : (x t : ℕ) → x < 256 → Between x 0xff t → t ≡ x
Between-full x t h p = ground (arith, bit_and_comm x t, bit_and-0xff x h)

pub Between-trans :
    (x u v w t f : ℕ)
    → x < 256
    → t < 256
    → ((u ≡ 0xff) × (w ≡ v)) ⊎ ((v ≡ 0xff) × (w ≡ u))
    → Between x u t
    → Between t v f
    → Between x w f
Between-trans x u v w t f hx ht (inl (eu, ew)) p q = rw (ew, ← Between-full x t hx (rw eu at p)) q
Between-trans x u v w t f hx ht (inr (ev, ew)) p q = rw (ew, Between-full t f ht (rw ev at q)) p

pub Between-same : (x w : ℕ) → x < 256 → Between x w x
Between-same x w h = (self, bit_and_absorb x w)
  where
    self : bit_and x x ≡ x
    self = ground (arith, bit_and-0xff x h, bit_and_absorb x 0xff)

pub Between-part :
    (x u v w t : ℕ)
    → x < 256
    → ((u ≡ 0xff) × (w ≡ v)) ⊎ ((v ≡ 0xff) × (w ≡ u))
    → Between x u t
    → Between x w t
Between-part x u v w t hx (inl (eu, ew)) p =
    rw (Between-full x t hx (rw eu at p)) (Between-same x w hx)
Between-part x u v w t hx (inr (ev, ew)) p = rw ew p
