-- ===== src/Flash/Reads.antt =====
-- A read inside the flash gives the bytes there, and leaves the flash as it is.
use fastffs.Prelude.{ℕ, ◌+◌, ◌≤◌, ◌≡◌, fun_ext}
use fastffs.Status.{ok}
use fastffs.Flash.{Backend, flash_read}
use fastffs.Flash.Nor.{IsNor, IsReliable, span}

module _ {Ctx : Type 0} {b : Backend Ctx} {cell : Ctx → ℕ → ℕ} (nor : IsNor b cell)
    (works : IsReliable b) where
  pub flash_read_lem :
      (off n : ℕ) (c : Ctx)
      → off + n ≤ b.size
      → flash_read b off n c ≡ (ok (span (cell c) off n), (b.read off n c).2)
  unfolding flash_read
  flash_read_lem off n c h =
      rw (works.reads off n c h, nor.read_bytes off n c (works.reads off n c h))

  pub cell-read : (off n : ℕ) (c : Ctx) → cell (b.read off n c).2 ≡ cell c
  cell-read off n c = fun_ext (λ i. nor.read_keeps off n c i)
