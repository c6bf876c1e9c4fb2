-- ===== src/IndexHeader/Program.antt =====
-- A header that is programmed on erased flash is found again.
use fastffs.Prelude.{ℕ, zero, suc, ◌+◌, ◌%◌, ◌≤◌, ◌<◌, ◌≡◌, ap, ◌∙◌, arith, some, get_or}
use fastffs.Status.{ok}
use fastffs.Flash.{Backend}
use fastffs.Flash.Nor.{IsNor, IsReliable, span}
use fastffs.Flash.Commit.{commit-span}
use fastffs.IndexHeader.{valid_index_header, index_header_bytes, program_index_header}
use fastffs.IndexHeader.Commit.{valid_index_header-bytes}

header_byte :
    (count shift serial i : ℕ)
    → shift < 256
    → i < 8
    → get_or (index_header_bytes count shift serial) i 0xff < 256
unfolding index_header_bytes
header_byte count shift serial zero h lt = omega arith
header_byte count shift serial (suc zero) h lt = omega arith
header_byte count shift serial (suc (suc zero)) h lt = omega arith
header_byte count shift serial (suc (suc (suc zero))) h lt = omega arith
header_byte count shift serial (suc (suc (suc (suc zero)))) h lt = omega arith
header_byte count shift serial (suc (suc (suc (suc (suc zero))))) h lt = omega arith
header_byte count shift serial (suc (suc (suc (suc (suc (suc zero)))))) h lt = h
header_byte count shift serial (suc (suc (suc (suc (suc (suc (suc zero))))))) h lt = omega arith
header_byte count shift serial (suc (suc (suc (suc (suc (suc (suc (suc i)))))))) h lt =
    absurd (omega arith)

module _ {Ctx : Type 0} {b : Backend Ctx} {cell : Ctx → ℕ → ℕ} (nor : IsNor b cell)
    (works : IsReliable b) (pos : 0 < b.program_granule)
    (fits : b.size % b.program_granule ≡ 0) where
  -- On reliable NOR flash whose size is a multiple of its granule, programming an index header for
  -- two to fifteen sectors with a shift of fifteen at most on erased cells inside the flash
  -- succeeds, and the bytes there are then a valid header with this geometry and the low four
  -- bits of the serial.
  pub program_index_header-valid :
      (offset count shift serial : ℕ) (c : Ctx)
      → 2 ≤ count
      → count ≤ 15
      → shift ≤ 15
      → offset + 8 ≤ b.size
      → ((i : ℕ) → i < 8 → cell c (offset + i) ≡ 0xff)
      → (c' : Ctx) × (program_index_header b offset count shift serial c ≡ (ok tt, c'))
        × (valid_index_header (span (cell c') offset 8)
            ≡ some (record { index_sectors = count; sector_shift = shift; serial = serial % 16 }))
  unfolding program_index_header index_header_bytes
  program_index_header-valid offset count shift serial c lo hi hs inside erased =
      let (c', r, bytes) =
        commit-span nor works pos fits offset (index_header_bytes count shift serial) 7 0x7f c
          inside (omega arith) (omega arith)
          (λ i lt. header_byte count shift serial i (omega arith) lt) erased in
      (
        c',
        r,
        ap valid_index_header bytes ∙ (valid_index_header-bytes count shift serial lo hi hs).0,
      )
