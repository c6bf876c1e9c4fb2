-- ===== src/IndexHeader/Commit.antt =====
-- What a mount reads of an index header: as it was programmed, cut off, and tombstoned.
use fastffs.Prelude.{
  ℕ, ◌+◌, ◌*◌, ◌%◌, ◌^◌, ◌≤◌, ◌<◌, bit_and, bit_or, ◌≡◌, refl, arith, List, [], ◌∷◌, some, none,
}
use fastffs.Bits.{bit_and-mask, bit_or-add, bit_or_comm}
use fastffs.Bytes.{u8}
use fastffs.IndexHeader.{valid_index_header, index_header_bytes}

-- The header bytes with given flags.
abbrev pub with_flags : ℕ → ℕ → ℕ → ℕ → List ℕ
with_flags count shift serial flags =
    b'F'
    ∷ b'F'
    ∷ b'F'
    ∷ b'S'
    ∷ 1
    ∷ u8 (bit_or (count * 2 ^ 4) (bit_and serial 0x0f))
    ∷ shift
    ∷ flags
    ∷ []

meta_byte :
    (count serial : ℕ)
    → count < 16
    → u8 (bit_or (count * 2 ^ 4) (bit_and serial 0x0f)) ≡ serial % 16 + count * 16
meta_byte count serial h = ground (
  arith,
  bit_and-mask 4 serial,
  bit_or_comm (count * 2 ^ 4) (bit_and serial 0x0f),
  bit_or-add 4 (serial % 16) count,
)

-- A header for two to fifteen sectors with a shift of fifteen at most is valid with the committed
-- flags, and gives back the geometry and the low four bits of the serial; before the flags are
-- programmed it is not valid, nor after its tombstone.
pub valid_index_header-bytes :
    (count shift serial : ℕ)
    → 2 ≤ count
    → count ≤ 15
    → shift ≤ 15
    → (valid_index_header (with_flags count shift serial 0x7f)
        ≡ some (record { index_sectors = count; sector_shift = shift; serial = serial % 16 }))
      × (valid_index_header (index_header_bytes count shift serial) ≡ none)
      × (valid_index_header (with_flags count shift serial 0x3f) ≡ none)
unfolding valid_index_header index_header_bytes
valid_index_header-bytes count shift serial lo hi hs =
    (ground (arith, meta_byte count serial, bit_and-mask 4 (serial % 16 + count * 16)), refl, refl)
