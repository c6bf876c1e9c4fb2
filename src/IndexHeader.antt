-- ===== src/IndexHeader.antt =====
-- src/fffs_index_log.c: the eight bytes at the start of an index sector, `fffs_valid_index_header`,
-- `fffs_program_index_header` and the order of the four-bit serials.
pub mod Commit
pub mod Program
use fastffs.Prelude.{
  ℕ, suc, zero, ◌+◌, ◌-◌, ◌*◌, ◌/◌, ◌^◌, bit_and, bit_or, List, [], ◌∷◌, Option, some, none, Bool,
  true, false, not, ◌&&◌, ◌||◌, ◌==◌, ◌!=◌, ltb, if◌then◌else◌, take,
}
use fastffs.Status.{Action, ◌>>=◌, ◌>>◌, fail, pure}
use fastffs.Bytes.{u8, u32, byte}
use fastffs.Flash.{Backend, program_aligned}

-- `memcmp(a, b, …) == 0` on spans of one length.
unfoldable pub same_bytes : List ℕ → List ℕ → Bool
same_bytes [] [] = true
same_bytes [] (y ∷ ys) = false
same_bytes (x ∷ xs) [] = false
same_bytes (x ∷ xs) (y ∷ ys) = if x == y then same_bytes xs ys else false

-- `FFFS_INDEX_MAGIC`, `FFFS_INDEX_VERSION`, `FFFS_HEADER_SIZE`
abbrev pub index_magic : List ℕ
index_magic = b'F' ∷ b'F' ∷ b'F' ∷ b'S' ∷ []

abbrev pub header_size : ℕ
header_size = 8

-- `FFFS_INDEX_FLAGS_VALID`
abbrev pub index_flags_valid : ℕ
index_flags_valid = 0x7f

-- The three results of `fffs_valid_index_header`.
pub record Header : Type 0 where
  pub index_sectors : ℕ
  pub sector_shift : ℕ
  pub serial : ℕ

unfoldable pub valid_index_header : List ℕ → Option Header
unfolding same_bytes
valid_index_header hdr =
    let flags = byte hdr 7 in
    let count = u8 (byte hdr 5 / 2 ^ 4) in
    let shift = byte hdr 6 in
    if not (same_bytes (take 4 hdr) index_magic) || byte hdr 4 != 1
    then none
    else if bit_and flags 0x80 != 0
        || bit_and flags 0x40 == 0
        || bit_and flags 0x20 == 0
        || bit_and flags 0x1f != 0x1f
    then none
    else if ltb count 2 || ltb 15 count
    then none
    else if ltb 15 shift
    then none
    else some
        (record { index_sectors = count; sector_shift = shift; serial = bit_and (byte hdr 5) 0x0f })

-- The header as it is first programmed, with the flags erased.
unfoldable pub index_header_bytes : ℕ → ℕ → ℕ → List ℕ
index_header_bytes index_sectors sector_shift serial =
    b'F'
    ∷ b'F'
    ∷ b'F'
    ∷ b'S'
    ∷ 1
    ∷ u8 (bit_or (index_sectors * 2 ^ 4) (bit_and serial 0x0f))
    ∷ sector_shift
    ∷ 0xff
    ∷ []

-- The flags follow in a program of their own, which commits the header.
unfoldable pub program_index_header :
    {Ctx : Type 0} → Backend Ctx → ℕ → ℕ → ℕ → ℕ → Action Ctx (Unit {0})
program_index_header b offset index_sectors sector_shift serial = do
  program_aligned b offset (index_header_bytes index_sectors sector_shift serial)
  program_aligned b (offset + 7) (index_flags_valid ∷ [])

-- The difference is an `int`, whose low digits two's complement keeps.
unfoldable pub index_serial_newer : ℕ → ℕ → Bool
index_serial_newer serial best_serial =
    serial != best_serial && ltb (bit_and (u32 (serial + 2 ^ 32 - best_serial)) 0x0f) 8
