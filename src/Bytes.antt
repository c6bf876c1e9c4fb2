-- ===== src/Bytes.antt =====
-- src/fffs_internal.h: the little-endian loads and stores of the on-flash structures, and
-- `fffs_flash_bytes_erased` of src/fffs_flash.c.
-- A buffer is a list of bytes; a store returns the bytes that C writes at `p`.
pub mod Laws
use fastffs.Prelude.{
  ℕ, zero, suc, ◌+◌, ◌*◌, ◌/◌, ◌%◌, ◌^◌, ◌<◌, bit_or, List, [], ◌∷◌, get_or, Bool, true, false,
  ◌==◌, if◌then◌else◌,
}

abbrev pub u8 : ℕ → ℕ
u8 n = n % 2 ^ 8

abbrev pub u16 : ℕ → ℕ
u16 n = n % 2 ^ 16

abbrev pub u32 : ℕ → ℕ
u32 n = n % 2 ^ 32

-- `p[i]`; the callers read inside the buffer only.
abbrev pub byte : List ℕ → ℕ → ℕ
byte p i = get_or p i 0

-- Every element is a byte.
abbrev pub AreBytes : List ℕ → Type 0
AreBytes [] = Unit
AreBytes (x ∷ xs) = (x < 256) × AreBytes xs

unfoldable pub load_le16 : List ℕ → ℕ
load_le16 p = u16 (bit_or (byte p 0) (byte p 1 * 2 ^ 8))

unfoldable pub load_le32 : List ℕ → ℕ
load_le32 p =
    bit_or (bit_or (bit_or (byte p 0) (byte p 1 * 2 ^ 8)) (byte p 2 * 2 ^ 16)) (byte p 3 * 2 ^ 24)

unfoldable pub store_le16 : ℕ → List ℕ
store_le16 v = u8 v ∷ u8 (v / 2 ^ 8) ∷ []

unfoldable pub store_le32 : ℕ → List ℕ
store_le32 v = u8 v ∷ u8 (v / 2 ^ 8) ∷ u8 (v / 2 ^ 16) ∷ u8 (v / 2 ^ 24) ∷ []

-- The loop of `fffs_flash_bytes_erased`, which stops at the first byte that is not 0xff.
unfoldable pub bytes_erased : List ℕ → Bool
bytes_erased [] = true
bytes_erased (x ∷ xs) = if x == 0xff then bytes_erased xs else false

-- `memcpy(buf + off, bytes, …)` inside the buffer.
unfoldable pub write_bytes : List ℕ → ℕ → List ℕ → List ℕ
write_bytes [] off bytes = []
write_bytes buf off [] = buf
write_bytes (x ∷ buf) zero (b ∷ bytes) = b ∷ write_bytes buf zero bytes
write_bytes (x ∷ buf) (suc off) bytes = x ∷ write_bytes buf off bytes
