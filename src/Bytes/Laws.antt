-- ===== src/Bytes/Laws.antt =====
-- Loads and stores undo one another, and what `write_bytes` leaves at each index.
use fastffs.Prelude.{
  ℕ, zero, suc, ◌+◌, ◌-◌, ◌*◌, ◌^◌, ◌≤◌, ◌<◌, ◌≡◌, refl, arith, ap, List, [], ◌∷◌, ◌++◌, get_or,
  length, true, ltb, if◌then◌else◌, replicate,
}
use fastffs.Bits.{bit_or-add}
use fastffs.Bytes.{byte, load_le16, load_le32, store_le16, store_le32, bytes_erased, write_bytes}

pub load_le16_sum :
    (p : List ℕ) → byte p 0 < 256 → byte p 1 < 256 → load_le16 p ≡ byte p 0 + byte p 1 * 256
unfolding load_le16
load_le16_sum p h k = omega (arith, bit_or-add 8 (byte p 0) (byte p 1) h)

pub load_le32_sum :
    (p : List ℕ)
    → byte p 0 < 256
    → byte p 1 < 256
    → byte p 2 < 256
    → byte p 3 < 256
    → load_le32 p ≡ byte p 0 + byte p 1 * 2 ^ 8 + byte p 2 * 2 ^ 16 + byte p 3 * 2 ^ 24
unfolding load_le32
load_le32_sum p h0 h1 h2 h3 = ground (
  arith,
  bit_or-add 8 (byte p 0) (byte p 1) h0,
  bit_or-add 16 (byte p 0 + byte p 1 * 2 ^ 8) (byte p 2),
  bit_or-add 24 (byte p 0 + byte p 1 * 2 ^ 8 + byte p 2 * 2 ^ 16) (byte p 3),
)

-- A 16-bit value stored little-endian is loaded back, whatever follows it.
pub load_le16-store_le16 :
    (v : ℕ) (rest : List ℕ) → v < 2 ^ 16 → load_le16 (store_le16 v ++ rest) ≡ v
unfolding store_le16
load_le16-store_le16 v rest h =
    omega (arith, load_le16_sum (store_le16 v ++ rest) (omega arith) (omega arith))

-- A 32-bit value stored little-endian is loaded back, whatever follows it.
pub load_le32-store_le32 :
    (v : ℕ) (rest : List ℕ) → v < 2 ^ 32 → load_le32 (store_le32 v ++ rest) ≡ v
unfolding store_le32
load_le32-store_le32 v rest h = omega (
  arith,
  load_le32_sum (store_le32 v ++ rest) (omega arith) (omega arith) (omega arith) (omega arith),
)

pub load_le16-lt : (p : List ℕ) → load_le16 p < 2 ^ 16
unfolding load_le16
load_le16-lt p = omega arith

pub length-write_bytes :
    (buf : List ℕ) (off : ℕ) (bytes : List ℕ) → length (write_bytes buf off bytes) ≡ length buf
unfolding write_bytes
length-write_bytes [] off bytes = refl
length-write_bytes (x ∷ buf) zero [] = refl
length-write_bytes (x ∷ buf) zero (b ∷ bytes) = ap suc (length-write_bytes buf zero bytes)
length-write_bytes (x ∷ buf) (suc off) [] = refl
length-write_bytes (x ∷ buf) (suc off) (b ∷ bytes) = ap suc (length-write_bytes buf off (b ∷ bytes))

-- Every index of a buffer after bytes that fit were copied into it.
pub get_or-write_bytes :
    (buf : List ℕ) (off : ℕ) (bytes : List ℕ) (i d : ℕ)
    → off + length bytes ≤ length buf
    → get_or (write_bytes buf off bytes) i d ≡ (
        if ltb i off
        then get_or buf i d
        else if ltb i (off + length bytes)
        then get_or bytes (i - off) d
        else get_or buf i d)
unfolding write_bytes
get_or-write_bytes [] off [] i d h = ground arith
get_or-write_bytes [] off (b ∷ bytes) i d h = absurd (omega arith)
get_or-write_bytes (x ∷ buf) zero [] i d h = ground arith
get_or-write_bytes (x ∷ buf) zero (b ∷ bytes) zero d h = ground arith
get_or-write_bytes (x ∷ buf) zero (b ∷ bytes) (suc i) d h =
    ground (arith, get_or-write_bytes buf zero bytes i d)
get_or-write_bytes (x ∷ buf) (suc off) [] i d h = ground arith
get_or-write_bytes (x ∷ buf) (suc off) (b ∷ bytes) zero d h = ground arith
get_or-write_bytes (x ∷ buf) (suc off) (b ∷ bytes) (suc i) d h =
    ground (arith, get_or-write_bytes buf off (b ∷ bytes) i d)

-- `fffs_flash_bytes_erased` answers true when every byte is 0xff.
pub bytes_erased-replicate : (n : ℕ) → bytes_erased (replicate n 0xff) ≡ true
unfolding bytes_erased
bytes_erased-replicate zero = refl
bytes_erased-replicate (suc n) = bytes_erased-replicate n

pub bytes_erased_eq : (xs : List ℕ) → bytes_erased xs ≡ true → xs ≡ replicate (length xs) 0xff
unfolding bytes_erased
bytes_erased_eq [] h = refl
bytes_erased_eq (x ∷ xs) h = ground (arith, bytes_erased_eq xs)
