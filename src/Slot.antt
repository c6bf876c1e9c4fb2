-- ===== src/Slot.antt =====
-- src/fffs_index_log.c, the slot helpers: the hash of a name, the slot where its probe sequence
-- begins, and the slot after a slot. A C string is the list of its bytes before the NUL.
pub mod Probe
use fastffs.Prelude.{ℕ, ◌+◌, ◌*◌, ◌/◌, ◌^◌, bit_xor, List, [], ◌∷◌, Bool, ◌==◌, ◌||◌, if◌then◌else◌}
use fastffs.Bytes.{u16, u32}

-- The loop of `fffs_hash16` over the bytes of the name.
unfoldable pub hash_from : ℕ → List ℕ → ℕ
hash_from h [] = h
hash_from h (c ∷ name) = hash_from (u32 (bit_xor h c * 16777619)) name

unfoldable pub hash16 : List ℕ → ℕ
unfolding hash_from
hash16 name = let h = hash_from 2166136261 name in u16 (bit_xor (h / 2 ^ 16) h)

unfoldable pub normalize_slot_base : ℕ → ℕ
normalize_slot_base slot = if slot == 0 then 1 else if slot == 0xffff then 0x7fff else slot

unfoldable pub next_slot : ℕ → ℕ
next_slot slot = let slot' = u16 (slot + 1) in if slot' == 0 || slot' == 0xffff then 1 else slot'
