-- ===== src/Tests/Formats.antt =====
-- The encodings at concrete values.
use fastffs.Prelude.{ℕ, ◌≡◌, ◌≢◌, ◌↔◌, refl, arith, List, [], ◌∷◌, ◌++◌, some, none, true}
use fastffs.Bytes.{load_le32, store_le32}
use fastffs.Bytes.Laws.{load_le32-store_le32}
use fastffs.Lifecycle.{lifecycle_valid}
use fastffs.Lifecycle.Torn.{live_state, commit, lifecycle_torn, lifecycle_torn_full}
use fastffs.Slot.{hash16, normalize_slot_base}
use fastffs.Slot.Probe.{IsSlot, candidate, candidate_distinct}
use fastffs.IndexHeader.{valid_index_header, index_header_bytes}
use fastffs.IndexHeader.Commit.{with_flags, valid_index_header-bytes}

abbrev name : List ℕ
name = b'a' ∷ []

-- FNV-1a of "a" is 0xe40c292c.
hash16-a : hash16 name ≡ 0xcd20
unfolding hash16
hash16-a = refl

load_le32-store_le32_example : load_le32 (store_le32 0x12345678 ++ []) ≡ 0x12345678
load_le32-store_le32_example = load_le32-store_le32 0x12345678 [] (omega arith)

lifecycle_torn_example : (live_state 0x7f ≡ true) ↔ (◌≡◌ {A = ℕ} 0x7f lifecycle_valid)
lifecycle_torn_example = lifecycle_torn commit 0x7f (omega arith) (refl, refl)

lifecycle_torn_full_example : live_state 0x7a ≡ true
lifecycle_torn_full_example = lifecycle_torn_full 0x7a (omega arith) (refl, refl)

candidate_distinct_example :
    IsSlot (candidate (normalize_slot_base (hash16 name)) 3)
    × (candidate (normalize_slot_base (hash16 name)) 3
        ≢ candidate (normalize_slot_base (hash16 name)) 50)
candidate_distinct_example = candidate_distinct name 3 50 (omega arith) (omega arith)

valid_index_header-bytes_example :
    (valid_index_header (with_flags 2 4 9 0x7f)
      ≡ some (record { index_sectors = 2; sector_shift = 4; serial = 9 }))
    × (valid_index_header (index_header_bytes 2 4 9) ≡ none)
    × (valid_index_header (with_flags 2 4 9 0x3f) ≡ none)
valid_index_header-bytes_example =
    valid_index_header-bytes 2 4 9 (omega arith) (omega arith) (omega arith)
