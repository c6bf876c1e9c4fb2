-- ===== src/Lifecycle.antt =====
-- src/fffs_bitmirror.h and the lifecycle pairs of src/fffs_internal.h: the state byte of a
-- sector footer or a metadata record keeps each of its facts in two mirrored bits.
pub mod Torn
use fastffs.Prelude.{ℕ, bit_and, Bool, true, false, ◌==◌, ◌!=◌, ◌&&◌, if◌then◌else◌}

-- `enum fffs_bitmirror_state`
pub data BitmirrorState : Type 0 where
  set cleared mixed : BitmirrorState

unfoldable pub bitmirror_state : ℕ → ℕ → BitmirrorState
bitmirror_state value mask =
    let bits = bit_and value mask in
    if mask != 0 && bits == mask then set else if mask != 0 && bits == 0 then cleared else mixed

unfoldable pub lifecycle_valid_pair : ℕ → BitmirrorState
unfolding bitmirror_state
lifecycle_valid_pair state = bitmirror_state state 0x81

unfoldable pub lifecycle_tombstone_pair : ℕ → BitmirrorState
unfolding bitmirror_state
lifecycle_tombstone_pair state = bitmirror_state state 0x42

unfoldable pub lifecycle_hint_pair : ℕ → BitmirrorState
unfolding bitmirror_state
lifecycle_hint_pair state = bitmirror_state state 0x24

unfoldable pub is_set : BitmirrorState → Bool
is_set set = true
is_set _ = false

unfoldable pub is_cleared : BitmirrorState → Bool
is_cleared cleared = true
is_cleared _ = false

unfoldable pub is_mixed : BitmirrorState → Bool
is_mixed mixed = true
is_mixed _ = false

unfoldable pub lifecycle_is_live : BitmirrorState → BitmirrorState → Bool
unfolding is_cleared is_set
lifecycle_is_live valid_bits tombstone_bits = is_cleared valid_bits && is_set tombstone_bits

-- `FFFS_LIFECYCLE_VALID`, `FFFS_LIFECYCLE_TOMBSTONED`, `FFFS_LIFECYCLE_FULL`
abbrev pub lifecycle_valid : ℕ
lifecycle_valid = 0x7e

abbrev pub lifecycle_tombstoned : ℕ
lifecycle_tombstoned = 0x3c

abbrev pub lifecycle_full : ℕ
lifecycle_full = 0x5a
