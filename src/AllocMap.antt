-- ===== src/AllocMap.antt =====
-- src/fffs_alloc_map.c and src/fffs_bitset.c: the bitmap of the data sectors that may be in use, in
-- the default mode (FFFS_ALLOC_MAP_FULL_BITMAP). `fs->alloc_map` is a list of 32-bit words and is
-- never null in the model; the functions that change it return it.
mod Marks
pub mod Sets
pub mod Ranges
pub mod Bitset
use fastffs.Prelude.{
  ℕ, zero, suc, ◌+◌, ◌-◌, ◌*◌, ◌/◌, ◌%◌, ◌^◌, bit_and, bit_or, List, [], ◌∷◌, Bool, true, false,
  ◌!=◌, leb, ltb, if◌then◌else◌, get_or, set, length, replicate, ◌++◌, drop,
}
use fastffs.Bytes.{u16}
use fastffs.Status.{Result, ok, err, invalid}

unfoldable pub map_words_for_sectors : ℕ → ℕ
map_words_for_sectors sector_count = (sector_count + 31) / 32

-- The shift is below 32, so that the one stays in the word.
unfoldable pub map_mask : ℕ → ℕ
map_mask sector = 2 ^ bit_and sector 31

unfoldable pub map_config_valid : ℕ → List ℕ → Bool
unfolding map_words_for_sectors
map_config_valid sector_count alloc_map =
    leb (map_words_for_sectors sector_count) (length alloc_map)

unfoldable pub maybe_used : ℕ → List ℕ → ℕ → Bool
unfolding map_mask
maybe_used sector_count alloc_map sector =
    if leb sector_count sector
    then false
    else bit_and (get_or alloc_map (sector / 32) 0) (map_mask sector) != 0

unfoldable pub mark_used : ℕ → List ℕ → ℕ → List ℕ
unfolding map_mask
mark_used sector_count alloc_map sector =
    if leb sector_count sector
    then alloc_map
    else set alloc_map (sector / 32) (bit_or (get_or alloc_map (sector / 32) 0) (map_mask sector))

-- `~` of a 32-bit word takes it from all ones.
unfoldable pub mark_unknown : ℕ → List ℕ → ℕ → List ℕ
unfolding map_mask
mark_unknown sector_count alloc_map sector =
    if leb sector_count sector
    then alloc_map
    else set alloc_map (sector / 32)
        (bit_and (get_or alloc_map (sector / 32) 0) (2 ^ 32 - 1 - map_mask sector))

-- The loop on `i`, with the rounds left.
unfoldable pub mark_range_from : ℕ → List ℕ → ℕ → ℕ → ℕ → List ℕ
mark_range_from sector_count alloc_map first zero i = alloc_map
mark_range_from sector_count alloc_map first (suc left) i =
    mark_range_from sector_count (mark_unknown sector_count alloc_map (u16 (first + i))) first left
      (i + 1)

unfoldable pub mark_range_unknown : ℕ → List ℕ → ℕ → ℕ → List ℕ
unfolding mark_range_from
mark_range_unknown sector_count alloc_map first count =
    mark_range_from sector_count alloc_map first count 0

-- `for (sector = 0; sector < fs->index_sectors; sector++)`, with the rounds left.
unfoldable pub mark_index_from : ℕ → List ℕ → ℕ → ℕ → List ℕ
mark_index_from sector_count alloc_map zero sector = alloc_map
mark_index_from sector_count alloc_map (suc left) sector =
    mark_index_from sector_count (mark_used sector_count alloc_map sector) left (sector + 1)

-- The words that the caller has lent beyond the sectors are kept as they are.
unfoldable pub map_mount_init : ℕ → ℕ → List ℕ → Result (List ℕ)
unfolding map_config_valid mark_index_from map_words_for_sectors
map_mount_init sector_count index_sectors alloc_map =
    let words = map_words_for_sectors sector_count in
    if map_config_valid sector_count alloc_map
    then ok
        (mark_index_from sector_count (replicate words 0 ++ drop words alloc_map) index_sectors 0)
    else err invalid

-- `fffs_bitset_clear`, `fffs_bitset_get`, `fffs_bitset_set`
unfoldable pub bitset_clear : List ℕ → ℕ → List ℕ
bitset_clear words word_count = replicate word_count 0 ++ drop word_count words

unfoldable pub bitset_get : List ℕ → ℕ → Bool
bitset_get words bit = bit_and (get_or words (bit / 32) 0) (2 ^ (bit % 32)) != 0

unfoldable pub bitset_set : List ℕ → ℕ → List ℕ
bitset_set words bit = set words (bit / 32) (bit_or (get_or words (bit / 32) 0) (2 ^ (bit % 32)))
