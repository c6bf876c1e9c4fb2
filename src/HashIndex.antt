-- ===== src/HashIndex.antt =====
-- src/fffs_hashtable_index.c, the open-addressed table of the default cache mode
-- (FFFS_INDEX_CACHE_HASH_HEADS). `fs->index_cache` is the list of its buckets, whose length is
-- `fs->index_hash_table_size`; an index is below it, so that no access is out of range.
pub mod Cycle
pub mod Find
pub mod Lookup
pub mod Insert
pub mod Shift
pub mod Move
pub mod Remove
pub mod Full
use fastffs.Prelude.{
  ℕ, zero, suc, ◌+◌, ◌-◌, ◌*◌, ◌%◌, ◌^◌, bit_and, List, [], ◌∷◌, Option, some, none, Bool, true,
  false, ◌&&◌, ◌==◌, ◌!=◌, ltb, leb, if◌then◌else◌, get_or, set, length,
}
use fastffs.Status.{Error, Result, ok, err, invalid, no_space}

-- `struct fffs_index_bucket`; slot 0 marks an empty bucket.
pub record Bucket : Type 0 where
  pub slot : ℕ
  pub head : ℕ

abbrev pub empty_bucket : Bucket
empty_bucket = record { slot = 0; head = 0 }

abbrev pub bucket_at : List Bucket → ℕ → Bucket
bucket_at table i = get_or table i empty_bucket

-- `FFFS_INDEX_HASH_TABLE_SIZE_MAX`
abbrev pub hash_table_size_max : ℕ
hash_table_size_max = 16384

unfoldable pub is_power_of_two : ℕ → Bool
is_power_of_two n = n != 0 && bit_and n (n - 1) == 0

unfoldable pub cache_config_valid : ℕ → Bool
unfolding is_power_of_two
cache_config_valid count = is_power_of_two count && leb count hash_table_size_max

unfoldable pub cache_required_size : ℕ → ℕ
cache_required_size count = 4 * count

unfoldable pub bucket_for : ℕ → ℕ → ℕ
bucket_for size slot = bit_and slot (size - 1)

-- `(pos + 1) & mask`
unfoldable pub next_bucket : ℕ → ℕ → ℕ
next_bucket size pos = bit_and (pos + 1) (size - 1)

-- The difference of two `size_t` wraps.
unfoldable pub probe_distance : ℕ → ℕ → ℕ → ℕ
probe_distance mask from to = bit_and ((to + 2 ^ 64 - from) % 2 ^ 64) mask

-- The loop of `find_slot_bucket`, with the probes left: the index, and whether the slot is there.
unfoldable pub find_from : List Bucket → ℕ → ℕ → ℕ → Result (ℕ × Bool)
find_from table slot zero pos = err no_space
find_from table slot (suc left) pos =
    let later = find_from table slot left (next_bucket (length table) pos) in
    let bucket = bucket_at table pos in
    if bucket.slot == 0
    then ok (pos, false)
    else if bucket.slot == slot
    then ok (pos, true)
    else later

unfoldable pub find_slot_bucket : List Bucket → ℕ → Result (ℕ × Bool)
find_slot_bucket table slot =
    if slot == 0
    then err invalid
    else find_from table slot (length table) (bucket_for (length table) slot)

-- The loop of `remove_bucket_at`, with fuel; `none` means that the loop has not come to an end.
unfoldable pub shift_back : ℕ → List Bucket → ℕ → ℕ → Option (List Bucket)
shift_back zero table hole idx = none
shift_back (suc fuel) table hole idx =
    let size = length table in
    let moving = bucket_at table idx in
    let home = bucket_for size moving.slot in
    let closer = ltb (probe_distance (size - 1) home hole) (probe_distance (size - 1) home idx) in
    let rest =
      shift_back fuel (if closer then set table hole moving else table)
        (if closer then idx else hole) (next_bucket size idx) in
    if moving.slot == 0 then some (set table hole empty_bucket) else rest

unfoldable pub remove_bucket_at : ℕ → List Bucket → ℕ → Option (List Bucket)
remove_bucket_at fuel table remove_idx =
    shift_back fuel table remove_idx (next_bucket (length table) remove_idx)

unfoldable pub insert : List Bucket → ℕ → ℕ → Result (List Bucket)
insert table slot head = elim (find_slot_bucket table slot) [
  | ok (idx, found) ↦ ok (set table idx (record { slot = slot; head = head }))
  | err e ↦ err e
]

-- `none` where `remove_bucket_at` has not come to an end.
unfoldable pub remove_found : ℕ → List Bucket → Result (ℕ × Bool) → Option (Result (List Bucket))
remove_found fuel table (ok (idx, true)) = elim (remove_bucket_at fuel table idx) [
  | some table' ↦ some (ok table')
  | none ↦ none
]
remove_found fuel table (ok (idx, false)) = some (ok table)
remove_found fuel table (err no_space) = some (ok table)
remove_found fuel table (err e) = some (err e)

-- The loop looks at each bucket once at most where it ends.
unfoldable pub remove : List Bucket → ℕ → Option (Result (List Bucket))
remove table slot = remove_found (length table) table (find_slot_bucket table slot)

unfoldable pub set_head : List Bucket → ℕ → ℕ → Option (Result (List Bucket))
set_head table slot head = if head == 0 then remove table slot else some (insert table slot head)

-- `head` and `found` of `fffs_index_head_for_slot`.
unfoldable pub head_of : List Bucket → Result (ℕ × Bool) → Result (ℕ × Bool)
head_of table (ok (idx, true)) = ok ((bucket_at table idx).head, true)
head_of table (ok (idx, false)) = ok (0, false)
head_of table (err no_space) = ok (0, false)
head_of table (err e) = err e

unfoldable pub head_for_slot : List Bucket → ℕ → Result (ℕ × Bool)
head_for_slot table slot = head_of table (find_slot_bucket table slot)

unfoldable pub record_is_current : List Bucket → ℕ → ℕ → Result Bool
record_is_current table slot head = elim (head_for_slot table slot) [
  | ok (current_head, found) ↦ ok (found && current_head == head)
  | err e ↦ err e
]

-- `fffs_index_iter_read` from `pos` on: the next position and the bucket found, if any.
unfoldable pub iter_from : List Bucket → ℕ → ℕ × Option Bucket
iter_from [] pos = (pos, none)
iter_from (bucket ∷ table) pos =
    if bucket.slot == 0 then iter_from table (pos + 1) else (pos + 1, some bucket)
