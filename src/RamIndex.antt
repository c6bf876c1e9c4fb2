-- ===== src/RamIndex.antt =====
-- src/fffs_ram_index.c, the cache that keeps one head for every slot (the mode
-- FFFS_INDEX_CACHE_FULL_SLOT_HEADS). `fs->index_heads` is a list of FFFS_SLOT_COUNT heads, and a
-- slot, which has 16 bits, is below its length.
pub mod Refine
use fastffs.Prelude.{
  ℕ, suc, ◌+◌, ◌*◌, List, [], ◌∷◌, Option, some, none, Bool, ◌&&◌, ◌==◌, ◌!=◌, leb, if◌then◌else◌,
  get_or, set,
}

-- `FFFS_SLOT_COUNT`
abbrev pub slot_count : ℕ
slot_count = 65536

unfoldable pub heads_config_valid : ℕ → Bool
heads_config_valid count = leb slot_count count

-- Two bytes for each slot, whatever the count is.
unfoldable pub heads_required_size : ℕ → ℕ
heads_required_size count = 2 * slot_count

unfoldable pub insert_head : List ℕ → ℕ → ℕ → List ℕ
insert_head index_heads slot head = set index_heads slot head

unfoldable pub remove_head : List ℕ → ℕ → List ℕ
remove_head index_heads slot = set index_heads slot 0

unfoldable pub put_head : List ℕ → ℕ → ℕ → List ℕ
put_head index_heads slot head =
    if head == 0 then remove_head index_heads slot else insert_head index_heads slot head

-- `head` and `found` of `fffs_index_head_for_slot`.
unfoldable pub find_head : List ℕ → ℕ → ℕ × Bool
find_head index_heads slot = let head = get_or index_heads slot 0 in (head, head != 0)

unfoldable pub head_is_current : List ℕ → ℕ → ℕ → Bool
head_is_current index_heads slot head =
    let (current_head, found) = find_head index_heads slot in found && current_head == head

-- `fffs_index_iter_read` on the heads from `pos` on: the next position, and the slot and the head
-- that were found, if any.
unfoldable pub iter_heads : List ℕ → ℕ → ℕ × Option (ℕ × ℕ)
iter_heads [] pos = (pos, none)
iter_heads (head ∷ index_heads) pos =
    if head == 0 then iter_heads index_heads (pos + 1) else (pos + 1, some (pos, head))
