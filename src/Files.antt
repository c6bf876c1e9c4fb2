-- ===== src/Files.antt =====
-- `struct fffs_file` of include/fastffs/fastffs.h as the index, the allocator and garbage collection
-- see it through `fs->open_files`, which is the list of the open files. `wronly` is the flag
-- FFFS_O_WRONLY.
pub mod Reserve
pub mod Reserved
use fastffs.Prelude.{
  ℕ, List, [], ◌∷◌, Bool, true, false, not, ◌&&◌, ◌||◌, ◌==◌, ◌!=◌, leb, if◌then◌else◌,
}

pub record OpenFile : Type 0 where
  pub slot : ℕ
  pub head : ℕ
  pub current : ℕ
  pub span_head : ℕ
  pub data_offset : ℕ
  pub current_write_offset : ℕ
  pub current_metadata_offset : ℕ
  pub current_needs_footer : Bool
  pub reserve_first : ℕ
  pub reserve_count : ℕ
  pub wronly : Bool
  pub closed : Bool

-- The body of the loop of `fffs_sector_is_open_for_writing`.
unfoldable pub file_writes : OpenFile → ℕ → Bool
file_writes file sector =
    if file.closed || not file.wronly
    then false
    else if file.head == sector || file.current == sector
    then true
    else file.span_head != 0 && leb file.span_head sector && leb sector file.current

unfoldable pub sector_is_open_for_writing : List OpenFile → ℕ → Bool
sector_is_open_for_writing [] sector = false
sector_is_open_for_writing (file ∷ files) sector =
    if file_writes file sector then true else sector_is_open_for_writing files sector

unfoldable pub slot_is_pinned : List OpenFile → ℕ → Bool
slot_is_pinned [] slot = false
slot_is_pinned (file ∷ files) slot =
    if not file.closed && file.slot == slot then true else slot_is_pinned files slot
