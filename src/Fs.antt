-- ===== src/Fs.antt =====
-- `struct fffs` of include/fastffs/fastffs.h: the fields that the modelled operations use, beside
-- the context of the backend, which is where the flash is. The backend itself never changes while
-- a volume is mounted, and is a parameter of the operations.
use fastffs.Prelude.{ℕ, List, Bool}
use fastffs.Status.{Action}
use fastffs.HashIndex.{Bucket}
use fastffs.Sector.{Geometry}

pub record Fs (Ctx : Type 0) : Type 0 where
  pub ctx : Ctx
  pub index_cache : List Bucket
  pub alloc_map : List ℕ
  pub sector_size : ℕ
  pub sector_count : ℕ
  pub sector_shift : ℕ
  pub index_sectors : ℕ
  pub oldest_index_sector : ℕ
  pub index_sequence_count : ℕ
  pub active_index_sector : ℕ
  pub next_index_offset : ℕ
  pub active_index_serial : ℕ
  pub alloc_cursor : ℕ
  pub gc_cursor : ℕ
  pub next_sector_serial : ℕ
  pub scratch_size : ℕ
  pub strict : Bool

-- The fields that the functions on sectors read.
abbrev pub geometry : {Ctx : Type 0} → Fs Ctx → Geometry
geometry fs = record {
  sector_size = fs.sector_size;
  sector_count = fs.sector_count;
  index_sectors = fs.index_sectors;
}

-- A call that touches the flash alone.
unfoldable pub on_flash : {Ctx A : Type 0} → Action Ctx A → Action (Fs Ctx) A
on_flash m fs = let (r, c) = m fs.ctx in (r, record fs { ctx = c })
