-- ===== src/FsInfo.antt =====
-- The counters of committed files in `struct fffs`, and the functions of src/fastffs.c that keep
-- them: they are only changed while they are known.
use fastffs.Prelude.{ℕ, ◌+◌, ◌-◌, bit_and, Bool, not, ◌||◌, ◌==◌, ltb, if◌then◌else◌}
use fastffs.Bytes.{u32}

-- `FFFS_FSINFO_COMMITTED_FILES_VALID` and `FFFS_FSINFO_COMMITTED_BYTES_VALID` together, and
-- `FFFS_FSINFO_METADATA_ESTIMATE_VALID`
abbrev pub committed_flags : ℕ
committed_flags = 0x06

abbrev pub metadata_estimate_flag : ℕ
metadata_estimate_flag = 0x10

pub record FsInfo : Type 0 where
  pub valid_flags : ℕ
  pub committed_file_count : ℕ
  pub committed_data_bytes : ℕ

-- `flags & ~mask` of 32 bits.
abbrev pub without_flags : ℕ → ℕ → ℕ
without_flags flags mask = bit_and flags (0xffffffff - mask)

unfoldable pub invalidate_committed : FsInfo → FsInfo
invalidate_committed info = record info { valid_flags = without_flags info.valid_flags 0x16 }

unfoldable pub committed_valid : FsInfo → Bool
committed_valid info = bit_and info.valid_flags committed_flags == committed_flags

unfoldable pub note_committed_add : ℕ → FsInfo → FsInfo
note_committed_add size info = if not (committed_valid info) then info else record {
  valid_flags = without_flags info.valid_flags metadata_estimate_flag;
  committed_file_count = u32 (info.committed_file_count + 1);
  committed_data_bytes = u32 (info.committed_data_bytes + size);
}

unfoldable pub note_committed_delete : ℕ → FsInfo → FsInfo
note_committed_delete size info =
    if not (committed_valid info)
    then info
    else if info.committed_file_count == 0 || ltb info.committed_data_bytes size
    then invalidate_committed info
    else record {
      valid_flags = without_flags info.valid_flags metadata_estimate_flag;
      committed_file_count = info.committed_file_count - 1;
      committed_data_bytes = info.committed_data_bytes - size;
    }
