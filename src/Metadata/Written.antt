-- ===== src/Metadata/Written.antt =====
-- A record that was programmed is decoded as what it was made of.
use fastffs.Prelude.{
  ℕ, ◌^◌, ◌<◌, ◌≡◌, refl, arith, List, ◌++◌, take, Bool, true, false, not, ◌||◌, ◌==◌,
}
use fastffs.Bytes.{store_le16, store_le32, bytes_erased}
use fastffs.Bytes.Laws.{load_le16-store_le16, load_le32-store_le32}
use fastffs.Lifecycle.{
  lifecycle_valid, lifecycle_valid_pair, lifecycle_tombstone_pair, lifecycle_is_live, is_cleared,
  is_set, bitmirror_state,
}
use fastffs.Sector.{Geometry, md_file_record_size}
use fastffs.Metadata.{
  md_type_file_root, walk_record, MdRecord, record_fields, record_result, decoded_bytes,
}
use fastffs.Metadata.Step.{IsExtent}
use fastffs.Metadata.Program.{Extent, md_record_bytes}

-- The record that stands for a live extent.
abbrev pub written_record : ℕ → Extent → MdRecord
written_record start e = record {
  type = e.extent_type;
  state = lifecycle_valid;
  live = true;
  slot = e.slot;
  next_sector = e.next_sector;
  span_len = e.span_len;
  data_off = e.data_off;
  data_len = e.data_len;
  size_or_offset = e.size_or_offset;
  record_start = start;
  record_len = md_file_record_size;
}

-- The fields fit their place in the record.
abbrev pub Fits : Extent → Type 0
Fits e =
    (e.slot < 2 ^ 16)
    × (e.next_sector < 2 ^ 16)
    × (e.span_len < 2 ^ 16)
    × (e.data_off < 2 ^ 16)
    × (e.data_len < 2 ^ 16)
    × (e.size_or_offset < 2 ^ 32)
    × (e.live ≡ true)

or_true : (x : Bool) → (x || true) ≡ true
or_true true = refl
or_true false = refl

record_fields-md_record_bytes :
    (start : ℕ) (e : Extent) (rest : List ℕ)
    → Fits e
    → record_fields start e.extent_type (md_record_bytes e ++ rest) ≡ written_record start e
unfolding record_fields md_record_bytes store_le16 store_le32 lifecycle_is_live lifecycle_valid_pair
    lifecycle_tombstone_pair bitmirror_state is_cleared is_set
record_fields-md_record_bytes start e rest h =
    rw
      (
        h.6,
        or_true (not (e.extent_type == md_type_file_root)),
        load_le16-store_le16 e.slot _ h.0,
        load_le16-store_le16 e.next_sector _ h.1,
        load_le16-store_le16 e.span_len _ h.2,
        load_le16-store_le16 e.data_off _ h.3,
        load_le16-store_le16 e.data_len _ h.4,
        load_le32-store_le32 e.size_or_offset _ h.5,
      )
      refl

record_result-written :
    (g : Geometry) (sector start : ℕ) (e : Extent)
    → IsExtent g sector (written_record start e)
    → record_result g sector (written_record start e) ≡ walk_record
unfolding record_result
record_result-written g sector start e (below, extent) = ground (arith, extent (omega arith))

written_not_erased :
    (e : Extent) (rest : List ℕ)
    → e.live ≡ true
    → bytes_erased (take 16 (md_record_bytes e ++ rest)) ≡ false
unfolding bytes_erased md_record_bytes
written_not_erased e rest h = rw h refl

-- The bytes of a live extent, whatever is read after them, are decoded as the record of it.
pub decoded_bytes-md_record_bytes :
    (g : Geometry) (sector start : ℕ) (e : Extent) (rest : List ℕ)
    → Fits e
    → IsExtent g sector (written_record start e)
    → decoded_bytes g sector start e.extent_type (md_record_bytes e ++ rest)
      ≡ (written_record start e, walk_record)
unfolding decoded_bytes
decoded_bytes-md_record_bytes g sector start e rest h extent =
    rw
      (
        written_not_erased e rest h.6,
        record_fields-md_record_bytes start e rest h,
        record_result-written g sector start e extent,
      )
      refl
