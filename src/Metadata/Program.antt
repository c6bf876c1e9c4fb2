-- ===== src/Metadata/Program.antt =====
-- `fffs_program_extent_metadata` of src/fffs_file_md.c: the record of an extent is programmed, with
-- the footer where it is the first one, and the sector is marked full where it is of no more use.
use fastffs.Prelude.{
  ℕ, ◌+◌, ◌-◌, ◌*◌, List, [], ◌∷◌, ◌++◌, Bool, true, false, not, ◌||◌, ◌==◌, ltb, leb,
  if◌then◌else◌,
}
use fastffs.Status.{invalid, Action, pure, fail, gets, modify, ◌>>=◌, ◌>>◌}
use fastffs.Bytes.{u32, store_le16, store_le32}
use fastffs.Lifecycle.{lifecycle_valid}
use fastffs.Flash.{Backend, program_aligned}
use fastffs.AllocMap.{mark_used}
use fastffs.Sector.{encode_sector_footer, mark_sector_full}
use fastffs.Fs.{Fs, geometry, on_flash}
use fastffs.Metadata.{md_type_file_root, md_type_file_cont}

-- `FFFS_ALLOC_MIN_USABLE_FREE`
abbrev pub min_usable_free : ℕ
min_usable_free = 128

-- The arguments that go into the record; `extent_type` is `type` of the C code.
pub record Extent : Type 0 where
  pub slot : ℕ
  pub extent_type : ℕ
  pub data_off : ℕ
  pub data_len : ℕ
  pub span_len : ℕ
  pub size_or_offset : ℕ
  pub next_sector : ℕ
  pub live : Bool

abbrev erased_16 : List ℕ
erased_16 = 0xff ∷ 0xff ∷ []

-- What is not known before the commit stays erased.
unfoldable pub md_record_bytes : Extent → List ℕ
md_record_bytes e =
    (if e.live then lifecycle_valid else 0xff) ∷ store_le16 e.slot
    ++ (if e.live then store_le16 e.next_sector else erased_16)
    ++ (if e.live then store_le16 e.span_len else erased_16)
    ++ store_le16 e.data_off
    ++ store_le16 e.data_len
    ++ (if not (e.extent_type == md_type_file_root) || e.live
        then store_le32 e.size_or_offset
        else erased_16 ++ erased_16)
    ++ e.extent_type ∷ []

unfoldable pub serial_claimed : {Ctx : Type 0} → Fs Ctx → Fs Ctx
serial_claimed fs =
    let serial = u32 (fs.next_sector_serial + 1) in
    record fs { next_sector_serial = if serial == 0 then 1 else serial }

unfoldable pub claim_sector_serial : {Ctx : Type 0} → Action (Fs Ctx) ℕ
claim_sector_serial = do
  serial ← gets (λ fs. fs.next_sector_serial)
  modify serial_claimed
  pure serial

-- The footer to write, if any.
unfoldable pub footer_tail : {Ctx : Type 0} → Bool → Action (Fs Ctx) (List ℕ)
footer_tail true = do serial ← claim_sector_serial; pure (encode_sector_footer serial true)
footer_tail false = pure []

-- `low_free` of the C code.
unfoldable pub little_room : Extent → ℕ → Bool
little_room e record_off =
    let data_end = e.data_off + e.data_len in
    leb record_off data_end || ltb (record_off - data_end) min_usable_free

module _ {Ctx : Type 0} (b : Backend Ctx) where
  unfoldable pub program_tail : ℕ → ℕ → List ℕ → Action (Fs Ctx) (Unit {0})
  program_tail sector record_off tail fs =
      on_flash (program_aligned b (sector * fs.sector_size + record_off) tail) fs

  unfoldable pub mark_full : ℕ → Action (Fs Ctx) (Unit {0})
  mark_full sector fs =
      (on_flash (mark_sector_full b (geometry fs) sector)
          >> modify (λ fs. record fs { alloc_map = mark_used fs.sector_count fs.alloc_map sector }))
        fs

  unfoldable pub program_extent_metadata : ℕ → ℕ → Bool → Extent → Action (Fs Ctx) (Unit {0})
  program_extent_metadata sector record_off write_footer e =
      if not (e.extent_type == md_type_file_root || e.extent_type == md_type_file_cont)
      then fail invalid
      else do
        footer ← footer_tail write_footer
        program_tail sector record_off (md_record_bytes e ++ footer)
        if e.extent_type == md_type_file_cont || little_room e record_off
            then mark_full sector
            else pure tt
