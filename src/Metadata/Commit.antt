-- ===== src/Metadata/Commit.antt =====
-- `fffs_program_extent_metadata` on reliable flash: the record can be decoded again.
use fastffs.Prelude.{
  inl, ℕ, zero, suc, ◌+◌, ◌-◌, ◌*◌, ◌%◌, ◌≤◌, ◌<◌, ◌≡◌, ◌⊎◌, refl, sym, ap, ap₂, ◌∙◌, arith, List,
  [], ◌∷◌, ◌++◌, take, length, length-append, get_or, get_or-append_left, Bool, true, false, not,
  ◌||◌, ◌==◌, if◌then◌else◌,
}
use fastffs.Status.{ok, pure, ◌>>=◌, ◌>>◌}
use fastffs.Bytes.{AreBytes, store_le16, store_le32}
use fastffs.Lifecycle.{lifecycle_full}
use fastffs.Flash.{Backend}
use fastffs.Flash.Nor.{IsNor, IsReliable, span}
use fastffs.Flash.Spans.{program_aligned-span}
use fastffs.Sector.{
  footer_size, footer_offset, mark_sector_full, encode_sector_footer, SectorReader,
}
use fastffs.Sector.Window.{Mirrors}
use fastffs.Fs.{Fs, geometry, on_flash}
use fastffs.AllocMap.{mark_used}
use fastffs.Metadata.{
  md_type_file_root, md_type_file_cont, walk_record, MdWalk, Walking, decode_file_md_record,
}
use fastffs.Metadata.Step.{IsExtent}
use fastffs.Metadata.Program.{
  Extent, md_record_bytes, serial_claimed, claim_sector_serial, footer_tail, little_room,
  program_tail, mark_full, program_extent_metadata,
}
use fastffs.Metadata.Written.{written_record, Fits}
use fastffs.Metadata.Decode.{decode_file_md_record-written}

length-md_record_bytes : (e : Extent) → Fits e → length (md_record_bytes e) ≡ 16
unfolding md_record_bytes store_le16 store_le32
length-md_record_bytes e h = rw h.6 (ground arith)

get_or-AreBytes : (xs : List ℕ) (i : ℕ) → AreBytes xs → i < length xs → get_or xs i 0xff < 256
get_or-AreBytes [] i h lt = absurd (omega arith)
get_or-AreBytes (x ∷ xs) zero h lt = h.0
get_or-AreBytes (x ∷ xs) (suc i) h lt = get_or-AreBytes xs i h.1 (omega arith)

md_record_bytes-AreBytes :
    (e : Extent) → Fits e → e.extent_type < 256 → AreBytes (md_record_bytes e)
unfolding md_record_bytes store_le16 store_le32
md_record_bytes-AreBytes e h type = rw h.6 (ground arith)

take-append : (xs ys : List ℕ) → take (length xs) (xs ++ ys) ≡ xs
take-append [] ys = refl
take-append (x ∷ xs) ys = ap (λ zs. x ∷ zs) (take-append xs ys)

span_same :
    (cells cells' : ℕ → ℕ) (off n : ℕ)
    → ((i : ℕ) → i < off + n → cells' i ≡ cells i)
    → span cells' off n ≡ span cells off n
span_same cells cells' off zero h = refl
span_same cells cells' off (suc n) h =
    ap₂ ◌∷◌ (h off (omega arith)) (span_same cells cells' (suc off) n (λ i lt. h i (omega arith)))

module _ {Ctx : Type 0} {b : Backend Ctx} {cell : Ctx → ℕ → ℕ} (nor : IsNor b cell)
    (works : IsReliable b) (pos : 0 < b.program_granule) (fits : b.size % b.program_granule ≡ 0)
    (sector off : ℕ) where
  -- A record has its place in the sector.
  abbrev HasPlace : Fs Ctx → Type 0
  HasPlace fs =
      (fs.sector_count * fs.sector_size ≤ b.size)
      × (sector < fs.sector_count)
      × (footer_size ≤ off)
      × (off + 16 + footer_size ≤ fs.sector_size)

  sector_end : (s n size : ℕ) → s < n → s * size + size ≤ n * size
  sector_end s n size lt = grind arith

  tail_written :
      (e : Extent) (foot : List ℕ) (fs : Fs Ctx)
      → HasPlace fs
      → length foot ≤ footer_size
      → Fits e
      → e.extent_type < 256
      → ((i : ℕ) → i < 16 → cell fs.ctx (sector * fs.sector_size + off + i) ≡ 0xff)
      → (c' : Ctx) × (program_tail b sector off (md_record_bytes e ++ foot) fs
          ≡ (ok tt, record fs { ctx = c' }))
        × (span (cell c') (sector * fs.sector_size + off) 16 ≡ md_record_bytes e)
  unfolding program_tail on_flash
  tail_written e foot fs (room, lt, above, below) short h type erased =
      let (c', r, bytes, kept) =
        program_aligned-span nor works pos fits (sector * fs.sector_size + off)
          (md_record_bytes e ++ foot) 16 fs.ctx
          (omega (arith, total, sector_end sector fs.sector_count fs.sector_size lt))
          (omega (arith, total))
          (λ i lt.
            rw
              (get_or-append_left (md_record_bytes e) foot i 0xff
                (rw (length-md_record_bytes e h) lt))
              (get_or-AreBytes (md_record_bytes e) i (md_record_bytes-AreBytes e h type)
                (rw (length-md_record_bytes e h) lt)))
          erased in
      (
        c',
        rw r refl,
        bytes
            ∙ ap (λ n. take n (md_record_bytes e ++ foot)) (sym (length-md_record_bytes e h))
            ∙ take-append (md_record_bytes e) foot,
      )
    where
      total : length (md_record_bytes e ++ foot) ≡ 16 + length foot
      total =
          length-append (md_record_bytes e) foot
          ∙ ap (λ n. n + length foot) (length-md_record_bytes e h)

  mark_full_lem :
      (fs : Fs Ctx)
      → HasPlace fs
      → (fs' : Fs Ctx) × (mark_full b sector fs ≡ (ok tt, fs'))
        × (geometry fs' ≡ geometry fs)
        × (span (cell fs'.ctx) (sector * fs.sector_size + off) 16
            ≡ span (cell fs.ctx) (sector * fs.sector_size + off) 16)
  unfolding mark_full on_flash mark_sector_full footer_offset
  mark_full_lem fs (room, lt, above, below) =
      let (c', r, bytes, kept) =
        program_aligned-span nor works pos fits
          (sector * fs.sector_size + fs.sector_size - footer_size + 5) (lifecycle_full ∷ []) 0
          fs.ctx (omega (arith, sector_end sector fs.sector_count fs.sector_size lt)) (omega arith)
          (λ i lt. absurd (omega arith)) (λ i lt. absurd (omega arith)) in
      (
        record fs { ctx = c'; alloc_map = mark_used fs.sector_count fs.alloc_map sector },
        rw r refl,
        refl,
        span_same (cell fs.ctx) (cell c') (sector * fs.sector_size + off) 16
            (λ i lt. kept i (inl (omega arith))),
      )

  short_footer : (serial : ℕ) → length (encode_sector_footer serial true) ≤ footer_size
  unfolding encode_sector_footer store_le32
  short_footer serial = omega arith

  -- On reliable NOR flash that has room for the sectors and whose size is a multiple of its
  -- granule, programming the record of a live extent, with or without the footer, on erased cells
  -- of a data sector, under the footer, succeeds; where the fields fit the record and the extent is
  -- one of the volume, decoding at the end of the record, through a window that mirrors the flash,
  -- then gives a record with these fields.
  pub program_extent_metadata-decode :
      (write_footer : Bool) (e : Extent) (fs : Fs Ctx)
      → HasPlace fs
      → (e.extent_type ≡ md_type_file_root) ⊎ (e.extent_type ≡ md_type_file_cont)
      → Fits e
      → IsExtent (geometry fs) sector (written_record off e)
      → ((i : ℕ) → i < 16 → cell fs.ctx (sector * fs.sector_size + off + i) ≡ 0xff)
      → (fs' : Fs Ctx) × (program_extent_metadata b sector off write_footer e fs ≡ (ok tt, fs'))
        × ((walk : MdWalk) (window : SectorReader)
            → Mirrors (geometry fs) (cell fs'.ctx) window
            → 16 ≤ window.capacity
            → (w' : Walking Ctx) × (decode_file_md_record b
                  (geometry fs)
                  sector
                  (off + 16)
                  (record { walk = walk; window = window; ctx = fs'.ctx })
                ≡ (ok (written_record off e, walk_record), w')))
  unfolding program_extent_metadata footer_tail claim_sector_serial serial_claimed
  program_extent_metadata-decode write_footer e fs place type h extent erased =
      rw (of_a_file type) (with_footer write_footer)
    where
      of_a_file :
          (e.extent_type ≡ md_type_file_root) ⊎ (e.extent_type ≡ md_type_file_cont)
          → not (e.extent_type == md_type_file_root || e.extent_type == md_type_file_cont) ≡ false
      of_a_file h = ground arith

      byte :
          (e.extent_type ≡ md_type_file_root) ⊎ (e.extent_type ≡ md_type_file_cont)
          → e.extent_type < 256
      byte h = ground arith

      -- What a state has to have.
      IsWritten : Fs Ctx → Type 0
      IsWritten fs' = span (cell fs'.ctx) (sector * fs.sector_size + off) 16 ≡ md_record_bytes e

      decoded :
          (fs' : Fs Ctx)
          → IsWritten fs'
          → (walk : MdWalk) (window : SectorReader) → Mirrors (geometry fs) (cell fs'.ctx) window
          → 16 ≤ window.capacity
          → (w' : Walking Ctx) × (decode_file_md_record b
                (geometry fs)
                sector
                (off + 16)
                (record { walk = walk; window = window; ctx = fs'.ctx })
              ≡ (ok (written_record off e, walk_record), w'))
      decoded fs' bytes walk window mirrors capacity =
          let (w', r, mirrors', kept) =
            decode_file_md_record-written nor works (geometry fs) place.0 sector off e
              (record { walk = walk; window = window; ctx = fs'.ctx }) mirrors place.1 place.2
              (omega (arith, place.3)) capacity type h extent bytes in
          (w', r)

      marked :
          (full : Bool) (fs1 : Fs Ctx)
          → HasPlace fs1
          → fs1.sector_size ≡ fs.sector_size
          → IsWritten fs1
          → (fs' : Fs Ctx) × ((if full then mark_full b sector else pure tt) fs1 ≡ (ok tt, fs'))
            × IsWritten fs'
      marked true fs1 place1 same bytes =
          let (fs', r, g', kept) = mark_full_lem fs1 place1 in
          (
            fs',
            r,
            ap (λ size. span (cell fs'.ctx) (sector * size + off) 16) (sym same)
                ∙ kept
                ∙ ap (λ size. span (cell fs1.ctx) (sector * size + off) 16) same
                ∙ bytes,
          )
      marked false fs1 place1 same bytes = (fs1, refl, bytes)

      finish :
          (foot : List ℕ) (full : Bool) (fs1 : Fs Ctx)
          → length foot ≤ footer_size
          → HasPlace fs1
          → fs1.sector_size ≡ fs.sector_size
          → fs1.ctx ≡ fs.ctx
          → (fs' : Fs Ctx) × ((program_tail b sector off (md_record_bytes e ++ foot)
                  >> (if full then mark_full b sector else pure tt))
                fs1
              ≡ (ok tt, fs'))
            × IsWritten fs'
      finish foot full fs1 short place1 size ctx =
          let (c', r, bytes) =
            tail_written e foot fs1 place1 short h (byte type)
              (λ i lt. ap₂ (λ c n. cell c (sector * n + off + i)) ctx size ∙ erased i lt) in
          let (fs', r', written) =
            marked full (record fs1 { ctx = c' }) place1 size
              (ap (λ n. span (cell c') (sector * n + off) 16) (sym size) ∙ bytes) in
          (fs', rw r r', written)

      with_footer :
          (write_footer : Bool)
          → (fs' : Fs Ctx) × ((footer_tail write_footer >>= λ footer.
                  program_tail b sector off (md_record_bytes e ++ footer)
                  >> (if e.extent_type == md_type_file_cont || little_room e off
                      then mark_full b sector
                      else pure tt))
                fs
              ≡ (ok tt, fs'))
            × ((walk : MdWalk) (window : SectorReader)
                → Mirrors (geometry fs) (cell fs'.ctx) window
                → 16 ≤ window.capacity
                → (w' : Walking Ctx) × (decode_file_md_record b
                      (geometry fs)
                      sector
                      (off + 16)
                      (record { walk = walk; window = window; ctx = fs'.ctx })
                    ≡ (ok (written_record off e, walk_record), w')))
      with_footer true =
          let (fs', r, written) =
            finish (encode_sector_footer fs.next_sector_serial true)
              (e.extent_type == md_type_file_cont || little_room e off) (serial_claimed fs)
              (short_footer fs.next_sector_serial) place refl refl in
          (fs', r, decoded fs' written)
      with_footer false =
          let (fs', r, written) =
            finish [] (e.extent_type == md_type_file_cont || little_room e off) fs (omega arith)
              place refl refl in
          (fs', r, decoded fs' written)
