-- ===== src/Sector/Tombstone.antt =====
-- The tombstone of a sector with a live footer.
use fastffs.Prelude.{
  ℕ, zero, suc, ◌+◌, ◌-◌, ◌*◌, ◌%◌, ◌^◌, ◌≤◌, ◌<◌, ◌≡◌, refl, ap, ◌∙◌, sym, arith, List, [], ◌∷◌,
  Bool, false, get_or, length, bit_and, ltb_ge, lt→ltb, get_or_ext,
}
use native.Mathlib.Decide.{dec_lt}
use fastffs.Status.{ok}
use fastffs.Bytes.{store_le32}
use fastffs.Bytes.Laws.{load_le32-store_le32}
use fastffs.Lifecycle.{lifecycle_valid, lifecycle_tombstoned, lifecycle_is_live}
use fastffs.Flash.{Backend}
use fastffs.Flash.Nor.{IsNor, IsReliable, overlay, span, length-span, get_or-span, bit_and-0xff}
use fastffs.Flash.Commit.{program_aligned-writes}
use fastffs.Sector.{
  Geometry, footer_size, sector_type_file, sector_magic, footer_offset, decode_sector_footer,
  footer_serial, read_sector_serial, tombstone_sector,
}
use fastffs.Sector.Footer.{footer_bytes, fresh_view, read_sector_serial-viewed, footer_inside}

overlay-shift :
    (off at i : ℕ) (bytes : List ℕ) → overlay (off + at) bytes (off + i) ≡ overlay at bytes i
overlay-shift off at i bytes = elim (dec_lt i at) [
  | yes before ↦ rw (lt→ltb (off + i) (off + at) (omega arith), lt→ltb i at before) refl
  | no later ↦
      rw (ltb_ge (off + i) (off + at) (omega arith), ltb_ge i at (omega arith), same off at i) refl
]
  where
    same : (off at i : ℕ) → off + i - (off + at) ≡ i - at
    same off at i = omega arith

abbrev tombstone_bytes : List ℕ
tombstone_bytes = sector_type_file ∷ lifecycle_tombstoned ∷ 0xff ∷ 0xff ∷ []

-- Each byte of a live footer with the tombstone programmed onto it.
tombstoned_byte :
    (serial i : ℕ)
    → i < 10
    → bit_and (get_or (footer_bytes serial lifecycle_valid) i 0xff) (overlay 4 tombstone_bytes i)
      ≡ get_or (footer_bytes serial lifecycle_tombstoned) i 0xff
unfolding store_le32
tombstoned_byte serial zero h = bit_and-0xff _ (omega arith)
tombstoned_byte serial (suc zero) h = bit_and-0xff _ (omega arith)
tombstoned_byte serial (suc (suc zero)) h = bit_and-0xff _ (omega arith)
tombstoned_byte serial (suc (suc (suc zero))) h = bit_and-0xff _ (omega arith)
tombstoned_byte serial (suc (suc (suc (suc zero)))) h = refl
tombstoned_byte serial (suc (suc (suc (suc (suc zero))))) h = refl
tombstoned_byte serial (suc (suc (suc (suc (suc (suc zero)))))) h = refl
tombstoned_byte serial (suc (suc (suc (suc (suc (suc (suc zero))))))) h = refl
tombstoned_byte serial (suc (suc (suc (suc (suc (suc (suc (suc zero)))))))) h = refl
tombstoned_byte serial (suc (suc (suc (suc (suc (suc (suc (suc (suc zero))))))))) h = refl
tombstoned_byte serial (suc (suc (suc (suc (suc (suc (suc (suc (suc (suc i)))))))))) h =
    absurd (omega arith)

length-footer_bytes : (serial state : ℕ) → length (footer_bytes serial state) ≡ 10
unfolding store_le32
length-footer_bytes serial state = refl

footer_serial-tombstoned :
    (serial : ℕ)
    → serial < 2 ^ 32
    → footer_serial (decode_sector_footer (footer_bytes serial lifecycle_tombstoned)) ≡ ok serial
unfolding footer_serial decode_sector_footer store_le32
footer_serial-tombstoned serial h =
    ap ok (load_le32-store_le32 serial (sector_type_file ∷ lifecycle_tombstoned ∷ sector_magic) h)

-- The footer marks a live sector.
abbrev pub footer_live : List ℕ → Bool
footer_live footer =
    lifecycle_is_live (decode_sector_footer footer).valid_bits
      (decode_sector_footer footer).tombstone_bits

footer_live-tombstoned :
    (serial : ℕ) → footer_live (footer_bytes serial lifecycle_tombstoned) ≡ false
unfolding decode_sector_footer lifecycle_is_live store_le32
footer_live-tombstoned serial = refl

module _ {Ctx : Type 0} {b : Backend Ctx} {cell : Ctx → ℕ → ℕ} (nor : IsNor b cell)
    (works : IsReliable b) (g : Geometry) (whole : footer_size ≤ g.sector_size)
    (room : g.sector_count * g.sector_size ≤ b.size) (pos : 0 < b.program_granule)
    (fits : b.size % b.program_granule ≡ 0) where
  tombstone_sector_lem :
      (sector serial : ℕ) (c : Ctx)
      → sector < g.sector_count
      → span (cell c) (footer_offset g sector) footer_size ≡ footer_bytes serial lifecycle_valid
      → (c' : Ctx) × (tombstone_sector b g sector c ≡ (ok tt, c'))
        × (span (cell c') (footer_offset g sector) footer_size
            ≡ footer_bytes serial lifecycle_tombstoned)
  unfolding tombstone_sector
  tombstone_sector_lem sector serial c lt live =
      let (c', r, cells) =
        program_aligned-writes nor works pos fits (footer_offset g sector + 4) tombstone_bytes c
          (omega (arith, footer_inside nor works g whole room pos fits sector lt)) in
      (
        c',
        r,
        get_or_ext 0xff (span (cell c') (footer_offset g sector) 10)
            (footer_bytes serial lifecycle_tombstoned)
            (length-span (cell c') (footer_offset g sector) 10
              ∙ sym (length-footer_bytes serial lifecycle_tombstoned))
            (λ i h. each c' cells i (rw (length-span (cell c') (footer_offset g sector) 10) at h)),
      )
    where
      before :
          (i : ℕ)
          → i < 10
          → cell c (footer_offset g sector + i)
            ≡ get_or (footer_bytes serial lifecycle_valid) i 0xff
      before i h =
          sym (get_or-span (cell c) (footer_offset g sector) 10 i 0xff h)
          ∙ ap (λ xs. get_or xs i 0xff) live

      each :
          (c' : Ctx)
          → ((i : ℕ)
              → cell c' i
                ≡ bit_and (cell c i) (overlay (footer_offset g sector + 4) tombstone_bytes i))
          → (i : ℕ) → i < 10
          → get_or (span (cell c') (footer_offset g sector) 10) i 0xff
            ≡ get_or (footer_bytes serial lifecycle_tombstoned) i 0xff
      each c' cells i h =
          get_or-span (cell c') (footer_offset g sector) 10 i 0xff h
          ∙ cells (footer_offset g sector + i)
          ∙ rw (before i h, overlay-shift (footer_offset g sector) 4 i tombstone_bytes)
              (tombstoned_byte serial i h)

  -- On reliable NOR flash that has room for the sectors and whose size is a multiple of its
  -- granule, the tombstone of a data sector with a live footer succeeds; the footer is not live
  -- from then on, and the serial that is read of the sector is the one it had.
  pub tombstone_sector-read_sector_serial :
      (sector serial : ℕ) (c : Ctx)
      → g.index_sectors ≤ sector
      → sector < g.sector_count
      → serial < 2 ^ 32
      → span (cell c) (footer_offset g sector) footer_size ≡ footer_bytes serial lifecycle_valid
      → (c1 c2 : Ctx) × (tombstone_sector b g sector c ≡ (ok tt, c1))
        × (footer_live (span (cell c1) (footer_offset g sector) footer_size) ≡ false)
        × (read_sector_serial b g sector c1 ≡ (ok serial, c2))
  tombstone_sector-read_sector_serial sector serial c data_sector lt word live =
      let (c1, done, bytes) = tombstone_sector_lem sector serial c lt live in
      let (reader', c2, viewed) = fresh_view nor works g whole room sector c1 lt in
      (
        c1,
        c2,
        done,
        ap footer_live bytes ∙ footer_live-tombstoned serial,
        read_sector_serial-viewed nor works g whole room sector c1 c2
              (span (cell c1) (footer_offset g sector) footer_size) reader' data_sector lt viewed
            ∙ ap (λ footer. (footer_serial (decode_sector_footer footer), c2)) bytes
            ∙ ap (λ r. (r, c2)) (footer_serial-tombstoned serial word),
      )
