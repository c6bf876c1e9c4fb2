-- ===== src/Sector/Footer.antt =====
-- A footer that is written on erased flash is read again, before and after its tombstone.
use fastffs.Prelude.{
  leb_lt, ℕ, zero, suc, ◌+◌, ◌-◌, ◌*◌, ◌%◌, ◌^◌, ◌≤◌, ◌<◌, ◌≡◌, refl, ap, ◌∙◌, arith, List, ◌∷◌,
  ◌++◌, true, false, get_or, length, set, bit_and, ◌!=◌, ltb_ge,
}
use fastffs.Status.{ok}
use fastffs.Bytes.{store_le32}
use fastffs.Bytes.Laws.{load_le32-store_le32}
use fastffs.Lifecycle.{lifecycle_valid}
use fastffs.Flash.{Backend}
use fastffs.Flash.Nor.{IsNor, IsReliable, span}
use fastffs.Flash.Commit.{commit-span}
use fastffs.Sector.{
  Geometry, footer_size, sector_type_file, sector_magic, footer_offset, decode_sector_footer,
  encode_sector_footer, footer_reader, SectorReader, sector_reader_view, reader_on, reader_window,
  reader_has, reader_fill, footer_serial, viewed_serial, read_sector_serial, write_sector_footer,
}

-- The bytes of a footer with a given state.
abbrev pub footer_bytes : ℕ → ℕ → List ℕ
footer_bytes serial state = store_le32 serial ++ sector_type_file ∷ state ∷ sector_magic

pub footer_serial-valid :
    (serial : ℕ)
    → serial < 2 ^ 32
    → footer_serial (decode_sector_footer (footer_bytes serial lifecycle_valid)) ≡ ok serial
unfolding footer_serial decode_sector_footer store_le32
footer_serial-valid serial h =
    ap ok (load_le32-store_le32 serial (sector_type_file ∷ lifecycle_valid ∷ sector_magic) h)

-- A reader that has read nothing reads the last bytes of the sector.
module _ {Ctx : Type 0} {b : Backend Ctx} {cell : Ctx → ℕ → ℕ} (nor : IsNor b cell)
    (works : IsReliable b) (g : Geometry) (whole : footer_size ≤ g.sector_size)
    (room : g.sector_count * g.sector_size ≤ b.size) where
  sector_end :
      (sector : ℕ) → sector < g.sector_count → sector * g.sector_size + g.sector_size ≤ b.size
  sector_end sector lt = omega (arith, last sector g.sector_count g.sector_size lt)
    where
      last : (s n size : ℕ) → s < n → s * size + size ≤ n * size
      last s n size lt = grind arith

  -- The reader of the footer, on its sector.
  abbrev on_sector : ℕ → SectorReader
  on_sector sector = record footer_reader { sector = sector }

  reader_on-fresh : (sector : ℕ) → reader_on footer_reader sector ≡ on_sector sector
  unfolding reader_on
  reader_on-fresh zero = refl
  reader_on-fresh (suc sector) = rw (differ sector) refl
    where
      differ : (n : ℕ) → (0 != suc n) ≡ true
      differ n = ground arith

  reader_fill-fresh :
      (sector : ℕ) (c : Ctx)
      → sector < g.sector_count
      → (reader' : SectorReader) × (c' : Ctx) × (reader_fill b g
            (on_sector sector)
            (g.sector_size - footer_size)
            footer_size
            c
          ≡ (ok (span (cell c) (footer_offset g sector) footer_size), reader', c'))
  unfolding reader_fill reader_window footer_offset
  reader_fill-fresh sector c lt = (
    record (on_sector sector) {
      data_bytes = span (cell c) (footer_offset g sector) footer_size;
      start = g.sector_size - footer_size;
      len = footer_size;
    },
    (b.read (footer_offset g sector) footer_size c).2,
    rw
        (
          end_at g.sector_size whole,
          ltb_ge g.sector_size footer_size whole,
          start_at (sector * g.sector_size) g.sector_size whole,
          works.reads (footer_offset g sector) footer_size c inside,
          nor.read_bytes (footer_offset g sector) footer_size c
              (works.reads (footer_offset g sector) footer_size c inside),
          same (g.sector_size - footer_size),
        )
        refl,
  )
    where
      end_at : (n : ℕ) → 10 ≤ n → n - 10 + 10 ≡ n
      end_at n h = omega arith

      start_at : (a n : ℕ) → 10 ≤ n → a + (n - 10) ≡ a + n - 10
      start_at a n h = omega arith

      same : (n : ℕ) → n - n ≡ 0
      same n = omega arith

      inside : footer_offset g sector + footer_size ≤ b.size
      inside = omega (arith, sector_end sector lt)

  pub fresh_view :
      (sector : ℕ) (c : Ctx)
      → sector < g.sector_count
      → (reader' : SectorReader) × (c' : Ctx) × (sector_reader_view b g footer_reader sector
            (g.sector_size - footer_size)
            footer_size
            c
          ≡ (ok (span (cell c) (footer_offset g sector) footer_size), reader', c'))
  unfolding sector_reader_view reader_has
  fresh_view sector c lt =
      rw
        (
          leb_lt g.sector_count sector lt,
          ltb_ge g.sector_size (g.sector_size - footer_size) (omega arith),
          ltb_ge (g.sector_size - (g.sector_size - footer_size)) footer_size (omega arith),
          reader_on-fresh sector,
        )
        (reader_fill-fresh sector c lt)

  pub read_sector_serial-viewed :
      (sector : ℕ) (c c' : Ctx) (footer : List ℕ) (reader' : SectorReader)
      → g.index_sectors ≤ sector
      → sector < g.sector_count
      → sector_reader_view b g footer_reader sector (g.sector_size - footer_size) footer_size c
        ≡ (ok footer, reader', c')
      → read_sector_serial b g sector c ≡ (footer_serial (decode_sector_footer footer), c')
  unfolding read_sector_serial viewed_serial
  read_sector_serial-viewed sector c c' footer reader' data_sector lt viewed =
      rw (viewed, ltb_ge sector g.index_sectors data_sector, leb_lt g.sector_count sector lt) refl

  module _ (pos : 0 < b.program_granule) (fits : b.size % b.program_granule ≡ 0) where
    written_bytes :
        (serial : ℕ)
        → set
            (encode_sector_footer serial false)
            5
            (bit_and (get_or (encode_sector_footer serial false) 5 0xff) lifecycle_valid)
          ≡ footer_bytes serial lifecycle_valid
    unfolding encode_sector_footer store_le32
    written_bytes serial = refl

    length-encoded : (serial : ℕ) → length (encode_sector_footer serial false) ≡ 10
    unfolding encode_sector_footer store_le32
    length-encoded serial = refl

    encoded-AreBytes :
        (serial i : ℕ)
        → i < length (encode_sector_footer serial false)
        → get_or (encode_sector_footer serial false) i 0xff < 256
    unfolding encode_sector_footer store_le32
    encoded-AreBytes serial zero lt = omega arith
    encoded-AreBytes serial (suc zero) lt = omega arith
    encoded-AreBytes serial (suc (suc zero)) lt = omega arith
    encoded-AreBytes serial (suc (suc (suc zero))) lt = omega arith
    encoded-AreBytes serial (suc (suc (suc (suc zero)))) lt = omega arith
    encoded-AreBytes serial (suc (suc (suc (suc (suc zero))))) lt = omega arith
    encoded-AreBytes serial (suc (suc (suc (suc (suc (suc zero)))))) lt = omega arith
    encoded-AreBytes serial (suc (suc (suc (suc (suc (suc (suc zero))))))) lt = omega arith
    encoded-AreBytes serial (suc (suc (suc (suc (suc (suc (suc (suc zero)))))))) lt = omega arith
    encoded-AreBytes serial (suc (suc (suc (suc (suc (suc (suc (suc (suc zero))))))))) lt =
        omega arith
    encoded-AreBytes serial (suc (suc (suc (suc (suc (suc (suc (suc (suc (suc i)))))))))) lt =
        absurd (omega arith)

    pub footer_inside :
        (sector : ℕ) → sector < g.sector_count → footer_offset g sector + 10 ≤ b.size
    unfolding footer_offset
    footer_inside sector lt = omega (arith, sector_end sector lt)

    write_sector_footer_lem :
        (sector serial : ℕ) (c : Ctx)
        → sector < g.sector_count
        → ((i : ℕ) → i < footer_size → cell c (footer_offset g sector + i) ≡ 0xff)
        → (c' : Ctx) × (write_sector_footer b g sector serial c ≡ (ok tt, c'))
          × (span (cell c') (footer_offset g sector) footer_size
              ≡ footer_bytes serial lifecycle_valid)
    unfolding write_sector_footer
    write_sector_footer_lem sector serial c lt erased =
        let (c', r, bytes) =
          commit-span nor works pos fits (footer_offset g sector)
            (encode_sector_footer serial false) 5 lifecycle_valid c
            (rw (length-encoded serial) (footer_inside sector lt))
            (rw (length-encoded serial) (omega arith)) (omega arith) (encoded-AreBytes serial)
            (rw (length-encoded serial) erased) in
        (c', r, bytes ∙ written_bytes serial)

    -- On reliable NOR flash that has room for the sectors and whose size is a multiple of its
    -- granule, writing the footer of a data sector on erased cells succeeds, and reading the serial
    -- of that sector then gives the serial that was written.
    pub write_sector_footer-read_sector_serial :
        (sector serial : ℕ) (c : Ctx)
        → g.index_sectors ≤ sector
        → sector < g.sector_count
        → serial < 2 ^ 32
        → ((i : ℕ) → i < footer_size → cell c (footer_offset g sector + i) ≡ 0xff)
        → (c1 c2 : Ctx) × (write_sector_footer b g sector serial c ≡ (ok tt, c1))
          × (read_sector_serial b g sector c1 ≡ (ok serial, c2))
    write_sector_footer-read_sector_serial sector serial c data_sector lt word erased =
        let (c1, written, bytes) = write_sector_footer_lem sector serial c lt erased in
        let (reader', c2, viewed) = fresh_view sector c1 lt in
        (
          c1,
          c2,
          written,
          read_sector_serial-viewed sector c1 c2
                (span (cell c1) (footer_offset g sector) footer_size) reader' data_sector lt viewed
              ∙ ap (λ footer. (footer_serial (decode_sector_footer footer), c2)) bytes
              ∙ ap (λ r. (r, c2)) (footer_serial-valid serial word),
        )
