-- ===== src/Sector/Window.antt =====
-- `fffs_sector_reader_view` answers from its window what a read of the flash would answer.
use fastffs.Prelude.{
  ℕ, zero, suc, ◌+◌, ◌-◌, ◌*◌, ◌≤◌, ◌<◌, ◌≡◌, ◌≢◌, refl, ap, ap₂, ◌∙◌, arith, List, ◌∷◌, take, drop,
  Bool, true, false, Bool-cases, inl, inr, ◌!=◌, leb, ltb_ge, if◌then◌else◌,
}
use fastffs.Status.{Result, ok}
use fastffs.Flash.{Backend}
use fastffs.Flash.Nor.{IsNor, IsReliable, span}
use fastffs.Flash.Reads.{cell-read}
use fastffs.Sector.{
  Geometry, SectorReader, sector_reader_view, reader_on, reader_window, reader_has, reader_fill,
}

take-span : (cell : ℕ → ℕ) (off n m : ℕ) → m ≤ n → take m (span cell off n) ≡ span cell off m
take-span cell off n zero h = refl
take-span cell off zero (suc m) h = absurd (omega arith)
take-span cell off (suc n) (suc m) h =
    ap (λ xs. cell off ∷ xs) (take-span cell (suc off) n m (omega arith))

pub drop-span :
    (cell : ℕ → ℕ) (off n k : ℕ) → k ≤ n → drop k (span cell off n) ≡ span cell (off + k) (n - k)
drop-span cell off n zero h = ap₂ (span cell) (omega arith) (omega arith)
drop-span cell off zero (suc k) h = absurd (omega arith)
drop-span cell off (suc n) (suc k) h =
    drop-span cell (suc off) n k (omega arith) ∙ ap₂ (span cell) (shift off k) (less n k)
  where
    shift : (off k : ℕ) → suc off + k ≡ off + suc k
    shift off k = omega arith

    less : (n k : ℕ) → n - k ≡ suc n - suc k
    less n k = omega arith

-- A part of a span.
part_of_span :
    (cell : ℕ → ℕ) (base start len offset size : ℕ)
    → start ≤ offset
    → offset + size ≤ start + len
    → take size (drop (offset - start) (span cell (base + start) len))
      ≡ span cell (base + offset) size
part_of_span cell base start len offset size lo hi =
    ap (take size) (drop-span cell (base + start) len (offset - start) (omega arith))
    ∙ take-span cell (base + start + (offset - start)) (len - (offset - start)) size (omega arith)
    ∙ ap (λ x. span cell x size) (place base start offset lo)
  where
    place :
        (base start offset : ℕ) → start ≤ offset → base + start + (offset - start) ≡ base + offset
    place base start offset h = omega arith

-- What is in the window is what is on the flash.
pub record Mirrors (g : Geometry) (cells : ℕ → ℕ) (reader : SectorReader) : Type 0 where
  pub bytes :
      reader.len ≢ 0
      → reader.data_bytes ≡ span cells (reader.sector * g.sector_size + reader.start) reader.len

reader_on-sector : (reader : SectorReader) (sector : ℕ) → (reader_on reader sector).sector ≡ sector
unfolding reader_on
reader_on-sector reader sector = elim (Bool-cases (reader.sector != sector)) [
  | inl e ↦ rw e refl
  | inr e ↦ rw e (ground arith)
]

reader_on-capacity :
    (reader : SectorReader) (sector : ℕ) → (reader_on reader sector).capacity ≡ reader.capacity
unfolding reader_on
reader_on-capacity reader sector = elim (Bool-cases (reader.sector != sector)) [
  | inl e ↦ rw e refl
  | inr e ↦ rw e refl
]

reader_on-Mirrors :
    {g : Geometry} {cells : ℕ → ℕ} (reader : SectorReader) (sector : ℕ)
    → Mirrors g cells reader
    → Mirrors g cells (reader_on reader sector)
unfolding reader_on
reader_on-Mirrors {g} {cells} reader sector h = elim (Bool-cases (reader.sector != sector)) [
  | inl e ↦ rw e (record { bytes = λ some_read. absurd (some_read refl) })
  | inr e ↦ rw e h
]

-- What a view has to answer.
pub record Viewed {Ctx : Type 0} (b : Backend Ctx) (cell : Ctx → ℕ → ℕ) (g : Geometry)
    (reader : SectorReader) (sector offset size : ℕ) (c : Ctx)
    (r : Result (List ℕ) × SectorReader × Ctx) : Type 0 where
  pub found : List ℕ
  pub reader' : SectorReader
  pub ctx' : Ctx
  pub returned : r ≡ (ok found, reader', ctx')
  pub found_bytes : take size found ≡ span (cell c) (sector * g.sector_size + offset) size
  pub mirrors : Mirrors g (cell c) reader'
  pub cells_kept : cell ctx' ≡ cell c
  pub on_sector : reader'.sector ≡ sector
  pub same_capacity : reader'.capacity ≡ reader.capacity

module _ {Ctx : Type 0} {b : Backend Ctx} {cell : Ctx → ℕ → ℕ} (nor : IsNor b cell)
    (works : IsReliable b) (g : Geometry) (room : g.sector_count * g.sector_size ≤ b.size) where
  inside_flash :
      (sector start len : ℕ)
      → sector < g.sector_count
      → start + len ≤ g.sector_size
      → sector * g.sector_size + start + len ≤ b.size
  inside_flash sector start len lt le = omega (arith, last sector g.sector_count g.sector_size lt)
    where
      last : (s n size : ℕ) → s < n → s * size + size ≤ n * size
      last s n size lt = grind arith

  -- The window is in the sector and has the span.
  window_has :
      (reader : SectorReader) (offset size : ℕ)
      → offset + size ≤ g.sector_size
      → size ≤ reader.capacity
      → let w = reader_window g reader offset size in
        (w.0 ≤ offset) × (offset + size ≤ w.0 + w.1) × (w.0 + w.1 ≤ g.sector_size)
  unfolding reader_window
  window_has reader offset size le fits = elim (Bool-cases reader.reverse) [
    | inl e ↦ rw e (ground arith)
    | inr e ↦ rw e (ground arith)
  ]

  filled-Viewed :
      (reader here : SectorReader) (sector offset size : ℕ) (c : Ctx)
      → here.sector ≡ sector
      → here.capacity ≡ reader.capacity
      → sector < g.sector_count
      → offset + size ≤ g.sector_size
      → size ≤ here.capacity
      → Viewed b cell g reader sector offset size c (reader_fill b g here offset size c)
  unfolding reader_fill
  filled-Viewed reader here sector offset size c on same lt le fits =
      rw (ok_read, nor.read_bytes from w.1 c ok_read)
        (record {
          found = drop (offset - w.0) (span (cell c) from w.1);
          reader' = record here { data_bytes = span (cell c) from w.1; start = w.0; len = w.1 };
          ctx' = (b.read from w.1 c).2;
          returned = refl;
          found_bytes =
              rw on
                (part_of_span (cell c) (sector * g.sector_size) w.0 w.1 offset size has.0 has.1);
          mirrors = record { bytes = λ some_read. refl };
          cells_kept = cell-read nor works from w.1 c;
          on_sector = on;
          same_capacity = same;
        })
    where
      w : ℕ × ℕ
      w = reader_window g here offset size

      from : ℕ
      from = here.sector * g.sector_size + w.0

      has : (w.0 ≤ offset) × (offset + size ≤ w.0 + w.1) × (w.0 + w.1 ≤ g.sector_size)
      has = window_has here offset size le fits

      ok_read : (b.read from w.1 c).0 ≡ 0
      ok_read = works.reads from w.1 c (rw on (inside_flash sector w.0 w.1 lt has.2))

  from_window :
      (here : SectorReader) {c : Ctx}
      → Mirrors g (cell c) here
      → (offset size : ℕ) → true ≡ reader_has here offset size
      → take size (drop (offset - here.start) here.data_bytes)
        ≡ span (cell c) (here.sector * g.sector_size + offset) size
  unfolding reader_has
  from_window here {c} mirrors offset size e =
      ap (λ xs. take size (drop (offset - here.start) xs)) (mirrors.bytes (ground arith))
      ∙ part_of_span (cell c) (here.sector * g.sector_size) here.start here.len offset size
          (ground arith) (ground arith)

  -- On reliable NOR flash that has room for the sectors, through a window that mirrors the flash, a
  -- view of a span inside a sector, not longer than the window, succeeds, whether it is answered
  -- from the window or read; it answers the bytes on the flash, and its window mirrors the flash.
  pub sector_reader_view-Viewed :
      (reader : SectorReader) (sector offset size : ℕ) (c : Ctx)
      → Mirrors g (cell c) reader
      → sector < g.sector_count
      → offset + size ≤ g.sector_size
      → size ≤ reader.capacity
      → Viewed b cell g reader sector offset size c
          (sector_reader_view b g reader sector offset size c)
  unfolding sector_reader_view
  sector_reader_view-Viewed reader sector offset size c mirrors lt le fits =
      rw
        (
          not_below g.sector_count sector lt,
          ltb_ge g.sector_size offset (omega arith),
          ltb_ge (g.sector_size - offset) size (omega arith),
          ltb_ge reader.capacity size fits,
        )
        (either (reader_has here offset size) refl)
    where
      here : SectorReader
      here = reader_on reader sector

      not_below : (a b : ℕ) → b < a → leb a b ≡ false
      not_below a b h = ground arith

      either :
          (has : Bool)
          → has ≡ reader_has here offset size
          → Viewed b cell g reader sector offset size c (
              if has
              then (ok (drop (offset - here.start) here.data_bytes), here, c)
              else reader_fill b g here offset size c)
      either true e = record {
        found = drop (offset - here.start) here.data_bytes;
        reader' = here;
        ctx' = c;
        returned = refl;
        found_bytes =
            from_window here (reader_on-Mirrors reader sector mirrors) offset size e
            ∙ ap (λ s. span (cell c) (s * g.sector_size + offset) size)
                (reader_on-sector reader sector);
        mirrors = reader_on-Mirrors reader sector mirrors;
        cells_kept = refl;
        on_sector = reader_on-sector reader sector;
        same_capacity = reader_on-capacity reader sector;
      }
      either false e =
          filled-Viewed reader here sector offset size c (reader_on-sector reader sector)
            (reader_on-capacity reader sector) lt le (rw (reader_on-capacity reader sector) fits)
