-- ===== src/Alloc/Searching.antt =====
-- What the allocator's search keeps while it goes over the sectors, and when it may take one.
use fastffs.Prelude.{
  ℕ, ◌≤◌, ◌<◌, ◌≡◌, refl, sym, ap, subst, arith, List, [], ◌∷◌, ◌++◌, Option, Bool, true, false,
  ◌||◌, ◌==◌, if◌then◌else◌,
}
use fastffs.Sector.{Geometry}
use fastffs.Fs.{geometry}
use fastffs.AllocMap.{maybe_used, mark_used}
use fastffs.AllocMap.Sets.{Covers, maybe_used-mark_used, length-mark_used}
use fastffs.Files.{sector_is_open_for_writing}
use fastffs.Files.Reserve.{sector_reserved_by_other}
use fastffs.Alloc.{next_data_sector, compaction_reserved}
use fastffs.Alloc.Once.{Volume, is_skipped, is_passed_by, keep_for_compaction, first_sector}

-- What was kept back stays so when another sector is.
compaction_reserved-append :
    (reserve : List ℕ) (kept sector : ℕ)
    → compaction_reserved (reserve ++ kept ∷ []) sector ≡ false
    → compaction_reserved reserve sector ≡ false
unfolding compaction_reserved
compaction_reserved-append [] kept sector h = refl
compaction_reserved-append (reserved ∷ rest) kept sector h =
    either (reserved == sector) (compaction_reserved-append rest kept sector) h
  where
    either :
        (here : Bool)
        → (compaction_reserved (rest ++ kept ∷ []) sector ≡ false
            → compaction_reserved rest sector ≡ false)
        → (if here then true else compaction_reserved (rest ++ kept ∷ []) sector) ≡ false
        → (if here then true else compaction_reserved rest sector) ≡ false
    either true k h = h
    either false k h = k h

module _ {Ctx : Type 0} (v0 : Volume Ctx) (owner : ℕ) where
  -- A data sector that nothing else uses: no open writer writes to it, no other writer has it
  -- reserved, it is not kept back for compaction, and it is not marked in the map.
  abbrev pub IsChosen : Option ℕ → ℕ → Type 0
  IsChosen skip sector =
      (v0.fs.index_sectors ≤ sector)
      × (sector < v0.fs.sector_count)
      × (is_skipped skip sector ≡ false)
      × (sector_is_open_for_writing v0.files sector ≡ false)
      × (sector_reserved_by_other v0.files owner sector ≡ false)
      × (compaction_reserved v0.compaction_reserve sector ≡ false)
      × (maybe_used v0.fs.sector_count v0.fs.alloc_map sector ≡ false)

  -- The search has only kept sectors back, and marked them.
  pub record Searching (v : Volume Ctx) : Type 0 where
    pub shape : geometry v.fs ≡ geometry v0.fs
    pub buffer : v.fs.scratch_size ≡ v0.fs.scratch_size
    pub writers : v.files ≡ v0.files
    pub kept :
        (s : ℕ)
        → compaction_reserved v.compaction_reserve s ≡ false
        → compaction_reserved v0.compaction_reserve s ≡ false
    pub marked :
        (s : ℕ)
        → maybe_used v0.fs.sector_count v.fs.alloc_map s ≡ false
        → maybe_used v0.fs.sector_count v0.fs.alloc_map s ≡ false
    pub covers : Covers v.fs.alloc_map v0.fs.sector_count

  count_same : (v : Volume Ctx) → Searching v → v.fs.sector_count ≡ v0.fs.sector_count
  count_same v h = ap (λ (g : Geometry). g.sector_count) h.shape

  pub keep-Searching :
      (sector : ℕ) (v : Volume Ctx)
      → sector < v0.fs.sector_count
      → Searching v
      → Searching (keep_for_compaction sector v)
  unfolding keep_for_compaction
  keep-Searching sector v below h = record {
    shape = h.shape;
    buffer = h.buffer;
    writers = h.writers;
    kept = λ s k. h.kept s (compaction_reserved-append v.compaction_reserve sector s k);
    marked = λ s k. h.marked s (
        unmarked s (
          subst (λ n. maybe_used v0.fs.sector_count (mark_used n v.fs.alloc_map sector) s ≡ false)
            (count_same v h) k));
    covers = rw (length-mark_used v.fs.sector_count v.fs.alloc_map sector) h.covers;
  }
    where
      unmarked :
          (s : ℕ)
          → maybe_used v0.fs.sector_count (mark_used v0.fs.sector_count v.fs.alloc_map sector) s
            ≡ false
          → maybe_used v0.fs.sector_count v.fs.alloc_map s ≡ false
      unmarked s k = ground (
        arith,
        k,
        below,
        maybe_used-mark_used v0.fs.sector_count v.fs.alloc_map h.covers sector s,
      )

  abbrev pub InData : ℕ → Type 0
  InData sector = (v0.fs.index_sectors ≤ sector) × (sector < v0.fs.sector_count)

  pub next-InData :
      (v : Volume Ctx) (sector : ℕ)
      → Searching v
      → InData sector
      → InData (next_data_sector (geometry v.fs) sector)
  unfolding next_data_sector
  next-InData v sector h (lo, hi) =
      subst (λ g. InData (next_data_sector g sector)) (sym h.shape) (ground arith, ground arith)

  pub first-InData : v0.fs.index_sectors < v0.fs.sector_count → InData (first_sector v0.fs)
  unfolding first_sector
  first-InData some_data = (ground arith, ground arith)

  -- The sector that is not passed by is one that nothing else uses.
  pub passed-IsChosen :
      (skip : Option ℕ) (sector : ℕ) (v : Volume Ctx)
      → InData sector
      → Searching v
      → is_passed_by owner skip sector v ≡ false
      → IsChosen skip sector
  unfolding is_passed_by
  passed-IsChosen skip sector v (lo, hi) h e =
      let (skipped, busy, reserved, used) = tests _ _ _ _ _ e in
      (
        lo,
        hi,
        skipped,
        subst (λ files. sector_is_open_for_writing files sector ≡ false) h.writers busy.0,
        subst (λ files. sector_reserved_by_other files owner sector ≡ false) h.writers busy.1,
        h.kept sector reserved,
        h.marked sector
            (subst (λ n. maybe_used n v.fs.alloc_map sector ≡ false) (count_same v h) used),
      )
    where
      tests :
          (p q r s t : Bool)
          → (p || (q || r) || s || t) ≡ false
          → (p ≡ false) × ((q ≡ false) × (r ≡ false)) × (s ≡ false) × (t ≡ false)
      tests p q r s t e = (ground arith, (ground arith, ground arith), ground arith, ground arith)
