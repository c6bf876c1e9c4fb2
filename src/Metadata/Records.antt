-- ===== src/Metadata/Records.antt =====
-- The records of a data sector that the walk of src/fffs_file_md.c gives, as a list.
use fastffs.Prelude.{ℕ, ◌-◌, ◌≡◌, ◌⊎◌, refl, List, [], ◌∷◌, false}
use fastffs.Status.{Result, ok, err, Action, next}
use fastffs.Flash.{Backend}
use fastffs.Sector.{Geometry, footer_size, SectorFooter, decode_sector_footer}
use fastffs.Settled.{Settled}
use fastffs.Metadata.{
  WalkResult, walk_record, end_erased, end_claimed_data, end_invalid, MdRecord, Walking, view,
  md_walk_next,
}
use fastffs.Metadata.Find.{start_walk, no_walk, md_window}

-- A walk that is over, with nothing wrong.
abbrev pub IsEnd : WalkResult → Type 0
IsEnd walk_record = ⊥
IsEnd end_erased = Unit
IsEnd end_claimed_data = Unit
IsEnd end_invalid = ⊥

abbrev pub Each : (MdRecord → Type 0) → List MdRecord → Type 0
Each P [] = Unit
Each P (r ∷ rs) = P r × Each P rs

-- What a call gave is known where it succeeds.
pub next-known :
    {S A B : Type 0} (Q : A → S → Type 0) (R : B → S → Type 0) (r : Result A × S)
    (f : A → Action S B)
    → Settled Q r
    → ((a : A) (s : S) → Q a s → r ≡ (ok a, s) → Settled R (f a s))
    → Settled R (next r f)
next-known Q R (ok a, s) f h k = k a s h refl
next-known Q R (err e, s) f h k = h

module _ {Ctx : Type 0} (b : Backend Ctx) (g : Geometry) where
  -- The records that are all those of the walk from here on.
  abbrev pub AreRecords : Walking Ctx → List MdRecord → Type 0
  AreRecords w [] =
      (w.walk.active ≡ false)
      ⊎ ((r : MdRecord) × (result : WalkResult) × (w' : Walking Ctx) × (md_walk_next b g w
            ≡ (ok (r, result), w'))
          × IsEnd result)
  AreRecords w (r ∷ rs) =
      (w' : Walking Ctx) × (md_walk_next b g w ≡ (ok (r, walk_record), w')) × AreRecords w' rs

  -- The footer that is read where the flash is in the state `c`, and what the reader is then.
  abbrev pub IsFooterOf : ℕ → Ctx → SectorFooter → Walking Ctx → Type 0
  IsFooterOf sector c footer w =
      (bytes : List ℕ) × (view b g sector (g.sector_size - footer_size) footer_size
          (record { walk = no_walk; window = md_window; ctx = c })
        ≡ (ok bytes, w))
      × (footer ≡ decode_sector_footer bytes)

  -- All the records of a sector, after its footer was read.
  abbrev pub AreRecordsOf : ℕ → Walking Ctx → List MdRecord → Type 0
  AreRecordsOf sector w rs =
      (w' : Walking Ctx) × (start_walk g sector w ≡ (ok tt, w')) × AreRecords w' rs
