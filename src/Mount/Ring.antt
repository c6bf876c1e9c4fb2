-- ===== src/Mount/Ring.antt =====
-- A volume that a mount gives.
use fastffs.Prelude.{ℕ, ◌*◌, ◌≤◌, ◌≡◌, none}
use fastffs.Status.{hang, Result, err}
use fastffs.HashIndex.{remove}
use fastffs.Settled.{Ends, Settled}
use fastffs.Flash.{Backend}
use fastffs.Discovery.{IndexSequence}
use fastffs.Fs.{Fs}
use fastffs.Triple.{Triple}
use fastffs.Journal.Ring.{IsRing, HasSpare}
use fastffs.Journal.Replayed.{Replayed}
use fastffs.Mount.{MountOptions, mounted_at, mount_steps, min_scratch_size}

module _ {Ctx : Type 0} (b : Backend Ctx) where
  -- The sectors of the volume are the flash, and the scratch has room for a record.
  abbrev pub IsSized : Fs Ctx → Type 0
  IsSized fs =
      (fs.sector_count * fs.sector_size ≡ b.size)
      × (fs.sector_count ≤ 0xffff)
      × (fs.index_sectors ≤ fs.sector_count)
      × (fs.index_sectors ≤ 15)
      × (min_scratch_size ≤ fs.scratch_size)

  -- A volume that is mounted.
  abbrev pub IsMounted : Fs Ctx → Type 0
  IsMounted fs = HasSpare fs × IsSized fs

  -- A volume that is about to be.
  abbrev IsOpened : Fs Ctx → Type 0
  IsOpened fs = IsRing fs × IsSized fs

  -- The steps of the mount did not come to an end, for the removal of a slot from the cache does not.
  abbrev pub IsStuck : MountOptions → Type 0
  IsStuck options =
      (sequence : IndexSequence) × (c : Ctx) × (fs : Fs Ctx) × (slot : ℕ) × (mount_steps b
          (mounted_at b.size options sequence c)
        ≡ (err hang, fs))
      × (remove fs.index_cache slot ≡ none)

  -- The mount came to an end, or is stuck there.
  abbrev pub IsDue : MountOptions → Result (Fs Ctx) × Ctx → Type 0
  IsDue options (err hang, c) = IsStuck options
  IsDue options (r, c) = Unit
