-- ===== src/Names/Resolve.antt =====
-- What resolving a name ends with.
use fastffs.Prelude.{
  ℕ, ◌+◌, ◌≤◌, ◌<◌, ◌≡◌, ◌≢◌, ◌⊎◌, List, Option, some, none, Bool, true, false, not, ◌&&◌,
}
use fastffs.Status.{Result, ok, err}
use fastffs.Flash.{Backend}
use fastffs.Sector.{footer_size}
use fastffs.HashIndex.{Bucket, head_for_slot}
use fastffs.Slot.Probe.{candidate}
use fastffs.Metadata.Root.{RootMd, read_file_root_md}
use fastffs.Files.{OpenFile, slot_is_pinned}
use fastffs.Fs.{Fs, geometry}
use fastffs.Names.Reads.{Same}
use fastffs.Settled.{Settled}
use fastffs.Names.{max_probe_distance, stat_of, Resolved}

-- A slot that the cache does not have and that no open file has.
abbrev pub is_vacant : Result (ℕ × Bool) → Bool
is_vacant (ok (head, occupied)) = not occupied
is_vacant (err e) = false

abbrev pub is_free : List OpenFile → List Bucket → ℕ → Bool
is_free files table slot = is_vacant (head_for_slot table slot) && not (slot_is_pinned files slot)

-- The slot is the first free one of the candidates before `d`.
abbrev pub FirstFree : List OpenFile → List Bucket → ℕ → ℕ → Option ℕ → Type 0
FirstFree files table first d none =
    (e : ℕ) → e < d → is_free files table (candidate first e) ≡ false
FirstFree files table first d (some slot) =
    (k : ℕ) × (k < d)
    × (slot ≡ candidate first k)
    × (is_free files table slot ≡ true)
    × ((e : ℕ) → e < k → is_free files table (candidate first e) ≡ false)

module _ {Ctx : Type 0} (b : Backend Ctx) (files : List OpenFile) (fs0 : Fs Ctx) (name : List ℕ)
    (first : ℕ) (cache : Option ℕ) where
  -- The root that is read in the sector `head` for the slot, in some state of the flash.
  abbrev pub IsRootAt : ℕ → ℕ → RootMd → Type 0
  IsRootAt head slot root =
      (c : Ctx) × ((read_file_root_md b (geometry fs0) head slot true cache c).0 ≡ ok root)

  -- The cache does not have the slot, or the file that it has there has another name.
  abbrev pub HasOther : ℕ → Type 0
  HasOther slot =
      ((head : ℕ) × (head_for_slot fs0.index_cache slot ≡ ok (head, false)))
      ⊎ ((head : ℕ) × (root : RootMd) × (head_for_slot fs0.index_cache slot ≡ ok (head, true))
          × IsRootAt head slot root
          × ((stat_of root).name ≢ name))

  -- None of the candidates before `d` is a file with the name.
  abbrev pub NoneBefore : ℕ → Type 0
  NoneBefore d = (e : ℕ) → e < d → HasOther (candidate first e)

  -- A file that was found is at the first candidate that has the name, where the cache maps the slot
  -- to its head and its root was read; where none was found no candidate has the name, and the slot
  -- is the first free one.
  abbrev pub IsAnswer : Resolved → Type 0
  IsAnswer r = elim r.root [
    | some root ↦
        (d : ℕ) × (d ≤ max_probe_distance)
        × (r.slot ≡ candidate first d)
        × (head_for_slot fs0.index_cache r.slot ≡ ok (r.head, true))
        × IsRootAt r.head r.slot root
        × ((stat_of root).name ≡ name)
        × NoneBefore d
    | none ↦
        (r.head ≡ 0)
        × NoneBefore (max_probe_distance + 1)
        × FirstFree files fs0.index_cache first (max_probe_distance + 1) (some r.slot)
  ]

module _ {Ctx : Type 0} (b : Backend Ctx) (files : List OpenFile) (fs0 : Fs Ctx)
    (whole : footer_size ≤ fs0.sector_size) (name : List ℕ) (first : ℕ) (cache : Option ℕ) where
  abbrev Answered : Resolved → Fs Ctx → Type 0
  Answered r fs = Same b fs0 whole fs × IsAnswer b files fs0 name first cache r

  abbrev Before : ℕ → Type 0
  Before = NoneBefore b files fs0 name first cache
