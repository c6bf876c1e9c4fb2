-- ===== src/Names/Dir.antt =====
-- Directories: `struct fffs_dir` and the calls on it. What only the cache mode without a cache uses
-- of the structure is left out.
use fastffs.Prelude.{
  ℕ, zero, suc, ◌+◌, ◌-◌, List, [], ◌∷◌, ◌++◌, Option, some, none, Bool, true, false, not, ◌&&◌,
  ◌==◌, ◌!=◌, ltb, if◌then◌else◌, take, length,
}
use fastffs.Status.{
  Error, invalid, name_too_long, hang, Result, ok, err, Action, pure, fail, gets, modify,
  passed_over, ◌>>=◌, ◌>>◌,
}
use fastffs.Flash.{Backend}
use fastffs.IndexHeader.{same_bytes}
use fastffs.HashIndex.{bucket_at}
use fastffs.Metadata.Root.{max_name, RootMd}
use fastffs.Fs.{Fs}
use fastffs.Names.{Stat, stat_of, read_root}

-- `prefix_len` is the length of the prefix; a status of FFFS_OK is `none`.
pub record Dir : Type 0 where
  pub pos : ℕ
  pub prefix : List ℕ
  pub status : Option Error
  pub closed : Bool

abbrev pub fresh_dir : Dir
fresh_dir = record { pos = 0; prefix = []; status = none; closed = false }

unfoldable pub dir_open : Option (List ℕ) → Result (Unit {0}) × Dir
dir_open none = (ok tt, fresh_dir)
dir_open (some prefix) =
    if ltb max_name (length prefix)
    then (err name_too_long, record fresh_dir { status = some name_too_long; closed = true })
    else (ok tt, record fresh_dir { prefix = prefix })

unfoldable pub dir_close : Dir → Result (Unit {0}) × Dir
dir_close dir = if dir.closed then (err invalid, dir) else (ok tt, record dir { closed = true })

-- An open directory of a volume.
pub record Reading (Ctx : Type 0) : Type 0 where
  pub dir : Dir
  pub fs : Fs Ctx

-- `strncmp(candidate.name, dir->prefix, dir->prefix_len) != 0` where the prefix is not empty.
unfoldable pub other_prefix : List ℕ → Stat → Bool
other_prefix prefix st =
    length prefix != 0 && not (same_bytes (take (length prefix) st.name) prefix)

unfoldable pub set_status : {Ctx : Type 0} → Option Error → Action (Reading Ctx) (Unit {0})
set_status status = modify (λ r. record { dir = record r.dir { status = status }; fs = r.fs })

-- An error of the read goes to the status of the directory.
unfoldable pub root_or_status :
    {Ctx : Type 0} → Dir → Result RootMd × Fs Ctx → Result (Option RootMd) × Reading Ctx
root_or_status dir (ok root, fs) = (ok (some root), record { dir = dir; fs = fs })
root_or_status dir (err e, fs) =
    (passed_over none e, record { dir = record dir { status = some e }; fs = fs })

-- What `fffs_list` makes of the status of the directory.
unfoldable pub list_end : {S : Type 0} → Option Error → List Stat × ℕ → Action S (List Stat × ℕ)
list_end none listed = pure listed
list_end (some e) listed = fail e

module _ {Ctx : Type 0} (b : Backend Ctx) where
  unfoldable pub dir_root : ℕ → ℕ → Action (Reading Ctx) (Option RootMd)
  dir_root head slot r = root_or_status r.dir (read_root b head slot none r.fs)

  -- What the loop does with the root of a bucket.
  unfoldable pub dir_entry :
      Action (Reading Ctx) (Option Stat) → Option RootMd → Action (Reading Ctx) (Option Stat)
  dir_entry later none = pure none
  dir_entry later (some root) = do
    prefix ← gets (λ r. r.dir.prefix)
    if other_prefix prefix (stat_of root)
        then later
        else do set_status none; pure (some (stat_of root))

  -- The loop of `fffs_index_dir_read`, with the buckets left.
  unfoldable pub dir_read_from : ℕ → Action (Reading Ctx) (Option Stat)
  dir_read_from zero = do set_status none; pure none
  dir_read_from (suc left) = do
    bucket ← gets (λ r. bucket_at r.fs.index_cache r.dir.pos)
    modify (λ r. record { dir = record r.dir { pos = r.dir.pos + 1 }; fs = r.fs })
    let later = dir_read_from left
    if bucket.slot == 0
        then later
        else do root ← dir_root bucket.head bucket.slot; dir_entry later root

  unfoldable pub dir_read : Action (Reading Ctx) (Option Stat)
  dir_read = do
    closed ← gets (λ r. r.dir.closed)
    if closed
        then (do set_status (some invalid); pure none)
        else do left ← gets (λ r. length r.fs.index_cache - r.dir.pos); dir_read_from left

  -- The loop of `fffs_list`: the entries that it has stored, and the count. A round for each bucket
  -- and one more is enough.
  unfoldable pub list_from : ℕ → ℕ → List Stat → ℕ → Action (Reading Ctx) (List Stat × ℕ)
  list_from zero capacity entries count = fail hang
  list_from (suc fuel) capacity entries count =
      let later = list_from fuel capacity in
      do
        next ← dir_read
        elim next [
          | some st ↦ later (if ltb count capacity then entries ++ st ∷ [] else entries) (count + 1)
          | none ↦ do status ← gets (λ r. r.dir.status); list_end status (entries, count)
        ]

  -- The directory is closed at the end, which succeeds.
  unfoldable pub list : ℕ → Action (Fs Ctx) (List Stat × ℕ)
  list capacity fs =
      let (r, reading) =
        list_from (length fs.index_cache + 1) capacity [] 0 (record { dir = fresh_dir; fs = fs }) in
      (r, reading.fs)
