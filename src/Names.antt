-- ===== src/Names.antt =====
-- Names: `fffs_index_resolve` and `fffs_index_dir_read` of src/fffs_hashtable_index.c, and the calls
-- of src/fastffs.c on them, `fffs_stat`, `fffs_exists` and those on a directory. A C string is the
-- list of its bytes before the NUL.
pub mod Reads
pub mod Resolve
pub mod Dir
pub mod Listed
use fastffs.Prelude.{
  ℕ, zero, suc, ◌+◌, List, [], ◌∷◌, ◌++◌, Option, some, none, Bool, true, false, not, ◌&&◌, ◌||◌,
  ◌==◌, ◌!=◌, ltb, if◌then◌else◌, take, drop, length,
}
use fastffs.Status.{
  Error, invalid, name_too_long, not_found, no_space, Result, ok, err, Action, pure, fail, gets,
  ◌>>=◌,
}
use fastffs.Flash.{Backend}
use fastffs.IndexHeader.{same_bytes}
use fastffs.HashIndex.{Bucket, head_for_slot}
use fastffs.Slot.{hash16, normalize_slot_base, next_slot}
use fastffs.Metadata.Root.{max_name, RootMd, read_file_root_md}
use fastffs.Files.{OpenFile, slot_is_pinned}
use fastffs.Fs.{Fs, geometry, on_flash}

-- `FFFS_MAX_PROBE_DISTANCE`
abbrev pub max_probe_distance : ℕ
max_probe_distance = 50

-- What `strcmp` sees of bytes that have a NUL behind them.
unfoldable pub c_string : List ℕ → List ℕ
c_string [] = []
c_string (c ∷ bytes) = if c == 0 then [] else c ∷ c_string bytes

-- `struct fffs_stat`
pub record Stat : Type 0 where
  pub name : List ℕ
  pub size : ℕ

unfoldable pub stat_of : RootMd → Stat
stat_of root = record {
  name = elim root.prefix [ some prefix ↦ c_string prefix.name | none ↦ [] ];
  size = root.root_size;
}

-- `strcmp(st.name, name) == 0`
unfoldable pub has_name : RootMd → List ℕ → Bool
has_name root name = same_bytes (stat_of root).name name

-- What `fffs_index_resolve` gives; the root is that of the file that was found.
pub record Resolved : Type 0 where
  pub slot : ℕ
  pub head : ℕ
  pub root : Option RootMd

unfoldable pub note_free : List OpenFile → ℕ → Option ℕ → Option ℕ
note_free files candidate (some slot) = some slot
note_free files candidate none = if slot_is_pinned files candidate then none else some candidate

unfoldable pub not_resolved : {S : Type 0} → Option ℕ → Action S Resolved
not_resolved none = fail no_space
not_resolved (some slot) = pure (record { slot = slot; head = 0; root = none })

unfoldable pub head_of_candidate : {Ctx : Type 0} → ℕ → Action (Fs Ctx) (ℕ × Bool)
head_of_candidate candidate fs = (head_for_slot fs.index_cache candidate, fs)

-- Every read of a root asks for the prefix.
unfoldable pub read_root : {Ctx : Type 0} → Backend Ctx → ℕ → ℕ → Option ℕ → Action (Fs Ctx) RootMd
read_root b head slot cache fs =
    on_flash (read_file_root_md b (geometry fs) head slot true cache) fs

module _ {Ctx : Type 0} (b : Backend Ctx) (files : List OpenFile) where
  -- The loop on `d`, with the probes left.
  unfoldable pub resolve_from : ℕ → List ℕ → Option ℕ → ℕ → Option ℕ → Action (Fs Ctx) Resolved
  resolve_from zero name cache candidate first_free = not_resolved first_free
  resolve_from (suc left) name cache candidate first_free =
      let later = resolve_from left name cache (next_slot candidate) in
      do
        look ← head_of_candidate candidate
        if not look.1 then later (note_free files candidate first_free) else do
          root ← read_root b look.0 candidate cache
          if has_name root name
              then pure (record { slot = candidate; head = look.0; root = some root })
              else later first_free

  unfoldable pub index_resolve : List ℕ → Option ℕ → Action (Fs Ctx) Resolved
  index_resolve name cache =
      if length name == 0
      then fail invalid
      else if ltb max_name (length name)
      then fail name_too_long
      else resolve_from (max_probe_distance + 1) name cache (normalize_slot_base (hash16 name)) none

  unfoldable pub stat : List ℕ → Action (Fs Ctx) Stat
  stat name = do
    resolved ← index_resolve name none
    elim resolved.root [ some root ↦ pure (stat_of root) | none ↦ fail not_found ]

  -- What `fffs_exists` makes of `fffs_stat`.
  unfoldable pub existence : Result Stat × Fs Ctx → Result Bool × Fs Ctx
  existence (ok st, fs) = (ok true, fs)
  existence (err not_found, fs) = (ok false, fs)
  existence (err e, fs) = (err e, fs)

  unfoldable pub exists : List ℕ → Action (Fs Ctx) Bool
  exists name fs = existence (stat name fs)
