-- ===== src/Metadata/Root.antt =====
-- `read_root_prefix` and `fffs_read_file_root_md` of src/fffs_file_md.c: the name at the start of a
-- file's first extent, which `stage_root_prefix` of src/fffs_file.c puts there.
use fastffs.Prelude.{
  ℕ, ◌+◌, ◌-◌, ◌*◌, List, [], ◌∷◌, ◌++◌, Option, some, none, Bool, false, not, ◌||◌, ◌==◌, ltb, leb,
  if◌then◌else◌, take, drop, length,
}
use fastffs.Status.{corrupt, Result, ok, err, Action, pure, fail, lift, ◌>>=◌}
use fastffs.Bytes.{byte, u8, u16}
use fastffs.Flash.{Backend, flash_read}
use fastffs.Sector.{Geometry}
use fastffs.Metadata.{md_type_file_root, MdRecord}
use fastffs.Metadata.Find.{match_live, read_md_for_slot}

-- `FFFS_MAX_NAME`
abbrev pub max_name : ℕ
max_name = 32

-- The name, the place of the payload, and what of the payload the caller's cache then holds.
pub record RootPrefix : Type 0 where
  pub name : List ℕ
  pub payload_data_off : ℕ
  pub payload_data_len : ℕ
  pub cached : List ℕ

-- The prefix of a new file: no metadata of variable length.
unfoldable pub root_prefix_bytes : List ℕ → List ℕ
root_prefix_bytes name = u8 (length name) ∷ name ++ 0 ∷ []

-- The prefix in the `nread` bytes of `buf`.
unfoldable pub root_prefix : ℕ → ℕ → ℕ → Bool → List ℕ → Result RootPrefix
root_prefix data_off data_len nread use_cache buf =
    let name_len = byte buf 0 in
    let vmeta_len_off = 1 + name_len in
    let payload_off = 1 + name_len + 1 + byte buf vmeta_len_off in
    if name_len == 0
      || ltb max_name name_len
      || leb data_len vmeta_len_off
      || leb nread vmeta_len_off
    then err corrupt
    else if ltb data_len payload_off
    then err corrupt
    else ok (record {
      name = take name_len (drop 1 buf);
      payload_data_off = u16 (data_off + payload_off);
      payload_data_len = u16 (data_len - payload_off);
      cached = if use_cache then drop payload_off (take nread buf) else [];
    })

-- The bytes are read into the caller's cache, where it is large enough for a prefix.
abbrev pub uses_cache : Option ℕ → Bool
uses_cache none = false
uses_cache (some capacity) = leb (max_name + 2) capacity

abbrev pub prefix_buffer : Option ℕ → ℕ
prefix_buffer none = max_name + 2
prefix_buffer (some capacity) = if leb (max_name + 2) capacity then capacity else max_name + 2

-- What `fffs_read_file_root_md` gives.
pub record RootMd : Type 0 where
  pub prefix : Option RootPrefix
  pub data_off : ℕ
  pub data_len : ℕ
  pub next_sector : ℕ
  pub span_len : ℕ
  pub root_size : ℕ

unfoldable pub with_prefix : MdRecord → RootPrefix → RootMd
with_prefix r p = record {
  prefix = some p;
  data_off = p.payload_data_off;
  data_len = p.payload_data_len;
  next_sector = r.next_sector;
  span_len = r.span_len;
  root_size = r.size_or_offset;
}

unfoldable pub without_prefix : MdRecord → RootMd
without_prefix r = record {
  prefix = none;
  data_off = r.data_off;
  data_len = r.data_len;
  next_sector = r.next_sector;
  span_len = r.span_len;
  root_size = r.size_or_offset;
}

module _ {Ctx : Type 0} (b : Backend Ctx) (g : Geometry) where
  unfoldable pub read_root_prefix : ℕ → ℕ → ℕ → Option ℕ → Action Ctx RootPrefix
  read_root_prefix sector data_off data_len cache =
      let buf_size = prefix_buffer cache in
      let nread = if ltb data_len buf_size then data_len else buf_size in
      if ltb data_len 2 then fail corrupt else do
        buf ← flash_read b (sector * g.sector_size + data_off) nread
        lift (root_prefix data_off data_len nread (uses_cache cache) buf)

  -- `wanted`: whether a pointer that asks for the prefix is set.
  unfoldable pub read_file_root_md : ℕ → ℕ → Bool → Option ℕ → Action Ctx RootMd
  read_file_root_md sector want_slot wanted cache = do
    r ← read_md_for_slot b g sector want_slot match_live
    if not (r.type == md_type_file_root)
        then fail corrupt
        else if not wanted
        then pure (without_prefix r)
        else do p ← read_root_prefix sector r.data_off r.data_len cache; pure (with_prefix r p)
