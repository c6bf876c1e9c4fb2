-- ===== src/Journal/Append.antt =====
-- `fffs_append_index_record` and `fffs_rotate_index`.
use fastffs.Prelude.{ℕ, List, Option, some, none, not, ◌!=◌, if◌then◌else◌}
use fastffs.Status.{no_space, hang, Result, ok, err, Action, pure, fail, gets, ◌>>=◌, ◌>>◌}
use fastffs.Flash.{Backend}
use fastffs.HashIndex.{Bucket, set_head}
use fastffs.Fs.{Fs}
use fastffs.Journal.Rotate.{rotate_index_begin, rotate_index_commit}
use fastffs.Journal.Compact.{
  index_compact_oldest_copy, index_compact_oldest_finish, program_next_record, active_is_full,
}

-- The cache after an operation on it.
unfoldable pub cached : {Ctx : Type 0} → Option (Result (List Bucket)) → Action (Fs Ctx) (Unit {0})
cached none fs = (err hang, fs)
cached (some (ok table)) fs = (ok tt, record fs { index_cache = table })
cached (some (err e)) fs = (err e, fs)

unfoldable pub index_set : {Ctx : Type 0} → ℕ → ℕ → Action (Fs Ctx) (Unit {0})
index_set slot head fs = cached (set_head fs.index_cache slot head) fs

module _ {Ctx : Type 0} (b : Backend Ctx) where
  -- The copy sets the source where the sequence has two sectors at least, as it has here.
  unfoldable pub rotate_index : Action (Fs Ctx) (Unit {0})
  rotate_index = do
    rotate_index_begin b
    fewer ← gets (λ fs. fs.index_sequence_count != fs.index_sectors)
    if fewer then rotate_index_commit b else do
      source ← index_compact_oldest_copy b
      rotate_index_commit b
      index_compact_oldest_finish b (elim source [ some sector ↦ sector | none ↦ 0 ])

  unfoldable pub make_room : Action (Fs Ctx) (Unit {0})
  make_room = do
    full ← gets active_is_full
    if not full
        then pure tt
        else do rotate_index; still ← gets active_is_full; if still then fail no_space else pure tt

  unfoldable pub append_index_record : ℕ → ℕ → Action (Fs Ctx) (Unit {0})
  append_index_record slot head = do make_room; program_next_record b slot head; index_set slot head
