-- ===== src/Flash.antt =====
-- src/fffs_flash.c over `struct fffs_backend` of include/fastffs/fastffs.h.
-- The backend is the caller's: its three functions are parameters on a context of any type. A
-- read returns the status, the bytes that went into the buffer, and the context. The profiling
-- hooks (FFFS_PROFILE_TRACE) are not compiled by default and are left out.
pub mod Nor
mod Between
mod Chunk
pub mod Aligned
pub mod Ram
pub mod Reads
pub mod Success
pub mod Commit
pub mod Spans
pub mod Ends
use fastffs.Prelude.{
  ℕ, zero, suc, ◌+◌, ◌-◌, ◌%◌, List, [], ◌∷◌, Bool, true, false, ◌&&◌, not, ltb, leb, ◌==◌,
  if◌then◌else◌, length, take, drop, replicate,
}
use fastffs.Status.{Result, ok, err, io, Action, next, pure}
use fastffs.Bytes.{write_bytes}

pub record Backend (Ctx : Type 0) : Type 0 where
  pub size : ℕ
  pub program_granule : ℕ
  pub read : ℕ → ℕ → Ctx → ℕ × List ℕ × Ctx
  pub program : ℕ → List ℕ → Ctx → ℕ × Ctx
  pub erase : ℕ → ℕ → Ctx → ℕ × Ctx

-- `FFFS_FILE_CACHE_SIZE`
abbrev pub file_cache_size : ℕ
file_cache_size = 256

unfoldable pub map_backend_status : ℕ → Result (Unit {0})
map_backend_status status = if status == 0 then ok tt else err io

module _ {Ctx : Type 0} (b : Backend Ctx) where
  open b use {size, program_granule as granule}

  -- The pointers are never null in the model.
  unfoldable pub valid_backend : Bool
  valid_backend =
      not (size == 0) && not (granule == 0) && leb granule file_cache_size && size % granule == 0

  unfoldable pub flash_read : ℕ → ℕ → Action Ctx (List ℕ)
  unfolding map_backend_status
  flash_read offset n c =
      let (status, bytes, c') = b.read offset n c in
      next (map_backend_status status, c') (λ _. pure bytes)

  unfoldable pub flash_program : ℕ → List ℕ → Action Ctx (Unit {0})
  unfolding map_backend_status
  flash_program offset bytes c =
      let (status, c') = b.program offset bytes c in (map_backend_status status, c')

  -- The bytes that one round programs, and how many of them come from the source.
  unfoldable pub chunk_length : ℕ → List ℕ → ℕ → ℕ
  chunk_length offset src done =
      let pos = offset + done in
      let in_chunk = pos % granule in
      let n = granule - in_chunk in if ltb (length src - done) n then length src - done else n

  unfoldable pub chunk_bytes : ℕ → List ℕ → ℕ → List ℕ
  chunk_bytes offset src done =
      write_bytes (replicate granule 0xff) ((offset + done) % granule)
        (take (chunk_length offset src done) (drop done src))

  -- The loop of `fffs_backend_program_aligned`, with fuel for its rounds.
  unfoldable pub program_chunks : ℕ → ℕ → List ℕ → ℕ → Action Ctx (Unit {0})
  program_chunks zero offset src done c = (ok tt, c)
  program_chunks (suc fuel) offset src done c =
      let round =
        next
          (flash_program (offset + done - (offset + done) % granule) (chunk_bytes offset src done)
            c)
          (λ _. program_chunks fuel offset src (done + chunk_length offset src done)) in
      if ltb done (length src) then round else (ok tt, c)

  -- Each round programs a byte at least, so that one round for each byte is enough.
  unfoldable pub program_aligned : ℕ → List ℕ → Action Ctx (Unit {0})
  program_aligned offset src c =
      if length src == 0
      then (ok tt, c)
      else if offset % granule == 0 && length src % granule == 0
      then flash_program offset src c
      else program_chunks (length src) offset src 0 c
