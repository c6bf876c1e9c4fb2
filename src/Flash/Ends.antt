-- ===== src/Flash/Ends.antt =====
-- Programming comes to an end.
use fastffs.Prelude.{
  ℕ, zero, suc, ◌+◌, ◌%◌, List, length, Bool, true, false, ◌&&◌, ◌==◌, ltb, if◌then◌else◌,
}
use fastffs.Status.{Result, ok, err, io}
use fastffs.Settled.{Settled, next-Settled}
use fastffs.Flash.{
  Backend, map_backend_status, flash_program, chunk_length, program_chunks, program_aligned,
}

module _ {Ctx : Type 0} (b : Backend Ctx) where
  -- It ended, with a result or an error of the code.
  abbrev pub IsDone : Result (Unit {0}) × Ctx → Type 0
  IsDone = Settled (λ x c. Unit {0})

  flash_program-IsDone :
      (offset : ℕ) (bytes : List ℕ) (c : Ctx) → IsDone (flash_program b offset bytes c)
  unfolding flash_program map_backend_status
  flash_program-IsDone offset bytes c = status ((b.program offset bytes c).0 == 0)
    where
      status : (fine : Bool) → IsDone (if fine then ok tt else err io, (b.program offset bytes c).1)
      status true = tt
      status false = tt

  program_chunks-IsDone :
      (fuel offset : ℕ) (src : List ℕ) (done : ℕ) (c : Ctx)
      → IsDone (program_chunks b fuel offset src done c)
  unfolding program_chunks
  program_chunks-IsDone zero offset src done c = tt
  program_chunks-IsDone (suc fuel) offset src done c = more (ltb done (length src)) _ (
      next-Settled (λ x c. Unit {0}) (λ x c. Unit {0}) _
        (λ x. program_chunks b fuel offset src (done + chunk_length b offset src done))
        (flash_program-IsDone _ _ c) (λ x c' h. program_chunks-IsDone fuel offset src _ c'))
    where
      more :
          (again : Bool) (round : Result (Unit {0}) × Ctx)
          → IsDone round
          → IsDone (if again then round else (ok tt, c))
      more true round h = h
      more false round h = tt

  pub program_aligned-IsDone :
      (offset : ℕ) (src : List ℕ) (c : Ctx) → IsDone (program_aligned b offset src c)
  unfolding program_aligned
  program_aligned-IsDone offset src c =
      either (length src == 0)
        (offset % b.program_granule == 0 && length src % b.program_granule == 0)
    where
      either :
          (none whole : Bool)
          → IsDone (
              if none
              then (ok tt, c)
              else if whole
              then flash_program b offset src c
              else program_chunks b (length src) offset src 0 c)
      either true whole = tt
      either false true = flash_program-IsDone offset src c
      either false false = program_chunks-IsDone (length src) offset src 0 c
