-- ===== src/Flash/Chunk.antt =====
-- The rounds of `fffs_backend_program_aligned`: what one of them programs.
use fastffs.Prelude.{
  ℕ, ◌+◌, ◌-◌, ◌%◌, ◌≤◌, ◌<◌, ◌≡◌, ◌≢◌, arith, ◌∙◌, List, ltb, ◌⊎◌, if◌then◌else◌, get_or, length,
  take, drop, replicate, ==_ne, get_or-replicate, get_or_beyond, get_or-take, get_or-drop,
  length-take, length-drop, length-replicate,
}
use fastffs.Bytes.Laws.{get_or-write_bytes, length-write_bytes}
use fastffs.Status.{ok, err, io}
use fastffs.Flash.{Backend, flash_program, chunk_length, chunk_bytes}
use fastffs.Flash.Nor.{overlay}

-- What the bytes of `src` from `done` on put on the cell `i`.
abbrev pub rest : ℕ → List ℕ → ℕ → ℕ → ℕ
rest offset src done i = if ltb i (offset + done) then 0xff else get_or src (i - offset) 0xff

pub rest_start : (offset : ℕ) (src : List ℕ) (i : ℕ) → rest offset src 0 i ≡ overlay offset src i
rest_start offset src i = ground arith

pub rest_done :
    (offset : ℕ) (src : List ℕ) (done i : ℕ) → length src ≤ done → rest offset src done i ≡ 0xff
rest_done offset src done i h = ground (arith, get_or_beyond src (i - offset) 0xff)

module _ {Ctx : Type 0} (b : Backend Ctx) where
  open b use {program_granule as granule}

  module _ (offset : ℕ) (src : List ℕ) (done : ℕ) (pos : 0 < granule)
      (more : done < length src) where
    pub chunk_length_bounds :
        (1 ≤ chunk_length b offset src done)
        × ((offset + done) % granule + chunk_length b offset src done ≤ granule)
        × (done + chunk_length b offset src done ≤ length src)
    unfolding chunk_length
    chunk_length_bounds = ground arith

    pub length-chunk_bytes : length (chunk_bytes b offset src done) ≡ granule
    unfolding chunk_bytes
    length-chunk_bytes =
        length-write_bytes (replicate granule 0xff) ((offset + done) % granule)
          (take (chunk_length b offset src done) (drop done src))
        ∙ length-replicate granule 0xff

    overlay-chunk_bytes :
        (i : ℕ)
        → overlay (offset + done - (offset + done) % granule) (chunk_bytes b offset src done) i ≡ (
            if ltb i (offset + done)
            then 0xff
            else if ltb i (offset + done + chunk_length b offset src done)
            then get_or src (i - offset) 0xff
            else 0xff)
    unfolding chunk_bytes
    overlay-chunk_bytes i = ground (
      arith,
      chunk_length_bounds,
      get_or-write_bytes (replicate granule 0xff) r piece j 0xff,
      get_or-replicate {A = ℕ} granule j 0xff,
      length-replicate {A = ℕ} granule 0xff,
      length-take n (drop done src),
      length-drop done src,
      get_or-take n (drop done src) (j - r) 0xff,
      get_or-drop done src (j - r) 0xff,
    )
      where
        r : ℕ
        r = (offset + done) % granule

        n : ℕ
        n = chunk_length b offset src done

        piece : List ℕ
        piece = take n (drop done src)

        j : ℕ
        j = i - (offset + done - r)

  pub flash_program_ok :
      (off : ℕ) (bytes : List ℕ) (c : Ctx)
      → (b.program off bytes c).0 ≡ 0
      → flash_program b off bytes c ≡ (ok tt, (b.program off bytes c).1)
  unfolding flash_program
  flash_program_ok off bytes c h = rw h

  pub flash_program_err :
      (off : ℕ) (bytes : List ℕ) (c : Ctx)
      → (b.program off bytes c).0 ≢ 0
      → flash_program b off bytes c ≡ (err io, (b.program off bytes c).1)
  unfolding flash_program
  flash_program_err off bytes c h = rw (==_ne (b.program off bytes c).0 0 h)

  -- On each cell, a round or the rounds after it program nothing.
  pub overlay_or_rest :
      (offset : ℕ) (src : List ℕ) (done i : ℕ)
      → 0 < granule
      → done < length src
      → let u =
          overlay (offset + done - (offset + done) % granule) (chunk_bytes b offset src done) i in
        let v = rest offset src (done + chunk_length b offset src done) i in
        let w = rest offset src done i in ((u ≡ 0xff) × (w ≡ v)) ⊎ ((v ≡ 0xff) × (w ≡ u))
  overlay_or_rest offset src done i pos more = ground (
    arith,
    chunk_length_bounds offset src done pos more,
    overlay-chunk_bytes offset src done pos more i,
  )
