-- ===== src/Flash/Nor.antt =====
-- What FASTFFS relies on a backend for: the contents are bytes, programming clears bits and sets
-- none, erasing sets all, and a call that fails has done a part of its work at most.
use fastffs.Prelude.{
  ℕ, zero, suc, ◌+◌, ◌-◌, ◌%◌, ◌≤◌, ◌<◌, bit_and, ◌≡◌, refl, arith, ap, ◌∙◌, List, [], ◌∷◌, ltb,
  if◌then◌else◌, get_or, length,
}
use fastffs.Bits.{bit_and-mask}
use fastffs.Flash.{Backend}

-- The bytes of the span from `off` on.
abbrev pub span : (ℕ → ℕ) → ℕ → ℕ → List ℕ
span cell off zero = []
span cell off (suc n) = cell off ∷ span cell (suc off) n

-- The byte that programming `bytes` at `off` puts on the cell `i`: 0xff clears no bit.
abbrev pub overlay : ℕ → List ℕ → ℕ → ℕ
overlay off bytes i = if ltb i off then 0xff else get_or bytes (i - off) 0xff

-- A byte between a cell and that cell with `value` programmed onto it.
abbrev pub Between : ℕ → ℕ → ℕ → Type 0
Between from value t = (bit_and from t ≡ t) × (bit_and t (bit_and from value) ≡ bit_and from value)

pub record IsNor {Ctx : Type 0} (b : Backend Ctx) (cell : Ctx → ℕ → ℕ) : Type 0 where
  pub is_byte : (c : Ctx) (i : ℕ) → cell c i < 256
  pub read_bytes :
      (off n : ℕ) (c : Ctx) → (b.read off n c).0 ≡ 0 → (b.read off n c).1 ≡ span (cell c) off n
  pub read_keeps : (off n : ℕ) (c : Ctx) (i : ℕ) → cell (b.read off n c).2 i ≡ cell c i
  pub program_clears :
      (off : ℕ) (bytes : List ℕ) (c : Ctx) (i : ℕ)
      → (b.program off bytes c).0 ≡ 0
      → cell (b.program off bytes c).1 i ≡ bit_and (cell c i) (overlay off bytes i)
  pub program_between :
      (off : ℕ) (bytes : List ℕ) (c : Ctx) (i : ℕ)
      → Between (cell c i) (overlay off bytes i) (cell (b.program off bytes c).1 i)
  pub erase_sets :
      (off n : ℕ) (c : Ctx) (i : ℕ)
      → (b.erase off n c).0 ≡ 0
      → cell (b.erase off n c).1 i
        ≡ (if ltb i off then cell c i else if ltb i (off + n) then 0xff else cell c i)

-- The calls that a backend accepts do not fail: reads inside the flash, and programs
-- inside it at multiples of its granule.
pub record IsReliable {Ctx : Type 0} (b : Backend Ctx) : Type 0 where
  pub reads : (off n : ℕ) (c : Ctx) → off + n ≤ b.size → (b.read off n c).0 ≡ 0
  pub programs :
      (off : ℕ) (bytes : List ℕ) (c : Ctx)
      → off % b.program_granule ≡ 0
      → length bytes % b.program_granule ≡ 0
      → off + length bytes ≤ b.size
      → (b.program off bytes c).0 ≡ 0

-- An erase of whole sectors inside the flash does not fail.
abbrev pub ErasesSectors : {Ctx : Type 0} → Backend Ctx → ℕ → Type 0
ErasesSectors {Ctx} b sector_size =
    (off n : ℕ) (c : Ctx)
    → off % sector_size ≡ 0
    → n % sector_size ≡ 0
    → off + n ≤ b.size
    → (b.erase off n c).0 ≡ 0

pub bit_and-0xff : (x : ℕ) → x < 256 → bit_and x 0xff ≡ x
bit_and-0xff x h = omega (arith, bit_and-mask 8 x)

pub length-span : (cell : ℕ → ℕ) (off n : ℕ) → length (span cell off n) ≡ n
length-span cell off zero = refl
length-span cell off (suc n) = ap suc (length-span cell (suc off) n)

pub get_or-span :
    (cell : ℕ → ℕ) (off n i d : ℕ) → i < n → get_or (span cell off n) i d ≡ cell (off + i)
get_or-span cell off zero i d h = absurd (omega arith)
get_or-span cell off (suc n) zero d h = ap cell (omega arith)
get_or-span cell off (suc n) (suc i) d h =
    get_or-span cell (suc off) n i d (omega arith) ∙ ap cell (shift off i)
  where
    shift : (off i : ℕ) → suc off + i ≡ off + suc i
    shift off i = omega arith
