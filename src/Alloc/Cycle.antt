-- ===== src/Alloc/Cycle.antt =====
-- The cursor of the allocator goes through all data sectors.
use fastffs.Prelude.{ℕ, zero, suc, ◌+◌, ◌-◌, ◌≤◌, ◌<◌, ◌≡◌, ap, sym, ◌∙◌, arith}
use native.Mathlib.Decide.{dec_lt}
use fastffs.Sector.{Geometry}
use fastffs.Alloc.{next_data_sector}

-- The sector after `steps` steps.
abbrev pub stepped_from : Geometry → ℕ → ℕ → ℕ
stepped_from g sector zero = sector
stepped_from g sector (suc steps) = next_data_sector g (stepped_from g sector steps)

-- Before the end of the volume the steps go up.
stepped_up :
    (g : Geometry) (sector steps : ℕ)
    → g.index_sectors ≤ sector
    → sector + steps < g.sector_count
    → stepped_from g sector steps ≡ sector + steps
unfolding next_data_sector
stepped_up g sector zero lo hi = omega arith
stepped_up g sector (suc steps) lo hi = ground (arith, stepped_up g sector steps lo (omega arith))

-- From the last data sector, the first.
wrapped :
    (g : Geometry) (sector steps : ℕ)
    → g.index_sectors ≤ sector
    → sector + suc steps ≡ g.sector_count
    → stepped_from g sector (suc steps) ≡ g.index_sectors
unfolding next_data_sector
wrapped g sector steps lo end = ground (arith, stepped_up g sector steps lo (omega arith))

stepped_add :
    (g : Geometry) (sector m n : ℕ)
    → stepped_from g (stepped_from g sector m) n ≡ stepped_from g sector (n + m)
stepped_add g sector m zero = ap (stepped_from g sector) (omega arith)
stepped_add g sector m (suc n) =
    ap (next_data_sector g) (stepped_add g sector m n) ∙ ap (stepped_from g sector) (again n m)
  where
    again : (n m : ℕ) → suc (n + m) ≡ suc n + m
    again n m = omega arith

-- From any data sector, every data sector is reached within as many steps as there are data sectors.
pub next_data_sector-reaches :
    (g : Geometry) (from to : ℕ)
    → g.index_sectors ≤ from
    → from < g.sector_count
    → g.index_sectors ≤ to
    → to < g.sector_count
    → (steps : ℕ) × (steps < g.sector_count - g.index_sectors) × (stepped_from g from steps ≡ to)
next_data_sector-reaches g from to lo hi lo' hi' = elim (dec_lt to from) [
  | yes before ↦ (to - g.index_sectors + (g.sector_count - from), omega arith, round)
  | no after ↦
      (to - from, omega arith, stepped_up g from (to - from) lo (omega arith) ∙ omega arith)
]
  where
    steps : g.sector_count - from ≡ suc (g.sector_count - from - 1)
    steps = omega arith

    first : stepped_from g from (g.sector_count - from) ≡ g.index_sectors
    first =
        ap (stepped_from g from) steps ∙ wrapped g from (g.sector_count - from - 1) lo (omega arith)

    round : stepped_from g from (to - g.index_sectors + (g.sector_count - from)) ≡ to
    round =
        sym (stepped_add g from (g.sector_count - from) (to - g.index_sectors))
        ∙ ap (λ sector. stepped_from g sector (to - g.index_sectors)) first
        ∙ stepped_up g g.index_sectors (to - g.index_sectors) (omega arith) (omega arith)
        ∙ omega arith
