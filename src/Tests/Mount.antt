-- ===== src/Tests/Mount.antt =====
-- A flash of sixteen sectors of 256 bytes with one index sector of two, and its mount.
use fastffs.Prelude.{◌∷◌, [], false}
use fastffs.Flash.Nor.{overlay}
use fastffs.Flash.Ram.{Cells, ram}
use fastffs.Triple.{Outcome}
use fastffs.Discovery.{find_index_sequence}
use fastffs.Discovery.Sound.{IsSequence, find_index_sequence-Outcome}
use fastffs.Mount.{MountOptions}

abbrev formatted : Cells
formatted i = overlay 0 (b'F' ∷ b'F' ∷ b'F' ∷ b'S' ∷ 1 ∷ 0x20 ∷ 0 ∷ 0x7f ∷ []) i

abbrev options : MountOptions
options = record {
  index_cache_size = 64;
  index_hash_table_size = 16;
  scratch_size = 64;
  strict = false;
  alloc_map = 0 ∷ [];
}

find_index_sequence-Outcome_example :
    Outcome
      (λ s _. IsSequence (ram 4096 4) s)
      (λ _. Unit {0})
      (find_index_sequence (ram 4096 4) formatted)
find_index_sequence-Outcome_example = find_index_sequence-Outcome (ram 4096 4) formatted
