-- ===== src/Tests/AllocMap.antt =====
-- A map of two words for 40 sectors.
use fastffs.Prelude.{
  true, ℕ, ◌+◌, ◌≡◌, arith, List, [], ◌∷◌, false, ◌==◌, ◌&&◌, leb, ltb, if◌then◌else◌,
}
use fastffs.Status.{ok}
use fastffs.AllocMap.{
  bitset_get, bitset_set, maybe_used, mark_used, mark_range_unknown, map_mount_init,
}
use fastffs.AllocMap.Bitset.{bitset_get-bitset_set}
use fastffs.AllocMap.Sets.{maybe_used-mark_used}
use fastffs.AllocMap.Ranges.{maybe_used-mark_range_unknown, map_mount_init-maybe_used}

abbrev words : List ℕ
words = 0xffffffff ∷ 0x000000f0 ∷ []

maybe_used-mark_used_example :
    maybe_used 40 (mark_used 40 words 33) 33
    ≡ (if 33 == 33 then ltb 33 40 else maybe_used 40 words 33)
maybe_used-mark_used_example = maybe_used-mark_used 40 words (omega arith) 33 33

maybe_used-mark_range_unknown_example :
    maybe_used 40 (mark_range_unknown 40 words 30 6) 31
    ≡ (if leb 30 31 && ltb 31 (30 + 6) then false else maybe_used 40 words 31)
maybe_used-mark_range_unknown_example =
    maybe_used-mark_range_unknown 40 words (omega arith) 30 6 (omega arith) 31

map_mount_init-maybe_used_example :
    (map' : List ℕ) × (map_mount_init 40 2 words ≡ ok map')
    × ((sector : ℕ) → maybe_used 40 map' sector ≡ (if ltb sector 2 then ltb sector 40 else false))
map_mount_init-maybe_used_example = map_mount_init-maybe_used 40 2 words (omega arith)

bitset_get-bitset_set_example :
    bitset_get (bitset_set words 40) 41 ≡ (if 41 == 40 then true else bitset_get words 41)
bitset_get-bitset_set_example = bitset_get-bitset_set words 40 (omega arith) 41
