-- ===== src/Tests/HashIndex.antt =====
-- A table of four buckets in which slots 1 and 5 collide, and one that is full.
use fastffs.Prelude.{
  ℕ, zero, suc, ◌<◌, ◌≡◌, ◌≢◌, ◌⊎◌, refl, arith, List, [], ◌∷◌, length, some, none, ◌==◌, true,
  false, if◌then◌else◌,
}
use fastffs.Status.{ok, err, no_space}
use fastffs.RamIndex.{put_head, find_head}
use fastffs.RamIndex.Refine.{Agree, set_head-put_head}
use fastffs.HashIndex.{
  Bucket, bucket_for, next_bucket, find_from, find_slot_bucket, head_of, insert, remove,
  remove_bucket_at, set_head, head_for_slot,
}
use fastffs.HashIndex.Cycle.{dist}
use fastffs.HashIndex.Find.{IsValid, slot_at}
use fastffs.HashIndex.Insert.{insert-lookup}
use fastffs.HashIndex.Remove.{remove-lookup}
use fastffs.HashIndex.Full.{remove_bucket_at_full}

abbrev entry : ℕ → ℕ → Bucket
entry slot head = record { slot = slot; head = head }

abbrev colliding : List Bucket
colliding = entry 0 0 ∷ entry 1 17 ∷ entry 5 33 ∷ entry 0 0 ∷ []

abbrev crowded : List Bucket
crowded = entry 4 49 ∷ entry 1 17 ∷ entry 5 33 ∷ entry 3 65 ∷ []

below_4 : (P : ℕ → Type 0) → P 0 → P 1 → P 2 → P 3 → (p : ℕ) → p < 4 → P p
below_4 P a b c d zero h = a
below_4 P a b c d (suc zero) h = b
below_4 P a b c d (suc (suc zero)) h = c
below_4 P a b c d (suc (suc (suc zero))) h = d
below_4 P a b c d (suc (suc (suc (suc p)))) h = absurd (omega arith)

colliding-reach :
    (p q : ℕ)
    → p < 4
    → q < 4
    → slot_at colliding p ≢ 0
    → dist 4 (bucket_for 4 (slot_at colliding p)) q < dist 4 (bucket_for 4 (slot_at colliding p)) p
    → slot_at colliding q ≢ 0
unfolding dist bucket_for
colliding-reach p q hp hq =
    below_4
      (λ p.
        slot_at colliding p ≢ 0
        → dist 4 (bucket_for 4 (slot_at colliding p)) q
          < dist 4 (bucket_for 4 (slot_at colliding p)) p
        → slot_at colliding q ≢ 0)
      (λ taken lt. absurd (taken refl)) (λ taken lt. absurd (omega arith))
      (λ taken.
        below_4
          (λ q. dist 4 (bucket_for 4 5) q < dist 4 (bucket_for 4 5) 2 → slot_at colliding q ≢ 0)
          (λ lt. absurd (omega arith)) (λ lt. omega arith) (λ lt. absurd (omega arith))
          (λ lt. absurd (omega arith)) q hq)
      (λ taken lt. absurd (taken refl)) p hp

colliding_unique :
    (p q : ℕ)
    → p < 4
    → q < 4
    → slot_at colliding p ≢ 0
    → slot_at colliding p ≡ slot_at colliding q
    → p ≡ q
colliding_unique p q hp hq =
    below_4 (λ p. slot_at colliding p ≢ 0 → slot_at colliding p ≡ slot_at colliding q → p ≡ q)
      (λ taken e. absurd (taken refl))
      (λ taken.
        below_4 (λ q. 1 ≡ slot_at colliding q → 1 ≡ q) (λ e. absurd (omega arith)) (λ e. refl)
          (λ e. absurd (omega arith)) (λ e. absurd (omega arith)) q hq)
      (λ taken.
        below_4 (λ q. 5 ≡ slot_at colliding q → 2 ≡ q) (λ e. absurd (omega arith))
          (λ e. absurd (omega arith)) (λ e. refl) (λ e. absurd (omega arith)) q hq)
      (λ taken e. absurd (taken refl)) p hp

colliding-IsValid : IsValid colliding 2
colliding-IsValid = record {
  small = omega arith;
  power = refl;
  reach = colliding-reach;
  unique = colliding_unique;
}

crowded-taken : (q : ℕ) → q < length crowded → slot_at crowded q ≢ 0
crowded-taken =
    below_4 (λ q. slot_at crowded q ≢ 0) (omega arith) (omega arith) (omega arith) (omega arith)

insert-lookup_example :
    ((insert colliding 9 81 ≡ err no_space)
      × ((q : ℕ) → q < 4 → (slot_at colliding q ≢ 0) × (slot_at colliding q ≢ 9)))
    ⊎ ((table' : List Bucket) × (insert colliding 9 81 ≡ ok table')
        × IsValid table' 2
        × ((other : ℕ)
            → other ≢ 0
            → head_for_slot table' other
              ≡ (if other == 9 then ok (81, true) else head_for_slot colliding other)))
insert-lookup_example = insert-lookup colliding-IsValid 9 81 (omega arith)

remove-lookup_example :
    (table' : List Bucket) × (remove colliding 1 ≡ some (ok table'))
    × IsValid table' 2
    × ((other : ℕ)
        → other ≢ 0
        → head_for_slot table' other
          ≡ (if other == 1 then ok (0, false) else head_for_slot colliding other))
remove-lookup_example = remove-lookup colliding-IsValid 3 (omega arith) refl 1 (omega arith)

remove_bucket_at_full_example : remove_bucket_at 1000 crowded 1 ≡ none
remove_bucket_at_full_example =
    remove_bucket_at_full crowded 2 (omega arith) refl crowded-taken 1 (omega arith) 1000

-- An array of six heads that answers as the table of colliding slots does.
abbrev heads : List ℕ
heads = 0 ∷ 17 ∷ 0 ∷ 0 ∷ 0 ∷ 33 ∷ []

colliding-Agree : Agree colliding heads
unfolding head_for_slot head_of find_slot_bucket find_from next_bucket bucket_for find_head
colliding-Agree zero proper lt = absurd (proper refl)
colliding-Agree (suc zero) proper lt = refl
colliding-Agree (suc (suc zero)) proper lt = refl
colliding-Agree (suc (suc (suc zero))) proper lt = refl
colliding-Agree (suc (suc (suc (suc zero)))) proper lt = refl
colliding-Agree (suc (suc (suc (suc (suc zero))))) proper lt = refl
colliding-Agree (suc (suc (suc (suc (suc (suc slot)))))) proper lt = absurd (omega arith)

set_head-put_head_example :
    (table' : List Bucket) × (set_head colliding 5 81 ≡ some (ok table'))
    × IsValid table' 2
    × Agree table' (put_head heads 5 81)
set_head-put_head_example =
    set_head-put_head colliding-IsValid heads colliding-Agree 5 (omega arith) (omega arith) 3 81
      (omega arith) refl
