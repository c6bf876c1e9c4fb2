-- ===== src/Files/Reserved.antt =====
-- What reserving sectors leaves of a writer's reservation and of the map.
use fastffs.Prelude.{
  ℕ, zero, suc, ◌+◌, ◌-◌, ◌^◌, ◌≤◌, ◌<◌, ◌≡◌, ◌≢◌, ◌⊎◌, inl, inr, refl, sym, ◌∙◌, subst, arith,
  List, [], ◌∷◌, Bool, true, false, not, ◌&&◌, ◌||◌, ◌==◌, ◌!=◌, ltb, leb, if◌then◌else◌, ==_ne,
  ==_refl, lt→ltb, Bool-cases,
}
use native.Mathlib.Decide.{dec_lt, ℕ_discrete}
use fastffs.Bytes.{u16}
use fastffs.Sector.{Geometry}
use fastffs.AllocMap.{maybe_used, mark_used}
use fastffs.AllocMap.Sets.{Covers, maybe_used-mark_used, length-mark_used}
use fastffs.Files.{OpenFile, file_writes, sector_is_open_for_writing}
use fastffs.Files.Reserve.{
  alloc_reserve_sectors, sector_in_reservation, reserved_by_other_from, sector_reserved_by_other,
  sector_can_be_reserved, reserve_from, reserve_after,
}

-- A reservation is at most four data sectors.
abbrev pub IsReservation : Geometry → OpenFile → Type 0
IsReservation g file =
    (file.reserve_count ≤ alloc_reserve_sectors)
    × (1 ≤ file.reserve_count
        → (g.index_sectors ≤ file.reserve_first)
          × (file.reserve_first + file.reserve_count ≤ g.sector_count))

-- Where the sectors of a reservation start, or would start.
abbrev pub reserve_start : OpenFile → ℕ → ℕ
reserve_start file sector = if file.reserve_count != 0 then file.reserve_first else u16 (sector + 1)

-- A file that is written has no place in the sector.
abbrev pub IsElsewhere : OpenFile → ℕ → Type 0
IsElsewhere file s =
    (file.head ≢ s)
    × (file.current ≢ s)
    × (file.span_head ≢ 0 → file.span_head ≤ s → file.current < s)

-- No open writer among `files`, the first of which has the number `n`, has a place in the sector, and
-- none but the owner has reserved it.
abbrev pub IsUnclaimed : List OpenFile → ℕ → ℕ → ℕ → Type 0
IsUnclaimed [] n owner s = Unit
IsUnclaimed (file ∷ files) n owner s =
    (file.closed ≡ false
      → file.wronly ≡ true
      → IsElsewhere file s × (n ≢ owner → sector_in_reservation file s ≡ false))
    × IsUnclaimed files (n + 1) owner s

-- A data sector that nothing is known to use.
abbrev pub IsReservable : Geometry → List OpenFile → ℕ → List ℕ → ℕ → Type 0
IsReservable g files owner words s =
    (g.index_sectors ≤ s)
    × (s < g.sector_count)
    × (maybe_used g.sector_count words s ≡ false)
    × IsUnclaimed files 0 owner s

file_writes-IsElsewhere :
    (file : OpenFile) (s : ℕ)
    → file_writes file s ≡ false
    → file.closed ≡ false
    → file.wronly ≡ true
    → IsElsewhere file s
unfolding file_writes
file_writes-IsElsewhere file s e opened writes =
    (ground arith, ground arith, λ some low. ground arith)

unclaimed_lem :
    (files : List OpenFile) (n owner s : ℕ)
    → sector_is_open_for_writing files s ≡ false
    → reserved_by_other_from files n owner s ≡ false
    → IsUnclaimed files n owner s
unfolding sector_is_open_for_writing reserved_by_other_from
unclaimed_lem [] n owner s e r = tt
unclaimed_lem (file ∷ files) n owner s e r =
    let (writes, later) = neither (file_writes file s) (sector_is_open_for_writing files s) e in
    let (loose, later') =
      passed (n == owner || file.closed || not file.wronly) (sector_in_reservation file s)
        (reserved_by_other_from files (n + 1) owner s) r in
    (
      λ opened writer. (
        file_writes-IsElsewhere file s writes opened writer,
        λ other. loose (rw (==_ne n owner other, opened, writer) refl),
      ),
      unclaimed_lem files (n + 1) owner s later later',
    )
  where
    neither : (x y : Bool) → (if x then true else y) ≡ false → (x ≡ false) × (y ≡ false)
    neither x y e = (ground arith, ground arith)

    passed :
        (skip x y : Bool)
        → (if skip then y else if x then true else y) ≡ false
        → (skip ≡ false → x ≡ false) × (y ≡ false)
    passed skip x y e = (λ k. ground arith, ground arith)

IsElsewhere-file_writes :
    (file : OpenFile) (s : ℕ)
    → (file.closed ≡ false → file.wronly ≡ true → IsElsewhere file s)
    → file_writes file s ≡ false
unfolding file_writes
IsElsewhere-file_writes file s h = either file.closed file.wronly h
  where
    either :
        (closed wronly : Bool)
        → (closed ≡ false → wronly ≡ true → IsElsewhere file s)
        → (if closed || not wronly
            then false
            else if file.head == s || file.current == s
            then true
            else file.span_head != 0 && leb file.span_head s && leb s file.current)
          ≡ false
    either true wronly h = refl
    either false false h = refl
    either false true h = ground (arith, h refl refl)

-- And the other way round.
IsUnclaimed-tests :
    (files : List OpenFile) (n owner s : ℕ)
    → IsUnclaimed files n owner s
    → (sector_is_open_for_writing files s ≡ false)
      × (reserved_by_other_from files n owner s ≡ false)
unfolding sector_is_open_for_writing reserved_by_other_from
IsUnclaimed-tests [] n owner s h = (refl, refl)
IsUnclaimed-tests (file ∷ files) n owner s (here, later) =
    let rest = IsUnclaimed-tests files (n + 1) owner s later in
    (
      rw (IsElsewhere-file_writes file s (λ o w. (here o w).0)) rest.0,
      rw rest.1 (loose file.closed file.wronly (λ o w. (here o w).1)),
    )
  where
    loose :
        (closed wronly : Bool)
        → (closed ≡ false → wronly ≡ true → n ≢ owner → sector_in_reservation file s ≡ false)
        → (if n == owner || closed || not wronly
            then false
            else if sector_in_reservation file s
            then true
            else false)
          ≡ false
    loose true wronly h = ground arith
    loose false false h = ground arith
    loose false true h = elim (ℕ_discrete n owner) [
      | yes e ↦ rw (e, ==_refl owner) refl
      | no ne ↦ rw (==_ne n owner ne, h refl refl ne) refl
    ]

module _ (g : Geometry) (files : List OpenFile) (owner : ℕ) (narrow : g.sector_count ≤ 0xffff) where
  abbrev can : List ℕ → ℕ → Bool
  can = sector_can_be_reserved g files owner

  -- A sector that can be reserved beside another could be before.
  can-mark_used :
      (words : List ℕ) (n s : ℕ)
      → Covers words g.sector_count
      → n ≢ s
      → can (mark_used g.sector_count words n) s ≡ true
      → can words s ≡ true
  unfolding sector_can_be_reserved
  can-mark_used words n s covers ne h =
      subst
        (λ used.
          (if ltb s g.index_sectors || leb g.sector_count s
            then false
            else if used
            then false
            else if sector_is_open_for_writing files s
            then false
            else not (sector_reserved_by_other files owner s))
          ≡ true)
        (maybe_used-mark_used g.sector_count words covers n s
          ∙ rw (==_ne s n (λ e. ne (sym e))) refl)
        h

  can-InData :
      (words : List ℕ) (s : ℕ) → can words s ≡ true → (g.index_sectors ≤ s) × (s < g.sector_count)
  unfolding sector_can_be_reserved
  can-InData words s h = (ground arith, ground arith)

  can-IsReservable :
      (words : List ℕ) (s : ℕ) → can words s ≡ true → IsReservable g files owner words s
  unfolding sector_can_be_reserved sector_reserved_by_other
  can-IsReservable words s h = (
    ground arith,
    ground arith,
    ground arith,
    unclaimed_lem files 0 owner s (ground arith) (ground arith),
  )

  IsReservable-can :
      (words : List ℕ) (s : ℕ) → can words s ≡ false → ¬ IsReservable g files owner words s
  unfolding sector_can_be_reserved sector_reserved_by_other
  IsReservable-can words s e (lo, hi, unused, unclaimed) =
      let tests = IsUnclaimed-tests files 0 owner s unclaimed in
      absurd (ground (arith, e, unused, tests, lo, hi))

  -- The loop adds the `k` sectors from `next` on.
  abbrev Grown : ℕ → ℕ → ℕ → ℕ → List ℕ → ℕ × ℕ × List ℕ → Type 0
  Grown left first count next words (first', count', words') =
      (k : ℕ) × (k ≤ left)
      × (count' ≡ count + k)
      × (first' ≡ (if count == 0 && k != 0 then next else first))
      × ((s : ℕ)
          → next ≤ s
          → s < next + k
          → (can words s ≡ true) × (maybe_used g.sector_count words' s ≡ true))
      × ((s : ℕ)
          → maybe_used g.sector_count words s ≡ true
          → maybe_used g.sector_count words' s ≡ true)
      × ((k ≡ left) ⊎ (¬ IsReservable g files owner words' (next + k)))

  reserve_from-Grown :
      (left first count next : ℕ) (words : List ℕ)
      → Covers words g.sector_count
      → Grown left first count next words (reserve_from g files owner left first count next words)
  unfolding reserve_from
  reserve_from-Grown zero first count next words covers = (
    0,
    omega arith,
    omega arith,
    ground arith,
    (λ s lo hi. absurd (omega arith)),
    (λ s h. h),
    inl refl,
  )
  reserve_from-Grown (suc left) first count next words covers =
      stop (not (ltb next g.sector_count) || not (can words next)) refl _ (
        reserve_from-Grown left (if count == 0 then next else first) (count + 1) (u16 (next + 1))
          (mark_used g.sector_count words next)
          (rw (length-mark_used g.sector_count words next) covers))
    where
      marked :
          next < g.sector_count
          → (s : ℕ) → (s ≡ next) ⊎ (maybe_used g.sector_count words s ≡ true)
          → maybe_used g.sector_count (mark_used g.sector_count words next) s ≡ true
      marked lt s (inl e) =
          maybe_used-mark_used g.sector_count words covers next s
          ∙ rw (e, ==_refl next, lt→ltb next g.sector_count lt) refl
      marked lt s (inr e) =
          maybe_used-mark_used g.sector_count words covers next s
          ∙ rw (e, lt→ltb next g.sector_count lt) (same (s == next))
        where
          same : (b : Bool) → (if b then true else true) ≡ true
          same true = refl
          same false = refl

      barred :
          true ≡ (not (ltb next g.sector_count) || not (can words next))
          → ¬ IsReservable g files owner words (next + 0)
      barred e h = subst (λ n. IsReservable g files owner words n → ⊥) (omega arith) (refused e) h
        where
          refused :
              true ≡ (not (ltb next g.sector_count) || not (can words next))
              → ¬ IsReservable g files owner words next
          refused e k = elim (Bool-cases (can words next)) [
            | inl yes_can ↦ absurd (ground (arith, e, k.1))
            | inr not_can ↦ IsReservable-can words next not_can k
          ]

      stop :
          (at : Bool)
          → at ≡ (not (ltb next g.sector_count) || not (can words next))
          → (rest : ℕ × ℕ × List ℕ)
          → Grown left
              (if count == 0 then next else first)
              (count + 1)
              (u16 (next + 1))
              (mark_used g.sector_count words next)
              rest
          → Grown (suc left) first count next words (if at then (first, count, words) else rest)
      stop true e rest h = (
        0,
        omega arith,
        omega arith,
        ground arith,
        (λ s lo hi. absurd (omega arith)),
        (λ s h. h),
        inr (barred e),
      )
      stop false e (first', count', words') (k, le, total, start, fresh, kept, ended) = (
        k + 1,
        omega arith,
        omega arith,
        ground (arith, start),
        (λ s lo hi. elim (ℕ_discrete s next) [
          | yes here ↦ rw here (free, kept next (marked below next (inl refl)))
          | no further ↦
              let later = fresh s (ground arith) (ground arith) in
              (can-mark_used words next s covers (λ e. further (sym e)) later.0, later.1)
        ]),
        (λ s h. kept s (marked below s (inr h))),
        onward k ended,
      )
        where
          below : next < g.sector_count
          below = ground (arith, e)

          free : can words next ≡ true
          free = ground (arith, e)

          onward :
              (k : ℕ)
              → (k ≡ left) ⊎ (¬ IsReservable g files owner words' (u16 (next + 1) + k))
              → (k + 1 ≡ suc left) ⊎ (¬ IsReservable g files owner words' (next + (k + 1)))
          onward k (inl e) = inl (omega arith)
          onward k (inr barred_there) = inr (
              subst (λ n. IsReservable g files owner words' n → ⊥) (omega (arith, below, narrow))
                barred_there)

  -- A reservation of at most four data sectors stays one when it grows. Each sector in it was in it
  -- before, or is a data sector that was not in the map, in which no open writer had a place, and
  -- which no other open writer had reserved, and it is marked as used now. No sector that was marked
  -- is not. The reservation has four sectors in the end, or the sector behind it, which is the one
  -- behind the given sector if it is empty, is not of that kind.
  pub reserve_after-IsReservation :
      (words : List ℕ) (file : OpenFile) (sector : ℕ)
      → Covers words g.sector_count
      → IsReservation g file
      → IsReservation g (reserve_after g files owner words file sector).0
        × ((s : ℕ)
            → sector_in_reservation (reserve_after g files owner words file sector).0 s ≡ true
            → (sector_in_reservation file s ≡ true)
              ⊎ (IsReservable g files owner words s
                  × (maybe_used g.sector_count (reserve_after g files owner words file sector).1 s
                      ≡ true)))
        × ((s : ℕ)
            → maybe_used g.sector_count words s ≡ true
            → maybe_used g.sector_count (reserve_after g files owner words file sector).1 s ≡ true)
        × (((reserve_after g files owner words file sector).0.reserve_count ≡ alloc_reserve_sectors)
            ⊎ (¬ IsReservable g files owner (reserve_after g files owner words file sector).1 (
                reserve_start file sector
                + (reserve_after g files owner words file sector).0.reserve_count)))
  unfolding reserve_after sector_in_reservation
  reserve_after-IsReservation words file sector covers (small, inside) =
      grown _ _
        (reserve_from-Grown (alloc_reserve_sectors - file.reserve_count) file.reserve_first
          file.reserve_count
          (if file.reserve_count != 0
            then u16 (file.reserve_first + file.reserve_count)
            else u16 (sector + 1))
          words covers)
        (λ some. ground (arith, inside some)) (begins (λ some. ground (arith, inside some)))
    where
      begins :
          (1 ≤ file.reserve_count → file.reserve_first + file.reserve_count < 2 ^ 16)
          → (if file.reserve_count != 0
              then u16 (file.reserve_first + file.reserve_count)
              else u16 (sector + 1))
            ≡ reserve_start file sector + file.reserve_count
      begins below = ground (arith, below)

      grown :
          (next : ℕ) (rest : ℕ × ℕ × List ℕ)
          → Grown
              (alloc_reserve_sectors - file.reserve_count)
              file.reserve_first
              file.reserve_count
              next
              words
              rest
          → (1 ≤ file.reserve_count → next ≡ file.reserve_first + file.reserve_count)
          → next ≡ reserve_start file sector + file.reserve_count
          → let file' : OpenFile = record file { reserve_first = rest.0; reserve_count = rest.1 } in
            IsReservation g file'
            × ((s : ℕ)
                → sector_in_reservation file' s ≡ true
                → (sector_in_reservation file s ≡ true)
                  ⊎ (IsReservable g files owner words s
                      × (maybe_used g.sector_count rest.2 s ≡ true)))
            × ((s : ℕ)
                → maybe_used g.sector_count words s ≡ true
                → maybe_used g.sector_count rest.2 s ≡ true)
            × ((rest.1 ≡ alloc_reserve_sectors)
                ⊎ (¬ IsReservable g files owner rest.2 (reserve_start file sector + rest.1)))
      grown next (first', count', words') (k, le, total, start, fresh, kept, ended) follows begin =
          ((omega arith, bounds), member, kept, finally)
        where
          ends : 1 ≤ k → (g.index_sectors ≤ next) × (next + k ≤ g.sector_count)
          ends some = (
            (can-InData words next (fresh next (omega arith) (omega arith)).0).0,
            omega (
              arith,
              (can-InData words (next + k - 1)
                  (fresh (next + k - 1) (omega arith) (omega arith)).0).1,
            ),
          )

          bounds : 1 ≤ count' → (g.index_sectors ≤ first') × (first' + count' ≤ g.sector_count)
          bounds some = elim (dec_lt 0 k) [
            | yes more ↦
                (ground (arith, ends more, inside), ground (arith, ends more, follows, start))
            | no same ↦ (ground (arith, inside), ground (arith, inside, start))
          ]

          place :
              (s : ℕ)
              → sector_in_reservation
                  (record file { reserve_first = first'; reserve_count = count' })
                  s
                ≡ true
              → (1 ≤ count') × (first' ≤ s) × (s < first' + count')
          place s h = elim (ℕ_discrete count' 0) [
            | yes empty ↦ absurd (ground arith)
            | no some ↦ (omega arith, ground arith, ground (arith, bounds (omega arith)))
          ]

          member :
              (s : ℕ)
              → sector_in_reservation
                  (record file { reserve_first = first'; reserve_count = count' })
                  s
                ≡ true
              → (sector_in_reservation file s ≡ true)
                ⊎ (IsReservable g files owner words s × (maybe_used g.sector_count words' s ≡ true))
          member s h = elim (dec_lt s next) [
            | yes old ↦ inl (ground (arith, place s h, start, follows, inside))
            | no new ↦
                let (free, used) =
                  fresh s (omega arith) (ground (arith, place s h, start, follows)) in
                inr (can-IsReservable words s free, used)
          ]

          finally :
              (count' ≡ alloc_reserve_sectors)
              ⊎ (¬ IsReservable g files owner words' (reserve_start file sector + count'))
          finally = elim ended [
            | inl all ↦ inl (omega (arith, small))
            | inr barred_there ↦
                inr
                  (subst (λ n. IsReservable g files owner words' n → ⊥) (omega arith) barred_there)
          ]
