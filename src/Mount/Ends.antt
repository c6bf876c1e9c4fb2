-- ===== src/Mount/Ends.antt =====
-- The steps of a mount come to an end, unless the removal of a slot from the cache does not.
use fastffs.Prelude.{
  ℕ, zero, suc, ◌+◌, ◌*◌, ◌≤◌, ◌<◌, arith, List, Bool, true, false, not, ◌&&◌, ◌||◌, ◌==◌, ◌!=◌,
  ltb, leb, if◌then◌else◌,
}
use fastffs.Status.{
  Error, corrupt, invalid, nomem, range, no_space, not_found, exists, name_too_long, io, hang,
  passed_over, Result, ok, err, modify,
}
use fastffs.Flash.{Backend}
use fastffs.Flash.Ends.{program_aligned-IsDone}
use fastffs.Settled.{Ends, Settled}
use fastffs.AllocMap.{map_mount_init, map_config_valid}
use fastffs.Fs.{Fs, geometry, on_flash}
use fastffs.Sector.{
  Geometry, SectorFooter, footer_reader, footer_size, footer_serial, viewed_serial,
  read_sector_serial, sector_type_file,
}
use fastffs.Lifecycle.{lifecycle_is_live, is_mixed, is_cleared}
use fastffs.Metadata.Step.{Read, Answers, sector_reader_view-Answers}
use fastffs.IndexHeader.{header_size}
use fastffs.Journal.Record.{tombstone_index_sector}
use fastffs.Journal.Compact.{index_compact_oldest_finish, index_finish_interrupted_compaction}
use fastffs.Journal.Replay.{
  noted_serial, note_serial, replay_sector, sectors_from, recover_from, recover_allocator_hint,
  replay_index, alloc_recovery_lookahead,
}
use fastffs.Mount.{initialized, alloc_map_mount_init, mount_steps}
use fastffs.Mount.Stops.{
  HasBuffers, IsOver, Stops, Stops-pure, Stops-gets, Stops-bind, Stops-on_flash, Stops-modify,
  chunks-Stops, stops_rules,
}

footer_serial-Settled :
    {S : Type 0} (footer : SectorFooter) (s : S)
    → Settled (λ x t. Unit {0}) (footer_serial footer, s)
unfolding footer_serial
footer_serial-Settled {S} footer s =
    either (footer.type != sector_type_file || not footer.magic_valid) (
      not (lifecycle_is_live footer.valid_bits footer.tombstone_bits)
      && not (not (is_mixed footer.valid_bits) && is_cleared footer.tombstone_bits))
  where
    either :
        (other dead : Bool)
        → Settled
            (λ (x : ℕ) (t : S). Unit {0})
            (if other then err corrupt else if dead then err corrupt else ok footer.serial, s)
    either true dead = tt
    either false true = tt
    either false false = tt

module _ {Ctx : Type 0} (b : Backend Ctx) where
  serial-Settled :
      (g : Geometry) (sector : ℕ) (c : Ctx)
      → Settled (λ x t. Unit {0}) (read_sector_serial b g sector c)
  unfolding read_sector_serial viewed_serial
  serial-Settled g sector c =
      either (ltb sector g.index_sectors || leb g.sector_count sector) _
        (sector_reader_view-Answers b g footer_reader sector _ footer_size c)
    where
      either :
          (out : Bool) (x : Read b g)
          → Answers b g x
          → Settled (λ x t. Unit {0}) (if out then (err corrupt, c) else viewed_serial b g x)
      either true x h = tt
      either false (ok bytes, reader, c') h = footer_serial-Settled _ c'
      either false (err e, reader, c') h = h.ends

  noted-IsOver :
      (fs : Fs Ctx)
      → HasBuffers fs
      → (r : Result ℕ × Ctx) → Settled (λ a c. Unit {0}) r
      → IsOver (noted_serial (r.0, record fs { ctx = r.1 }))
  unfolding noted_serial passed_over
  noted-IsOver fs h (ok serial, c) k = h
  noted-IsOver fs h (err e, c) k = kept e k
    where
      kept : (e : Error) → Ends e → IsOver (passed_over tt e, record fs { ctx = c })
      kept invalid k = h
      kept nomem k = h
      kept range k = h
      kept no_space k = h
      kept not_found k = h
      kept exists k = h
      kept name_too_long k = h
      kept corrupt k = h
      kept io k = h
      kept hang k = absurd k

  note_serial-Stops : (sector : ℕ) → Stops (note_serial b sector)
  unfolding note_serial on_flash
  note_serial-Stops sector = record {
    at = λ fs h.
        noted-IsOver fs h (read_sector_serial b (geometry fs) sector fs.ctx)
          (serial-Settled (geometry fs) sector fs.ctx);
  }

  recover_from-Stops : (left sector : ℕ) → Stops (recover_from b left sector)
  unfolding recover_from
  recover_from-Stops zero sector = Stops-pure tt
  recover_from-Stops (suc left) sector =
      search (stops_rules, note_serial-Stops, recover_from-Stops left) depth 14

  recover-Stops : (head : ℕ) → Stops (recover_allocator_hint b head)
  unfolding recover_allocator_hint
  recover-Stops head =
      Stops-bind _ _ (Stops-modify _ (λ fs h. h))
        (λ _. recover_from-Stops (alloc_recovery_lookahead + 1) head)

  sector-Stops : (sector tail : ℕ) → Stops (replay_sector b sector tail)
  unfolding replay_sector
  sector-Stops sector tail = record {
    at = λ fs h.
        (chunks-Stops b (fs.sector_size + 1) (sector == fs.active_index_sector)
            (sector * fs.sector_size + header_size) ((sector + 1) * fs.sector_size) tail
            (inside sector fs.sector_size h.1) (enough sector fs.sector_size)).at
          fs h;
  }
    where
      inside : (sector size : ℕ) → 10 ≤ size → sector * size + 8 ≤ (sector + 1) * size
      inside sector size h = grind arith

      enough : (sector size : ℕ) → (sector + 1) * size < sector * size + 8 + (size + 1)
      enough sector size = grind arith

  sectors-Stops : (left sector tail : ℕ) → Stops (sectors_from b left sector tail)
  unfolding sectors_from
  sectors-Stops zero sector tail = Stops-pure tail
  sectors-Stops (suc left) sector tail =
      Stops-bind _ _ (sector-Stops sector tail)
        (λ tail'. Stops-bind _ _ (Stops-gets _) (λ next. sectors-Stops left next tail'))

  begin-Stops : Stops {Ctx = Ctx} (
      modify (λ fs. record fs {
        next_index_offset = fs.active_index_sector * fs.sector_size + header_size;
      }))
  begin-Stops = Stops-modify _ (λ fs h. h)

  replay-Stops : Stops (replay_index b)
  unfolding replay_index
  replay-Stops = search (stops_rules, begin-Stops, sectors-Stops, recover-Stops) depth 14

  tombstone-Stops : (sector : ℕ) → Stops (tombstone_index_sector b sector)
  unfolding tombstone_index_sector
  tombstone-Stops sector = record {
    at = λ fs h.
        (Stops-on_flash _ (program_aligned-IsDone b (sector * fs.sector_size + 7) _)).at fs h;
  }

  oldest_finish-Stops : (sector : ℕ) → Stops (index_compact_oldest_finish b sector)
  unfolding index_compact_oldest_finish
  oldest_finish-Stops sector =
      Stops-bind _ _ (tombstone-Stops sector) (λ _. Stops-modify _ (λ fs h. h))

  finish-Stops : Stops (index_finish_interrupted_compaction b)
  unfolding index_finish_interrupted_compaction
  finish-Stops = search (stops_rules, oldest_finish-Stops) depth 10

  init-Stops : Stops {Ctx = Ctx} alloc_map_mount_init
  unfolding alloc_map_mount_init initialized map_mount_init
  init-Stops = record { at = λ fs h. either fs h (map_config_valid fs.sector_count fs.alloc_map) _ }
    where
      either :
          (fs : Fs Ctx)
          → HasBuffers fs
          → (valid : Bool) (words : List ℕ)
          → IsOver (initialized (if valid then ok words else err invalid) fs)
      either fs h true words = h
      either fs h false words = tt

  -- The steps of a mount.
  pub steps-Stops : Stops (mount_steps b)
  unfolding mount_steps
  steps-Stops = Stops-bind _ _ finish-Stops (λ _. Stops-bind _ _ init-Stops (λ _. replay-Stops))
