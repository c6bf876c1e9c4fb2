-- ===== src/Lib.antt =====
-- A model of FASTFFS, a file system for NOR flash: the layers below its files, with the mount, the
-- resolution of names and the directory.
--
-- A FASTFFS volume is a row of sectors. The first few hold a circular journal of index records,
-- which map name slots to sectors; the others hold data, each with a footer and metadata records.
-- All access to the flash goes through a backend of the caller, in units of its program granule,
-- and programming can only clear bits, so that every commit is one byte that is programmed last.
-- A mount looks for the newest run of index sectors, replays it into a cache, and keeps a bitmap
-- of the sectors that may be in use.
--
-- Which file models what:
--   Status       `enum fffs_status` of include/fastffs/fastffs.h, and the monad of code on a state
--   Bytes        the little-endian loads and stores of src/fffs_internal.h
--   Lifecycle    src/fffs_bitmirror.h and the lifecycle pairs of src/fffs_internal.h
--   Slot         `fffs_hash16`, `fffs_normalize_slot_base`, `fffs_next_slot` of src/fffs_index_log.c
--   Flash        src/fffs_flash.c; `Backend` is `struct fffs_backend`
--   IndexHeader  the index sector header of src/fffs_index_log.c
--   Discovery    `fffs_find_index_sequence` of src/fffs_index_log.c and its helpers
--   HashIndex    src/fffs_hashtable_index.c, the default cache of the index
--   AllocMap     src/fffs_alloc_map.c and src/fffs_bitset.c, the bitmap of the data sectors
--   Sector       src/fffs_sector.c and src/fffs_sector_reader.c, the footer of a data sector
--   Fs           `struct fffs` of include/fastffs/fastffs.h, and calls that touch the flash alone
--   Journal      append, rotation, compaction and replay of the index records,
--                src/fffs_index_log.c
--   RamIndex     src/fffs_ram_index.c, the cache with one head for every slot
--   Format       `fffs_format` of src/fastffs.c
--   Mount        `fffs_mount` of src/fastffs.c, and `fffs_alloc_map_mount_init` on the volume
--   Files        what the other parts ask of the open files, src/fffs_file.c, and the reservations
--                of open writers, src/fffs_alloc.c
--   Names        `fffs_index_resolve` and `fffs_index_dir_read` of src/fffs_hashtable_index.c, and
--                `fffs_stat`, `fffs_exists`, `fffs_list` and the calls on a directory, src/fastffs.c
--   FsInfo       the counters of committed files of src/fastffs.c
--   Alloc        the order of the data sectors, the compaction reserve and `alloc_sector_once` of
--                src/fffs_alloc.c
--   Metadata     the metadata records of src/fffs_file_md.c, and `fffs_flash_span_is_erased` of
--                src/fffs_alloc.c
-- Triple and Settled have what an action leads to, with one rule for each way to build it: Triple
-- with a predicate for success and one for failure, Settled with the end of the call.
-- Prelude and Bits are helpers, and Tests has concrete runs.
--
-- A function that changes a structure takes it and returns the new one, and a function that calls
-- the backend takes its context and returns the new context with a result (`Action` of Status). A
-- pointer that the code checks for null is never null in the model. Numbers are unbounded, and
-- where the code wraps at the width of its type the model takes the remainder.
--
-- The backend is not part of the program: it is a record of three functions on a context of any
-- type. Flash.Nor states what NOR flash promises of them, for every answer that they give, and
-- `IsReliable` that the reads and programs which the interface allows do not fail, and
-- `ErasesSectors` that the erases of whole sectors do not; Flash.Ram is an instance.
--
-- Loops that C writes with `while` or `for` recurse on the rounds that are left. The rounds of
-- `program_chunks` are the bytes of the source, each of which programs one at least; the probes of
-- `find_from` are the buckets, as in C; and `shift_back` has fuel, whose end is the answer `none`:
-- one round for each bucket is enough where one bucket is empty. In Journal and Metadata a loop
-- without fuel answers the error `hang`, which is none of the codes. A walk over metadata records
-- falls by a record each round, so that a round for each byte of the sector is enough; the test
-- for erased bytes takes a byte at least each round, where its buffer is not empty.
--
-- Replay reads a sector in chunks of the scratch, which has 64 bytes at least after a mount, so that
-- a round for each byte of the sector is enough; a list of the directory takes a bucket at least
-- each round. The open files are a list beside the volume, and the file that an operation is for is
-- given by its place in it.
--
-- Not modelled: the commit of a metadata record in two steps, what the allocator tries beside its
-- search, opening, reading and writing files, delete, garbage collection, the cacheless index, and the
-- inspection, host and simulation code. The profiling hooks are not compiled by default and are
-- left out, and so is the counter that tells a reader that the scratch has changed.
pub mod Prelude
pub mod Bits
pub mod Status
pub mod Bytes
pub mod Lifecycle
pub mod Slot
pub mod Flash
pub mod IndexHeader
pub mod Discovery
pub mod HashIndex
pub mod AllocMap
pub mod Sector
pub mod Fs
pub mod Triple
pub mod Settled
pub mod RamIndex
pub mod Journal
pub mod FsInfo
pub mod Metadata
pub mod Mount
pub mod Format
pub mod Alloc
pub mod Files
pub mod Names
pub mod Tests
