-- ===== src/Lib.antt =====
-- Verification of libdvm, the disc and volume manager of the homebrew toolchains.
--
-- The program and its parts. A driver of a device implements the table `DvmDiscIface` of
-- `include/dvm.h` (read, write, flush, destroy) over a `DvmDisc`. `source/dvm_disc.c` counts the users
-- of a disc. `source/dvm_cache.c` puts a cache of pages in front of a disc and is a disc itself. The
-- prober, the registry of volumes and the file system drivers work on such discs.
--
-- The files.
--   * Base holds the numbers, tests, lists and the lemmas on pages of sectors (Base/Paging), on lists
--     without duplicates (Base/Members), on the test for a power of two (Base/Powers), and on masks and
--     fields of bits (Base/Bits).
--   * Disc is `include/dvm.h`: the table of operations, with the assignment to the size of a disc, which
--     a cache shares with its disc, and the contract `DiscLaws` of a disc, which is
--     what the code of a device has to keep. Disc/Memory is memory in units of a sector, Disc/Object
--     is `DvmDisc` with its counter of users (`dvmDiscAddUser`, `dvmDiscRemoveUser`), Disc/Wrap is the
--     disc that `dvmDiscCreate` of `source/dvm_disc.c` makes of a `DISC_INTERFACE` on a GameCube or a
--     Wii, Disc/Plain the one on other platforms, and Disc/Ram is a disc in memory that keeps the
--     contract, on which the definitions run.
--   * Cache is `source/dvm_cache.c`. Types is the state: an entry is an index and the linked list is
--     the list of the indices, the most recently used first. Search is `_dvmDiscCacheSearch`, Flush is
--     `_dvmDiscCacheEntryFlush` and `_dvmDiscCacheFlush`, Access and ReadWrite are
--     `_dvmDiscCacheReadWrite`, cut at its label and at its branches, and Create is
--     `dvmDiscCacheCreate` with the operations of the disc that it makes.
--   * The proofs about the cache: Order and Victim are about the list, Invariant is the coherence of
--     a cache with its inner disc and View the disc that a cache stands for. Pages, FlushFrame,
--     FlushEntry, Hit, Swap, Load, Replace, HitStep, MissStep, Gap and Direct are about what each step
--     does to that disc. Moved and LoopRule compose the rounds of the loop, Locate, DirectLoop, Settled
--     and CachedLoop are the two kinds of accesses, and Transfer, FlushAll and Created are the
--     operations as a whole.
--     Session is a client of a cache, a sequence of accesses and flushes, which Refined compares with
--     an array of sectors. Paged and Ends are about the end of the loop, whichever pages are cached.
--   * Prober is `source/dvm_prober.c`: Ident is `_dvmIdentMbrVbr` and Table `dvmReadPartitionTable`.
--     Scan is about what it reports, Stored about a table that is stored on the disc, by Populated, and
--     Keeps about the users of the disc.
--   * Volume is `source/dvm_volume.c` and what mounts the volumes of a disc: Drivers is
--     `dvmRegisterFsDriver`, Mount is `dvmMountPartition`, `dvmMountVolume` and `dvmUnmountVolume` over
--     a record of what they call of the drivers and of newlib, and Probe is `dvmProbeMountDisc` and
--     `dvmProbeMountDiscIface` of `source/dvm_prober.c`, `fatMount` of `source/fat_wrappers.c` and
--     `ext2Mount` of `source/ext2_wrappers.c`. Registry is about the table of drivers. Discs, Owner and
--     Probed are about the users of a disc and who destroys it, from laws of what is called, which
--     count users in 16 bits and by the address of the disc.
--   * Volume/Machine is the program put together: the state is the discs at their addresses, each a
--     wrapped device or a cache of one, and what is called is `dvmDiscCreate`, `dvmDiscCacheCreate`,
--     the destruction of the disc, and the mounts of `source/fat_driver.c` and `source/ext4_driver.c`
--     as they are modelled here. Machined is that it keeps the laws of Owner, Mounts is what the mounts
--     do with it, and Made and Counts are about how often `dvmDiscCreate` is called and `AddDevice`
--     accepts a volume. Keeps is about what the mounts leave alone.
--   * Nitro is `source/nitrofs.c`: Files and Dirs are the operations of the device, over a record of
--     what they call of the library that reads the ROM, and Init is `nitroFSInit`. Position is about
--     reads and seeks, Listing about directories.
--   * Fat is `source/fat_driver.c`, over records of what FatFs does: Errno is `_FAT_set_errno`, Mode the
--     flags of `_FAT_open_r`, Files the operations on open files, Truncate `_FAT_ftruncate_r`, Mount
--     the mounts, Medium what FatFs calls to reach the disc, Times the conversions of times, Info the
--     status of files and volumes, and Paths the operations on paths and directories. Seek, Window
--     and Listing are about `_FAT_seek_r`, the sectors of a volume, and directories.
--   * Ext4 is `source/ext4_driver.c`, over records of what lwext4 does: Device is the block device,
--     Mount the mounts, Files the operations on open files and Paths those on paths and directories.
--     WriteBack is about the delay of writes while files are open.
--   * Startup is what starts and stops the library on a platform, over records of what the libraries of
--     the platform do: Calico is `source/dvm_calico.c`, Ogc `source/dvm_libogc2.c`, Gba
--     `source/dvm_libgba.c`, and WorkingDir `_dvmSetAppWorkingDir` of `source/dvm_volume.c`. The discs of
--     a platform are each at a place of its state, from which the prober of Volume/Probe works. Touches
--     and Owner are about the discs of the DS, Linked about the drivers, Deinit about the end of the
--     library, and Counts about what `dvmInit` returns. OgcMachine and DsMachine are `dvmInit` on the
--     program put together, with a disc at its own address for each device.
--
-- Bounds. A sector number has 32 bits and the bounds of a dirty range have 16, written out where the
-- code stores them. The loop of `_dvmDiscCacheReadWrite` runs on fuel, as many rounds as there are
-- sectors: each round transfers one at least. The loop that calculates `page_shift` has 32 rounds,
-- enough for a page size of 32 bits. A sector is a list of bytes that is copied as a whole.
--
-- Not modelled: the locks and the debug output, allocations that fail, except for the buffer of the
-- ext4 driver, and the test of the alignment of a buffer, which is a parameter of an access. FatFs,
-- lwext4, the ROM library, newlib and the drivers of the devices are parameters, as records of their
-- operations, with what they promise as named laws. The tables of functions of the devices and
-- `_dvmCacheCopy`, which copies bytes, are glue. `_dvmIsVolume`, which compares addresses, is a part of
-- the lookup of a volume, which is a parameter.
pub mod Base
pub mod Disc
pub mod Cache
pub mod Prober
pub mod Volume
pub mod Nitro
pub mod Fat
pub mod Ext4
pub mod Startup
