-- ===== src/Lib.antt =====
-- WiiBridge serves a library of Wii and GameCube images as one synthetic USB disk: the Host daemon
-- builds a FAT32 disk that exists only as metadata and extents, an NBD server hands it to the Pi
-- over TLS, and an export manager decides which disk a session gets. The files follow that path.
--
-- ExportProfile: server/host-daemon/exportprofile/manager.go. `Manager` is the state behind the
-- mutex; `begin_session`, `release`, `mark_connected`, `disconnect`, `select` and `recover` are
-- its methods, with the answers of a profile's callbacks as arguments. ExportProfile/System is
-- the manager with the release callbacks that it handed out, under any sequence of calls.
-- Nbd: server/nbd-plugin/nbd.go. Nbd/Negotiation is `handle` up to `transmission`: `greet`, then
-- `negotiate`, whose rounds are `option_step`. Nbd/Transmission is `transmission`, whose rounds
-- are `serve_request`. A connection is its unread input, its output and the bytes that it still
-- takes; the backend is a record of functions on a state of any type, as the export manager
-- hands it out.
-- Vdisk: server/host-daemon/vdisk/vdisk.go. Vdisk/Geometry is `selectDiskGeometry`, Vdisk/Fat is
-- `fatValue` and `fillFATSector`, Vdisk/Read is `ReadAt`, with file access and source verification
-- in the record `Files`. Vdisk/Build is the part of `Build` that cuts games into segments and
-- allocates chains and extents, and Vdisk/Sectors the sectors that `mbr`, `bootSector` and `fsInfo`
-- write.
-- SaveOverlay: server/host-daemon/gamecube/saveoverlay.go, the memory cards of GameCube games.
-- SaveOverlay/Blocks has the block loops of `ReadSaveAt` and `WriteSaveAt`, SaveOverlay/Journal
-- `appendJournal` and `loadJournal`, SaveOverlay/Store a card's writes, checkpoints (`flushCard`)
-- and recovery (`openObject`), SaveOverlay/Cards the methods of `SaveStore` on all cards. A file
-- is its bytes; what the operating system refuses (`Io`, `Ending`, `Faults`) and SHA-256, of which
-- only the length of its result is used, are arguments.
-- Fat32: server/host-daemon/fat32virtual/backend.go, the GameCube volume. Fat32/Backend has the
-- lookups and `WriteAt` over any save store that keeps the laws of Fat32/Backend/Contract, and
-- Fat32/CardStore shows that the memory cards keep them; Fat32/Handles is the cache of open files
-- with `verifyIdentity`, Fat32/Reader is `ReadAt`, Fat32/Validate is `validateRanges` of layout.go,
-- on signed 64-bit numbers; that each table is in order, which it does not check, is an assumption
-- of the lookups. What the operating system answers is the record `Os`.
-- Compat: shared/compat/compat.go, which decides whether the Host may run an operation on the
-- connected firmware: `validate` of a descriptor, and in Compat/Evaluation `evaluate`.
-- SourceHealth: shared/sourcehealth/sourcehealth.go, the record that the Host keeps of each source
-- root. SourceHealth/Preflight is `Preflight` on the answers of the operating system (`Probe`).
-- Cache: pi/controller/cache/cache.go, the Pi's least-recently-used cache of blocks: the map and
-- the list, whose elements have an identity.
-- Common: lists, comparisons, sort.Search, the byte order of integers.
--
-- Integers are natural numbers. uint32 arithmetic of the FAT wraps at 2 ^ 32 as written (`u32`);
-- int64 values that the code keeps below 2 ^ 63 are not wrapped; `validateRanges`, which gets them
-- unchecked, has int64 values with their sign, and its sums and differences wrap at 2 ^ 64. Loops
-- run on fuel: the request loop and the option loop take bytes from the connection in each round,
-- so fuel above the length of the input is enough, and `readAtFull` and `ReadAt` advance in each
-- round, so one round more than there are bytes wanted is enough; so do the loops over a card's
-- blocks; a journal record has at least 52 bytes; an eviction removes an element in each round. A
-- loop that is still running gives `none`.
--
-- Not modelled: the directory sectors and names of the Wii disk, the layout of the GameCube volume,
-- the backups, uploads, metadata and directories of memory cards, scanning, persistence, HTTP
-- handlers, metrics, deadlines and buffer pools. crypto/tls enters as what the client sends inside TLS and whether
-- its handshake succeeds; the accept loop's concurrency enters as sequences of calls of the export
-- manager.
pub mod Cache
pub mod Common
pub mod Compat
pub mod ExportProfile
pub mod Fat32
pub mod Nbd
pub mod SaveOverlay
pub mod SourceHealth
pub mod Vdisk
