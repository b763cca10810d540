-- ===== src/Lib.antt =====
-- SwitchOS switches between running operating systems: on a wakeup from S3 its core stores the
-- memory to a disk, or exchanges it with a dump there. This library models the program's logic.
--
-- Base.antt: shared names. Base/Action.antt is the error protocol of shared/include/error.h: an
--   action takes a state to a result and a state; what was written before an error stays.
--   Base/Bytes.antt has memories as functions from byte addresses, `memcpy` and words; Base/Bits.antt
--   `|` and `&`; Base/Io.antt is shared/include/io.h, a log of writes with the hardware's answers to
--   reads as a parameter; Base/Keeps.antt has actions that keep a property of the state.
-- Pci.antt: shared/src/pci/: Search (loops that end at the first hit), Lookup (`lookup_pci_dev`), Bars
--   (configuration addresses and base address registers).
-- Core/Header.antt: shared/include/core/header.h, the header that the EFI application fills.
-- Core/Disk.antt: what core/dump.c uses of core/drivers/virtio/virtio_blk.c, as an interface, and
--   the contract of a driver and disk that work.
-- Core/Dump.antt: core/dump.c, one definition for each function and loop, and
--   `find_original_waking_vector` of core/acpi.c. Its child modules have the layout of the header
--   (Layout), the exchange (Switch, Areas, Exchange, Twice), storing and loading (Fill, Transfer,
--   StoreLoad, LoadBack, HeaderIo), and the header's validity (Valid). Ideal has the working disk
--   that the examples in Tests run on.
-- Core/Virtio.antt: the queue of core/drivers/virtio/virtio_queue.c, with its list of free descriptors
--   (FreeDescs). Blk is the requests and responses of virtio_blk.c: Chains and Sending (what a
--   request posts), Answering (what the device promises), Consuming (what becomes of the response),
--   Driver (the interface of Core/Disk.antt filled), Failing and Guards (errors), Ramdisk (a device
--   for the examples). Init is the initialisation of the queue (Linked, Started), Device that of the
--   device (Statuses, Handshake).
-- Core/Main.antt: core/core.c and the other functions of core/acpi.c over a record of uACPI's calls.
--   Store has the store action and an invalid core header; Switch has the switch to a dump that is
--   there, and with no dump on the disk.
-- Core/Alloc.antt: core/alloc.c, with the free lists in the blocks' memory: Blocks (where blocks
--   lie), FreeList (the lists as sequences), Operations (`core_malloc`), Freeing (`core_free`),
--   Init and Ready (`core_init_allocators`), Adjacent (buffers that touch).
-- Uefi/RamAreas.antt: the part of uefi/core_header_utils.c that makes the table of RAM areas from
--   the firmware's memory map: Insert and Covers (what an insertion does), Kept (what it keeps and
--   loses), Fill and Firmware (the loop over a map, and `fill_ram_areas`).
-- Uefi/Acpi.antt: uefi/acpi/ with its patch/. Checksum is patch_utils.c, PkgLength is pkg_length.c with its
--   Encoding, Building and Errors, Dsdt is dsdt.c: Append (the new table), Redirect (the FADT),
--   Grown (the whole), and Method is method.c, with Finding (what it finds) and Rename
--   (what it changes).
--   HookPts is hook_pts.c: Parts (a DSDT with both parts of a hook), Created (a `_PTS` of its own). Find
--   is tables.c: Located (the two loops), Whole (the search).
-- Uefi/SetVariable.antt: uefi/services/hooks/set_variable/, the hook that takes commands of the running
--   kernel and leads its wakeup to core. Vector has what calls do to the action and the vectors.
-- Uefi/CoreLoader.antt: uefi/core_loader.c, which puts the images of core in memory: Loaded.
--
-- The EFI application fills the core header that core reads after a wakeup: the table that
-- Uefi/RamAreas.antt makes is `ram_areas` of Core/Header.antt, which the dump goes over.
--
-- Addresses, sizes and sectors are natural numbers, with the wrap-around of `size_t` and
-- `uint32_t` written where the source computes. Addresses of locals and static buffers are
-- parameters. An access outside an array is the result `fault`. The loop of `switch_memory_area`
-- runs on fuel, one round for each 8 MiB of the area and two more; the theorems on it show that
-- this is enough. The loop of `desc_loop` has a round for each byte of the map, and that of
-- `build_loop` one more than the encoding has bytes. Boot services are records of functions over a
-- world of their own, with what UEFI promises of them as hypotheses. `chain_loop` has a round for
-- each block and one more. The buffers of the allocators lie where a parameter says;
-- they share no byte and may touch, so a free list may also hold blocks of a later allocator that
-- `core_free` put there.
--
-- The parts of a virtqueue are kept in a record of their own, apart from the blocks of memory that
-- `core_calloc` gave for them. The device acts when it is notified and each time the driver polls the
-- used ring; the number of polls is the fuel of `wait_loop`, and a device that promises an answer
-- promises it within a number of polls. The loop of `caps_loop` has a round for each capability,
-- and `scan_loop` of Uefi/Acpi/Find.antt one for each byte behind the table's header and one more.
--
-- Not modelled: trace output, the hardware behind ports and registers, the assembly, the calls of uACPI and of
-- the firmware, and cli/lib/argtable, another project's library.
pub mod Base
pub mod Core
pub mod Pci
pub mod Uefi
