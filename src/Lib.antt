-- ===== src/Lib.antt =====
-- JungeyOS: of the kernel the capabilities, processes, scheduler, timer, interrupts, channels, memory,
-- filesystem, updates, measured boot, audit log and key-value cache; of the programs the window manager
-- and the display server.
--
-- The parts and how they interact. A capability (kernel/src/cap.rs) names a kernel object and some
-- rights; every one ever minted is an entry of the ledger, with its parent. Processes
-- (kernel/src/proc.rs) hold capabilities in slots; `revoke` walks every slot and asks the ledger who
-- descends from the revoked one. Threads (kernel/src/sched/mod.rs) are a table that all cores share; a
-- core claims the thread that it runs, and gives the claim of the former one back only when its context
-- is saved. Channels (kernel/src/ipc.rs) queue messages and block and wake threads of that table.
-- Frames of memory (kernel/src/mm/frames.rs) come from a bump pointer that steps over reserved ranges,
-- and from a free list threaded through the freed frames. The page tables of a process
-- (kernel/src/mm/paging.rs) take their frames there, and the copies to and from a process
-- (kernel/src/mm/uaccess.rs) translate every page by them.
--
-- The audit log (kernel/src/audit.rs) is a chain of records in the sectors that the filesystem leaves
-- to it. The display server (user/src/gpudrv.rs) reads commands from the messages of several clients,
-- and paints the windows that it keeps for them (user/src/wm.rs).
--
-- The cache of key and value blocks (kernel/src/kv.rs) takes frames of memory, and writes blocks out to
-- the sectors that the filesystem reserves for it.
--
-- Files. Cap.antt is cap.rs: `Cap.Ledger` has its invariant, `Cap.Tree` the walks to the root.
-- Proc.antt is proc.rs: `Proc.Revoke` says what revocation does to each slot, `Proc.Killed` what it
-- reports. Sched.antt is sched/mod.rs and the `Cpu` of smp.rs: `Sched.Boot` is how threads and cores
-- come up, `Sched.Pick` is about `pick_next`, `Sched.Sleepers` about the survey, `Sched.Claims` and
-- `Sched.Exclusion` about several cores. Ipc.antt is ipc.rs: `Ipc.Fifo`, `Ipc.Counts` and `Ipc.Wakeup`
-- are about delivery, counters and blocking. Mm.antt is mm/mod.rs and Mm/Frames.antt is mm/frames.rs,
-- with `Mm.Frames.Reserved` about the loops over reserved ranges and `Mm.Frames.Inv` about ownership.
-- Mm/Heap.antt is mm/heap.rs, with `Mm.Heap.Free` about the free list and `Mm.Heap.Alloc` about what it
-- hands out. Mm/Source.antt is the interface to a frame allocator; `Mm.Frames.Supply` fills it with the
-- one of mm/frames.rs. Mm/Paging.antt is mm/paging.rs: `Mm.Paging.Tree` is about the places of tables,
-- `Mm.Paging.Grow` about `entry_for`, `Mm.Paging.Words` about one word that is written, `Mm.Paging.Map`
-- about what an address has after `map` and `unmap`, `Mm.Paging.Exclusive` about the bits of entries.
-- Mm/Uaccess.antt is mm/uaccess.rs, with `Mm.Uaccess.Bytes` about each byte. Disk.antt is
-- kernel/src/blk.rs, seen by its clients, and `Disk.Wire` the requests and replies on the channels of
-- ipc.rs, with `Disk.Replies`, `Disk.Own` and `Disk.Deadline` about whose reply is taken and when the
-- wait ends. Fs.antt, Fs/Codec.antt, Fs/Names.antt, Fs/Mount.antt and Fs/Log.antt are kernel/src/fs.rs;
-- `Fs.Layout` and `Fs.Roundtrip` are about the bytes, `Fs.Root`, `Fs.Crash` and `Fs.Consistent` about
-- what survives a write that stops anywhere, `Fs.Fresh` about `format` and `Fs.Contents` about reading
-- back. Sha256.antt and Sha256/Rounds.antt are kernel/src/sha256.rs; `Sha256.Stream`, `Sha256.Padding`,
-- `Sha256.Size` and `Sha256.Hex` are about updates in pieces, the padding, the length of a digest and
-- its digits; Measure.antt is kernel/src/measure.rs, which checks the image of the first program by
-- them. Ota.antt and Ota/Payload.antt are kernel/src/ota.rs; `Ota.Block` is about the control block,
-- `Ota.Boot` about boots on probation.
--
-- Audit.antt is audit.rs: `Audit.Record` is about the bytes of a record, `Audit.Chain`, `Audit.Append`
-- and `Audit.Sound` about what `verify` and `append` do to the chain, `Audit.Tamper` about changed
-- bytes. Fnv.antt is the hash of audit.rs and of kernel/src/model.rs. Wm.antt is user/src/wm.rs, with
-- `Wm.Topmost` and `Wm.Raise` about touches, `Wm.Paint` about the order of painting, `Wm.Stack` and
-- `Wm.Owners` about the table. Display.antt and Display/Pixels.antt are user/src/gpudrv.rs;
-- `Display.Pixels.Fill` and `Display.Pixels.Clip` are about drawing, `Display.Steps`,
-- `Display.Isolation`, `Display.Validity` and `Display.Ends` about one message of a client.
--
-- Kv.antt (eviction) and Kv/Ops.antt (what clients call) are kv.rs: `Kv.Worst` and `Kv.Choice` are
-- about the block that is evicted, `Kv.Count`, `Kv.Evict`, `Kv.Room`, `Kv.Keep` and `Kv.Read` about the
-- count of resident blocks, `Kv.Sectors` about a block that goes to the disk and comes back,
-- `Kv.Promise` and `Kv.Refines` about the sessions and their numbers of blocks, `Kv.Blocks`,
-- `Kv.Faithful`, `Kv.Bytes`, `Kv.Given`, `Kv.Added` and `Kv.Truth` about the bytes of the blocks,
-- `Kv.Settled` about blocks that are half written out, and `Kv.Fails` about reads that fail.
--
-- Irq.antt is kernel/src/irq.rs, with `Irq.Sequence` about what a driver learns; Time.antt is
-- kernel/src/time.rs and `tick` of sched/mod.rs, with `Time.Deadline` about when the timer fires.
--
-- How the code is modelled. A static behind a lock is an argument and a result of each function that
-- takes the lock, so a function is one step on the state; several threads or cores are sequences of
-- such steps in any order (`Step` and `Reach` in Ipc/Wakeup.antt and Sched/Exclusion.antt). A function
-- keeps the name that it has in the source. A pointer into a table is an index.
--
-- The block driver is a process outside the kernel: for the filesystem a device carries what becomes of
-- each request that is sent to it, and the theorems hold whatever that is; for the client itself
-- (`Disk.Wire`) the driver's steps come between two looks at the reply channel, and what it answers is
-- an argument. A sector is written whole or not at all, as the filesystem assumes too.
--
-- Bounds and fuel. Numbers are natural numbers; where the code rounds addresses by masks the words are
-- 64 bits and the lemmas state that nothing wraps. `climb` gets one more step than the ledger has
-- entries, `pad_zeros` 64, `handle` as many rounds as a message has bytes, `make_room` one more than
-- there are resident blocks, and `bump_one` one more than there are addresses up to the end of memory,
-- and the copies to and from a process as many rounds as there are bytes; each is shown to be enough.
--
-- The font of the display server, and which messages a client can be sent, are arguments.
--
-- Not modelled: registers, stacks and assembly, interrupt controllers, the device drivers and the
-- console, which are hardware; the flush of translations and the tables of the kernel itself; the
-- system call table, intents, models and tensor jobs, the ELF loader and the device tree, the
-- applications and drivers of user/src other than the display server, and the self tests of
-- kernel/src/main.rs.
mod Prelude
pub mod Cap
pub mod Proc
pub mod Sched
pub mod Ipc
pub mod Mm
pub mod Disk
pub mod Fs
pub mod Sha256
pub mod Ota
pub mod Fnv
pub mod Audit
pub mod Irq
pub mod Measure
pub mod Time
pub mod Wm
pub mod Display
pub mod Kv
