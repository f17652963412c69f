-- ===== src/Lib.antt =====
-- A model of the kernai kernel (kernel/src), a RISC-V kernel that runs untrusted payloads under
-- capabilities and reports what happens as events.
--
-- The parts, and the files that model them:
-- * physical memory, kernel/src/hal/boot.rs: Hal. RAM is a function from addresses to bytes; the
--   kernel reads and writes it only inside the pool window 0x80400000 to 0x88000000.
-- * the frame allocator, kernel/src/frames.rs: Frames (`Pool` is the RAM with the bitmap, the hint
--   and the counter), with Frames/Bitmap, Frames/Alloc and Frames/Count for its proofs.
-- * paging, kernel/src/mm.rs: Mm (page tables, translation, `copy_from_user`, `walk`) and Mm/Space
--   (`deep_copy`, `destroy`), with Mm/Access, Mm/Copy (and Mm/Copy/Total), and, for what
--   mapping does to the trees of tables, Mm/Entries, Mm/Tables, Mm/Grows, Mm/Maps, Mm/Translates and Mm/Isolates.
-- * the ELF loader, kernel/src/elf.rs: Elf, with Elf/Segments.
-- * traps, kernel/src/traps.rs: Traps/Ring (the rings, the counters, the digest) with
--   Traps/Ring/History, Traps/Frame (the register frame), Traps/Report and Traps/Fault (the texts of
--   the dumps and of the fault reports), and Traps/Handle (the handler) with Traps/Handle/Soundness.
-- * system calls, kernel/src/syscall.rs: Syscall, with Syscall/Soundness.
-- * the console, kernel/src/console.rs: Console, with Console/Buffer. Text holds what the code uses of
--   `str` and of `write!` (Text/Numbers, Text/Utf8), with the bounds of Text/Lengths.
-- * the control plane, kernel/src/rpc.rs: Rpc/Request (the frames, with Rpc/Request/Polls and
--   Rpc/Request/RoundTrip), Rpc/Json (the reader, with Rpc/Json/Escape and Rpc/Json/Numbers),
--   Rpc/Names, Rpc/Tools (with Rpc/Tools/Guards and Rpc/Tools/Repeats), Rpc/Dispatch (with
--   Rpc/Dispatch/Spares, Rpc/Dispatch/Answered, Rpc/Dispatch/Calls, Rpc/Dispatch/Serves and
--   Rpc/Dispatch/Dropped), Rpc/Answers (with
--   Rpc/Answers/Bounds), Rpc/Catalog, and Rpc/Ops (the idempotency window, with Rpc/Ops/Window).
-- * processes, kernel/src/payload.rs: Payload/Slot, Payload/Images, Payload/Table, Payload/Suites,
--   Payload/Checkpoint, Payload/Hooks (the syscalls' hooks, the deadline, the operator's tools),
--   Payload/Output (blit and the full frames, with Payload/Output/Bounds and Payload/Output/Drawings), Payload/Report (with
--   Payload/Report/Bounds), Payload/Preempt, Payload/Keys and Payload/Scheduler, with
--   Payload/Lineage, Payload/Attenuation, Payload/Grants, Payload/Kills, Payload/Soundness,
--   Payload/Soundness/Running, Payload/Soundness/Seeds, Payload/Soundness/Picks,
--   Payload/Soundness/Passes and Payload/Keys/Queue for the proofs.
-- * the boot and the idle loop, kernel/src/main.rs: Idle, with Idle/Soundness and Idle/Boot; Idle/Reachable is the whole
--   kernel as a transition system of idle rounds, scheduler passes and traps; the panic
--   handler: Idle/Panic, with Idle/Panic/Reports.
-- * the hart, kernel/src/hal: Hart is the registers, the CSRs and the instructions that the code names;
--   Hart/Vector the trap vector, `__kernai_trap` and `__resume_user` of hal/trap.rs, Hart/Interrupts
--   the wrappers of hal/csr.rs, Hart/Start the entry of hal/boot.rs. Hart/Stores, Hart/Saves,
--   Hart/Resumes and Hart/Continues are the proofs.
-- * Kernel is the state that they share: the process table, the snapshots, the pool, the rings, the
--   event counter and the log of events.
-- Base and Bits hold what all of them use; Tests evaluates the theorems at concrete inputs.
--
-- How the code is rendered:
-- * A static is a field of a record, and a function that changes statics takes and returns the
--   record. A function of the source has its name here; a loop or a block of it that is a function
--   of its own here says so in its comment.
-- * Words are native numbers. Sums that the source leaves unchecked, and the atomics' fetch_add,
--   wrap at 2^64 as in the release build that the Makefile makes. An isize errno -n is 2^64 - n.
-- * The ELF bytes of the images and the cargo features are made by the build; they are the record
--   `Build`. The clock is a function of how often it was read, and console input is the list of the
--   answers of the polls.
-- * Events are values in a log, newest first. The answers, the fault reports, the ring dump, the
--   drawings and the frames carry the text that goes out; the text of an output event is
--   `output_text`; the other events carry the fields of
--   their text, save the name of a payload's image where the pid stands for it. A function that writes a
--   text into a frame buffer is the text that it writes: Console/Buffer says what a buffer sends of it.
-- * A text is its bytes in UTF-8. The JSON reader's indices into a text are the text from there on.
-- * Assembly is a list of instructions for each block that a label ends, run by `exec`, whose `step`
--   says what the instruction set says of each; a forward jump passes over instructions. What a call
--   into Rust leaves behind in the registers and in the rest of the RAM is a parameter (`Callee`).
-- * The addresses of `scheduler_resume` and of the boot stack are the linker's (`Layout`). `scause`
--   and `stval` are arguments of the handler.
-- * Code that diverges in the source (`run`, `shutdown`, the deliberate crash) returns where it goes.
--
-- Bounds and fuel: the loop of `alloc` runs once for each of the frames of the pool, as in the
-- source. `copy_from_user` has as much fuel as it has bytes to read, and each round reads at least
-- one. `map_segment` has a round for each page that the segment can touch. `service_console` has
-- a round for each poll that can answer, and two more. The loops of the JSON reader have a round for
-- each byte of the text. A number is printed with at most 20 digits, or 16 in hexadecimal, which is
-- enough for a u64. The loop that clears the bss has a round for each word and one to leave it.
-- `run` is recursion on the number of passes and `idle` on the number of rounds, which the source
-- does not bound.
--
-- Not modelled: `trigger_illegal_instruction` and `wait_for_interrupt` of kernel/src/hal, which are
-- one instruction each, and the SBI calls that only put a byte on the line; the check at boot that
-- the linked image ends below the pool; timer interrupts that are taken while the kernel itself runs (they count a tick
-- and touch no payload); the payloads, which are inputs.
pub mod Base
pub mod Bits
pub mod Text
pub mod Console
pub mod Hal
pub mod Frames
pub mod Mm
pub mod Elf
pub mod Traps
pub mod Hart
pub mod Rpc
pub mod Kernel
pub mod Payload
pub mod Syscall
pub mod Idle
pub mod Tests
