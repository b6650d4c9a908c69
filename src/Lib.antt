-- ===== src/Lib.antt =====
-- Verification of programs of the CS61 problem sets.
--
-- Parts and files. `Common` holds the shared names, list functions over the native numbers and
-- the option monad, in which `none` is a failed assertion or an access that C leaves undefined.
--
-- - pset5/dispatch/queue.c: `Dispatch/Queue` is the ring of 16 slots with its 32-bit indices, with
--   `queue_init`, `push_back`, `pop_front`, `size` and `empty`; `Dispatch/Queue/Order` is its
--   abstract view, the payloads in order.
-- - pset5/dispatch/dispatch.c: `Dispatch/World` is the dispatcher thread and the drivers. One
--   function is what a thread does under the lock up to its next wait or unlock, and `Step` lets
--   the threads take such sections in any order, with the wake-ups of the condition variables and
--   spurious ones. `Dispatch/World/Conserve`, `Section` and `Invariant` carry the invariant of
--   all runs, `Rides` and `Progress` the theorems.
-- - pset3/io61.c: `Io61` is an `io61_file` with its twelve slots, `Io61/Writing` has `io61_writec`,
--   `io61_write`, `io61_flush` and `io61_close`, and `Io61/Reading` has `io61_readc`, `io61_read`
--   and `io61_seek`. `Output`, `Stream`, `Blocks` and `Whole` are about files that are written;
--   `Slots`, `Input`, `Readc` and `Seek` about regular files that are read through their mapping.
-- - pset3/cat61.c and pset3/reverse61.c: `Io61/Programs`, the copying loops over two such files.
-- - pset6: `Kernel/Paging` is `virtual_memory_map` and `virtual_memory_lookup` of k-hardware.c over
--   page tables in a memory of words, `Kernel/Pages` the array `pageinfo` of kernel.c, and
--   `Kernel/Process` its processes, with `fork`, `sys_exit`, page allocation and `schedule`.
-- - pset6/lib.c: `Memory` has the memory and string functions over a memory of bytes;
--   `Memory/Move` and `Memory/Strings` are about them.
-- - pset6/kernel.c: `Kernel/Exceptions` is `exception` with `run`, on top of them; `Switching` shows
--   which process runs afterwards, from `Turns` about `schedule`. `Kernel/Checks` has the assertions
--   of `virtual_memory_check`, and those of `set_pagetable` of k-hardware.c.
-- - pset6/lib.c: `Printing` is `printer_vprintf`, for any printer, with `fill_numbuf` in
--   `Printing/Digits` and the reading of a conversion in `Printing/Format`. `Printing/Buffer`
--   is the printer into a buffer with `vsnprintf`, `Printing/Console` the one onto the console.
--   `Numbuf`, `Padding` and `Numbers` are about what is printed, `Fuel` about the loop, and `Feed`
--   shows that every printer is handed the same characters.
-- - pset4/helpers.c: `Shell/Token` has `parse_shell_token` on the characters before the zero byte;
--   `Shell/Token/Progress` and `Shell/Token/Parse` show how far its pointer moves.
-- - pset4/sh61.c: `Shell/Commands` has the structures of a command line and `Shell/Lists` the first
--   half of `eval_line`, which builds them from the tokens. `Shell/Lists/Grammar` is a grammar of
--   command lines with what they mean; `Items`, `Chains`, `Reading` and `Tokens` are the proofs.
-- - pset4/sh61.c: `Shell/Starting` is the start of one command, `handle_rd` and `start_command`, and
--   `Shell/Running` the execution of the lists on top of it, `run_list` and the second half of
--   `eval_line`. `Skipping` is about the conditionals that run,
--   `Redirects`, `Opening`, `Ends` and `Descriptors` about the descriptors of a child, `Rounds`,
--   `Piping` and `Pipes` about those of the shell, and `Lines` puts the reading of a line and its
--   execution together.
-- - pset5/ubler: `Ubler` has the meals, customers and restaurants, `Ubler/Requests` what
--   ubler_helpers.c does with them (`init_requests`, `mix_up_meals`, `receive_request`,
--   `record_stats`), with `Receive` and `Pairs` about it. `Ubler/Drivers` is `driver_thread` of
--   ubler.c, cut into sections that interleave as those of `Dispatch/World` do, and the set-up in
--   `create_and_run_requests`. A delivery is two sections, one for each of its two increments,
--   since it holds no lock; `Invariant`, `Sections`, `Delivery`, `Steps` and `Start` carry the
--   invariant of all runs to the theorems of `Once`.
-- - pset1/m61.c: `Allocator` has the headers and footers by their address, the list of the active
--   headers, the statistics, `m61_malloc` and `m61_free`; `Resizing` adds `m61_realloc` and
--   `m61_calloc`. A read where there is no memory is a fault. `Invariant` says what a heap in order
--   is; `Pushing`, `Taking`, `Freeing`, `Unlinking`, `Releasing` and `Again` show what becomes of it.
--
-- The system. A file descriptor is the list of the calls of `write` and `lseek` made on it, and
-- what `read` will deliver. What `lseek`, `fstat` and `mmap` return is an argument. A write of the
-- system takes all bytes it is given, since the source does not look at the result.
-- For the shell the system is a parameter with a state of its own: what `open`, `pipe`, `fork`,
-- `waitpid` and `chdir` give, and which descriptors are given out. The descriptor table is modelled.
-- A child is what `fork` is handed, and an `execvp` that is reached succeeds.
--
-- Bounds and fuel. The programs are built for 32 bits: a `size_t` and an `int` wrap at 2 ^ 32,
-- written out where the source subtracts. A file is at most as long as an `int` can say, as
-- `filesize` is one; `cache_count` does not wrap. `io61_readc` and `io61_writec` call themselves
-- at most once, since the slot is then fresh, so their depth is 2. The loops of `io61_read` and
-- `io61_write` have the length of the block and three more as fuel, which is enough for the
-- blocks of the results. `schedule` is followed for the 16 rounds in which it sees every slot;
-- without a runnable process it spins. The memory of the kernel is words of 32 bits at aligned
-- addresses, and `pageinfo` has fields of 8 bits. The loops of lib.c over a string run on fuel;
-- one more than the string's length is enough. The loop of `printer_vprintf` has the length of
-- the format as fuel, and the digits of a number the 23 bytes of `numbuf` before the zero byte. A
-- width that the format writes out is not reduced modulo 2 ^ 32. The loop of a word in the
-- tokenizer has a round for each character left.
--
-- The tokens of a command line are read with one call more than it has characters.
-- `receive_request` goes through the requests at most twice. The random numbers of pset5/ubler are
-- sequences, one for each loop that draws them. `find_meta` only chooses a message, or faults; its
-- fuel is the number of headers that it looks at.
--
-- Not modelled: the other parts of the problem sets, that is the hash function and the reports of
-- the allocator (pset1), the bomb (pset2), process groups and the freeing of the command lists
-- (pset4), uber-pi and the cleanup of ubler (pset5), and of pset6 the loader, process_setup, the
-- devices and the pictures of memory; option parsing and the opening of files.
pub mod Common
pub mod Dispatch
pub mod Io61
pub mod Kernel
pub mod Memory
pub mod Shell
pub mod Ubler
pub mod Allocator
pub mod Printing
