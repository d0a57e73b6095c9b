-- ===== src/Lib.antt =====
-- The HyperBench kernel: a small kernel that measures what a hypervisor costs. It boots from
-- multiboot, makes a heap of the memory, starts the other processors, and runs a section of
-- benchmarks; the program on the host reads what it prints and takes the times.
--
-- The parts, the files that model them, and how state and operations correspond to the code:
--
--   Base      numbers, lists, integers and memories that the parts share. A memory is a function from
--             addresses to cells. Child Bits is on bits that do not overlap.
--   Str       lib/string.c. A pointer is a number, a buffer a part of a byte memory; a function that
--             writes returns the memory. Children: Strings (strlen, strcat, strcpy), Compare, Blocks
--             (memcpy, memmove), Search (strstr), Atol; Substrings, Match and Glob (simple_glob).
--   Printf    lib/printf.c. `struct pstream` is `PStream`, whose output is the list of the bytes
--             stored so far; `va_list` is the list of its 64-bit slots. Children: Reverse, Digits
--             (print_int), Unsigned and Words (print_unsigned), Stream (print_str), Literal; Streams,
--             Rounds and Truncate (vsnprintf with two sizes of the buffer); Items, Convert, Widths,
--             Conversion and Formats (vsnprintf on a list of plain bytes and conversions); Binary
--             (binstr).
--   Heap      x86_64/heap.c with include/page.h and include/multiboot.h. The static variables, cr3 and
--             the memory of 64-bit words are the record `Heap`. Children: FreeList, Alloc; for the page
--             tables Walk (the translation of the processor), Grow, Entry, Install, Descend, Mapping
--             (install_page), Identity (install_pages) and Setup (setup_mmu); Early (early_mem_init).
--   Vpages    alloc_vpages of x86_64/heap.c on several processors at once: `System` holds the lock,
--             vfree_top and where each processor stands. Children: Account, Race.
--   Mp        x86_64/mp.c (the tables), cpuid and mycpu of x86_64/proc.c, include/mp.h. `Smp` holds
--             cpus with ncpu as their length, ioapicid and lapic. Children: Search, Walk, Cpu.
--   Ipi       x86_64/mp.c (on_cpu, ipi, smp_init) and include/spinlock.h. `System` holds ipi_lock,
--             ipi_done, where each processor stands in on_cpu, the interrupts that were sent and not
--             taken, and where each interrupt handler stands. `Step` is one shared access of one
--             processor; the processors interleave freely. Children: Invariant, Served, Progress.
--   Console   x86_64/console.c. A write through the null pointer of slot_from_xy is `none`. Children:
--             Scroll, Put.
--   Desc      x86_64/desc.c and include/desc.h. The entry points are a parameter, a function from the
--             vector to an address. Children: Gate, Dispatch.
--   Apic      x86_64/apic.c and include/apic.h. Each write to a device is an entry of a log; what the
--             registers of a device read is given, by their addresses, since the device decides it, and the
--             reads of a busy register are a list. Children: Mode, Redir.
--   Host      host/host.c: the measurement, from the bytes that the kernel prints with the time at
--             which each is read, and the lines between. Children: Protocol, Header,
--             Table.
--   Harness   harness/harness.c without __BARE_METAL: the list of the bytes printed and the functions
--             called, in order. Child: Order.
--   Suite     benchmark/*.c: what the functions of each benchmark do to the machine, as lists of
--             operations. Children: Counts, Accesses.
--   Serial    x86_64/serial.c with USE_SERIAL. The readings of the status register are a list, and the
--             writes to the ports another; `abort` of lib/abort.c stands with `exit`. Child: Output.
--   Boot      x86_64/main.c: the calls into the other parts, in order. Child: Start.
--   Startup   x86_64/main.c (startothers, mpenter), mycpu of x86_64/proc.c and enable_x2apic of
--             x86_64/apic.c, run by all processors of the table at once. `System` holds where each stands,
--             the flags cpus[i].started, apic_ops and the mode of each local APIC. `Step` is one shared
--             access of one processor. Children: Invariant, Entries, Keeps, Ready, Progress.
--   Stack     lib/stack.c and include/stack.h, with the builtins of the compiler as parameters. Child:
--             Trace.
--   Tests     runs on concrete inputs.
--
-- Harness prints with the functions of Printf, which call strlen and atol of Str; Host sees nothing of
-- the kernel but the bytes printed, and Table reads the lines of Harness back. Startup finds a processor
-- with the search of Mp, and Vpages does on many processors what Heap does on one. Boot calls Heap, Apic,
-- Mp and Harness in turn; Suite calls the page tables and virtual pages of Heap. In both, these calls are
-- values.
--
-- Fuel. A loop over a string or a table that the code does not bound recurses on fuel, and `none` is
-- the fuel's end or a fault; the theorems ask for more fuel than the string or the table is long, and
-- then the result is some. The buffers of mpsearch1 are bounded, so its fuel is the constant 4097, one
-- more than the 4096 places of 16 bytes in 64 KB. print_int has 65 rounds, and a number below 2 ^ 64 has
-- at most 64 digits. Loops with a counter recurse on the rounds that are left. Pointers and unsigned words
-- wrap where the code can reach the end of their range (`add64`, `% 2 ^ 32`).
--
-- Page tables. The translation reads four tables, one for each level, and takes an entry whose bit 0 is
-- clear for missing; it does not read the bit of large pages, which install_large_page alone sets and
-- setup_mmu does not use. A run of pages takes at most three new tables for each block of 512 pages that
-- it begins, so setup_mmu asks for that many free pages and one for the root. The code does not test
-- whether a page was left.
--
-- Calls on other processors. The lock is taken in one step, as its atomic exchange is; a load or a store
-- of ipi_done, and the write that sends the interrupt, is a step each. A processor takes an interrupt only
-- while it is in no handler of it. That interrupts are enabled where a call is to be answered, and that a
-- sent interrupt arrives, is behaviour of the processors, which the step `deliver` stands for; the
-- argument cpu is within the table.
--
-- Start of the processors. A processor goes by its APIC id and is started when lapicstartap has sent it
-- the start-up interrupts: `start` puts it at the head of mpenter, and cstart.S in between is assembly.
-- That it runs on then is behaviour of the processors. lapic is set, as mpinit sets it before. In x2APIC
-- mode the registers are not in memory, so what lapicid then reads is an arbitrary function of the machine.
--
-- Integers. `added` of `struct pstream` is an int, whose overflow has no defined result; the model is that
-- of a text shorter than 2 ^ 31 bytes. In print_int the numbers are those of a long long, with `-n` wrapped
-- as the compiler's code does.
--
-- Not modelled: assembly (cstart.S, entryother.S, util.S), include/atomic.h,
-- print_serial without USE_SERIAL, the messages that the kernel prints on its way, the commands that
-- host/host.c runs. The locks around puts and console_puts are left out, as one call of each is modelled
-- at a time.
pub mod Base
pub mod Str
pub mod Printf
pub mod Heap
pub mod Mp
pub mod Console
pub mod Desc
pub mod Apic
pub mod Host
pub mod Harness
pub mod Suite
pub mod Serial
pub mod Boot
pub mod Ipi
pub mod Startup
pub mod Vpages
pub mod Stack
mod Tests
