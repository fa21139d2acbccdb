-- ===== src/Lib.antt =====
-- The C code of RVComp, a RISC-V system that boots Linux: the two Linux drivers of its own devices,
-- the program in its boot ROM, and what its test programs and benchmarks run on: a supervisor with
-- virtual memory, string functions and formatted output.
--
-- The parts and how they interact:
-- - buildroot/package/rvcomp-ethernet/src/rvcomp_ethernet.c, the network driver, shares two rings of
--   32-bit words and their start and end registers with the Ethernet device. It puts frames into the
--   transmit ring, takes packets out of the receive ring, and is called by the kernel.
-- - buildroot/package/rvcomp-mmc/src/rvcomp_mmc.c, the block driver, moves sectors between the main
--   memory and a microSD card, of which the controller shows one 4 KiB page in a window. It keeps
--   the number of the page shown.
-- - bootrom/src brings the program image into the main memory, from the card through the same window
--   or over the serial line, prints on the serial port, and has a small Ethernet routine with the
--   driver's record format.
-- - prog/riscv-tests/env/v/vm.c runs a test program under virtual memory: it maps a page when the
--   program faults on it, copying the page's contents out of the image, and compares and writes back
--   every page at the end, with the memory functions of string.c beside it. The program's own accesses
--   go through the page-table walk of src/mmu/ptw.v, which is what calls its trap handler.
-- - prog/coremark/riscv/ee_printf.c formats what the CoreMark benchmark prints, and core_portme.c
--   reads its clock.
-- - prog/rvtest is a program without an operating system, which prints the length of a packet.
--
-- Which file models which part:
-- - NetDriver/State: struct rvcomp_eth with what its pointers lead to (Eth), rvcomp_csr_read,
--   rvcomp_csr_write. NetDriver/Tx: rvcomp_tx_enqueue_one (tx_enqueue_one, with its loops fill and
--   gather), rvcomp_start_xmit, rvcomp_tx_reclaim, rvcomp_kick_rx_if_pending, rvcomp_rx_watchdog.
--   NetDriver/Rx: rvcomp_rx_one, rvcomp_napi_poll, rvcomp_irq_handler. NetDriver/Lifecycle:
--   rvcomp_open (open_dev), rvcomp_stop (stop_dev), rvcomp_validate_buf_size, rvcomp_probe,
--   rvcomp_remove. The modules below these hold the proofs: Tx/Fill and Tx/Ring on the ring writes,
--   Tx/Queue on the ring as a queue of frames (the abstract view), Tx/Enqueue and Tx/Xmit on the
--   operations, Tx/Fifo on interleavings with the transmitter, which may give a frame up, Rx/Copy,
--   Rx/Packet and Rx/Poll.
-- - BlockDriver: struct rvcomp_mmc (Mmc), mmc_wait_flush_done, mmc_flush, mmc_select_addr29,
--   mmc_window_ptr, rvcomp_mmc_queue_rq (queue_rq, with its loops copy_segments and copy_segment).
--   BlockDriver/Platform: rvcomp_mmc_probe, rvcomp_mmc_remove, rvcomp_mmc_shutdown.
--   BlockDriver/Transfer, Segment, Request, Storage, Ending and Flushing hold the proofs.
-- - Bootrom/Loader: mmc_copy_to_dram and the part of bootloader that calls it, mmc_csr_write,
--   mmc_csr_read. Bootrom/Boot: bootloader as a whole, in both builds, with the machine noted at
--   each message (Boot/Loading has the proofs). Bootrom/Uart: uart_putc, uart_getc, uart_puts,
--   printIntAsHex. Bootrom/Ether: ether_tx_enqueue_one; Ether/Transfer: ether_tx and ether_rx.
--   Loader/Image, Uart/Printing, Ether/Record, Ether/Sending and Ether/Receive hold the proofs.
-- - Strings: memcpy, memset, memcmp, strcpy, strcmp, strlen and atol of string.c, with the proofs in
--   Strings/Copying, Setting, Comparing and Number.
-- - Paging: the variables of vm.c (Vm, with its nodes and pointers as Node and Link), vm_boot from
--   the free list on, handle_fault (with map_page, the part for a page without an entry), evict
--   (with write_back and free_last), handle_trap and printhex. Paging/Console: do_tohost,
--   cputchar, cputstring, terminate, wtf and the output of printhex. Paging/Torture: lfsr63 and
--   coherence_torture. Paging/Tables: the page tables and satp of vm_boot, pa2kva and uva2kva, and
--   the walk of src/mmu/ptw.v through both levels. Paging/Setup: vm_boot as a whole, with its
--   registers. Paging/Walk: what that walk refuses at the last level, and programs under it and on
--   a flat memory (Program, paged_run, flat_run), the abstract view of the whole. Paging/Pages is
--   on the free list, Paging/Invariant on what holds between faults, Fault, Mapping and Access on
--   one fault, Reached on sequences of faults (a step relation), Back and Evict on evictions;
--   Served, Attempt, Refine and Run carry the flat view through faults, accesses and runs, Finish
--   and Whole to the end of a test; Hex and Console/Text are on printhex.
-- - Printf: the flags, skip_atoi and number of ee_printf.c. Printf/Format: eaddr, iaddr and the
--   reading of a directive. Printf/Print: the conversions, the loop of ee_vsprintf (format) and
--   ee_printf. Digits and Number are on numbers, Length and Loop on the loop, Spec has formats as
--   lists of literals and directives, Parse and RoundTrip are on reading them back, Address and
--   Conversion on single conversions.
--   Printf/Float: decimal_point and cropzeros, with Float/Point and Float/Crop.
-- - Portme: the clock of core_portme.c.
-- - Baremetal: main.c and io.h of prog/rvtest, with the proofs in Baremetal/Numbers.
-- - Base has the Boolean tests, lists, machine words, signed integers and memories, Bits the bit
--   masks as arithmetic, and each part's Tests the concrete states.
--
-- The kernel is not modelled: a call of it is an entry of a log, newest first, and what it answers
-- is an argument. What the devices do is an argument as well, or, for the transmitter of
-- src/ether/ether_tx_rmii.v, the page-table walk of src/mmu/ptw.v and the card's window, written
-- out where it is used. An address space is a function from addresses; the two rings hold words by
-- byte offset, the card and the memory of the block driver hold bytes, those of the boot loader
-- words, or bytes where it receives the image over the serial line. Errors are the positive
-- numbers whose negation the code returns.
--
-- Bounds and fuel: arithmetic is modulo 2^32 or 2^64 as in the code. Buffer sizes are powers of two
-- from 2 KiB to 64 MiB, which rvcomp_validate_buf_size checks, and places on the card are below
-- 2 TiB, all that 29 bits of page number reach. Each loop runs on fuel that its caller gives: the
-- payload length for the record loop, the packet length for the receive copy, the budget for the
-- poll, the segment length for the transfer, the image size for the loader, the length for memcpy and
-- memset; each round moves at least one byte, word or packet, so that this is enough. The waits of the
-- serial port and for the host, and the search for the end of a string, run on fuel that their
-- statements have a hypothesis on, and a flush has the driver's own limit. An access of a test's
-- program is tried four times: a page that is brought in, a flag for its access and one for its
-- change are three faults. uart_put_num has fuel for its buffer's 256 characters, and an int has at
-- most 31 digits.
--
-- The page table is that of Sv32, the choice for 32 bits, and its entries are words; the frame that
-- the hardware takes from an entry is a parameter, with the position of the page number in an entry as
-- its hypothesis. A test's own hooks are parameters, and those of riscv_test.h answer 0. Arguments of
-- a variadic call are a list; a missing one, or one of another kind, makes the call fail, as does a
-- text that runs over the 1024 characters of ee_printf's buffer. A signed int is an integer.
--
-- Not modelled: locks are entries of the log, and operations run one at a time, whole; in vm.c the
-- trap entry and exit in assembly (entry.S, pop_tf), the TLB and its flushes, the swap of mtvec
-- around the PMP registers, and the builds for 64 bits; the digits of floating point numbers
-- (cvt.c, parse_float and flt; HAS_FLOAT is 0) and time_in_secs, whose type is CoreMark's own; the
-- constants and assembly taken over from riscv-tests; the hardware in Verilog but for the page-table
-- walk, the build and the host tools.
pub mod Base
pub mod Baremetal
pub mod Bits
pub mod NetDriver
pub mod BlockDriver
pub mod Bootrom
pub mod Strings
pub mod Printf
pub mod Portme
pub mod Paging
