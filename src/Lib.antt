-- ===== src/Lib.antt =====
-- Octiron: a RISC-V kernel.
--
-- The parts that are modelled, bottom up:
--
-- Base holds what the other modules share: Boolean tests on the native numbers, list lemmas, `Run` for
-- code that returns, reads through a null pointer (`fault`) or stops in an assertion or a loop without
-- end (`halt`), the bit operations and an integer type.
--
-- Number is kernel/include/types/number.h: alignment, the flips of byte order and the big-endian reads.
-- A w-bit integer is a number whose wrap-around is written out. Number/Align and Number/Endian hold the
-- laws.
--
-- Errors is kernel/include/types/error.h: the error codes, their texts, and the error stack in one u64
-- (`push`, `pop`, `top`, `is_ok`, `is_err`, `str`).
--
-- Words is memory as 8-byte words by address, for the code that keeps pointers and sizes in memory:
-- Slab, Pmm and Sv39. Bytes of a word are not told apart there.
--
-- Slab is kernel/include/allocators/slab.h: `grow`, `alloc`, `free` and `free_count` of
-- `slab_alloc<T>`, with the size and the alignment of T as parameters. The search for a region runs on
-- `m_total + 1` rounds: each region has a block at least, so a longer search is in a cycle. Slab/Free
-- has the invariant and `alloc`, Slab/Grow has `grow`.
--
-- Pmm is kernel/src/pmm.cpp with kernel/include/pmm.h: `initialize`, `add_region` and `remove_region`;
-- Pmm/Take is `alloc_aligned` with the functions on top of it, `free` and the counters. The file's
-- static variables are the record `Pmm`; `BLOCK_BUF` is an address. The loop over the regions is
-- recursion on the list; the body of the loop over the blocks of a region returns on every path, so
-- that loop is its first round. The manager calls the slab allocator for the blocks of its lists.
-- Pmm/Spec is what allocation promises, without block lists; Pmm/Invariant is the well-formedness of a
-- manager; Pmm/Scan, Pmm/Loop and Pmm/Alloc lead to the refinement, Pmm/Add and Pmm/Accept to
-- `add_region`.
--
-- Sv39 is kernel/include/riscv/sv39.h and kernel/src/riscv/sv39.cpp: table entries, `map_small_page`,
-- which asks the manager for pages, and `virt_to_phys`. A walk has the levels 2, 1 and 0, and is
-- recursion on the level. Sv39/Entry, Sv39/Walk and Sv39/Map hold the laws.
--
-- Csr is kernel/include/riscv/csr.h: the instruction texts. Memory is kernel/src/memory.cpp on memory
-- as bytes; `strlen` runs on fuel, and more fuel than the text is long is enough. View is
-- kernel/include/types/byte_view.h and str_view.h.
--
-- Printer is kernel/include/fmt/printer.h: what the printers send, as a list of characters; the digits of
-- a number are written with the places of the buffer, 65, as fuel.
--
-- Bump is kernel/src/allocators/bump.cpp with kernel/include/allocators/bump.h and the two higher-half
-- conversions of kernel/src/limine/platform_info.cpp. Its region headers stand in the manager's memory,
-- which is physical, and are reached through the direct map at `hhdm_base`. The loop of the destructor
-- runs on fuel. Bump/Room is about requests that fit the current region, Bump/Fresh about
-- those that do not.
--
-- Stack is kernel/include/types/stack.h: `grow`, `push_back` (and `emplace_back`) and the moves. Its
-- elements stand in a store by buffer and index, and a buffer that was given up keeps its elements, so
-- that a pointer into it goes on reading what it read. Stack/Push has the list that a stack stands for.
-- StaticArray is kernel/include/types/static_array.h, of which page tables are made, and ResultType is
-- kernel/include/types/result.h.
--
-- Boot is the loop of kernel/src/kernel_entry.cpp that hands the memory map to the manager; Boot/Filled
-- is about the manager it leaves. Boot/Platform is `parse_platform_info` of
-- kernel/src/limine/platform_info.cpp, on the boot loader's responses as a parameter, and Boot/Entry is
-- `kernel_cxx_entry`, which puts the parts together; Boot/Up is about a start-up that comes through,
-- Boot/Complete joins the parts to one, and Boot/Started runs one.
--
-- DeviceTree is kernel/src/devices/device_tree.cpp: the nodes and the properties, in stacks, with the
-- manager and a bump allocator. DeviceTree/Parse is the loop over the tokens, with `parse_node` and
-- `pre_parse_property`; DeviceTree/Names the comparisons of names, DeviceTree/Cells the arrays of `reg`
-- and `ranges`, DeviceTree/Rewrite the recursion over the finished tree and `parse_from_blob`. The blob
-- is memory as bytes, which the parser only reads. A text is read with `text_fuel`, which has to exceed
-- its length; a loop has one unit of `fuel` for each round, so that more rounds than the blob has
-- tokens, and more than the tree has nodes and properties, are enough. What runs out of fuel halts.
-- DeviceTree/Print is `print_device_tree`, as the list of the characters that it prints.
-- DeviceTree/Layout says what a structure block spells and when the stores are that tree; Places names
-- the places of a tree in the stores. Owned, Own, Grown, Build, Enter, Inside, Rounds, Trees, Built and
-- Blobs lead to the tree that the loop over the tokens builds, on stacks that grow, with the memory that
-- Stack/Supply and Stack/Supplied promise, each node and each property at a place of its own.
-- DeviceTree/Rewritten says what the rewriting pass makes of a tree; Grants, Regs, Trips, Texts, Steps,
-- Firsts, Seconds, Passes, Parts, Finished and Whole lead to the pass on the stores, with the memory that the
-- bump allocator grants and rounds by the weight of the tree; Load joins the two. Stale is about a node
-- under a parent that the stack has left behind. DeviceTree/Blob, Aligned, Status, Pairs, Keeps, Small,
-- Entered, Bounds, Success, Printed, Values and Shown hold the other laws, and
-- Says is what a printed tree says.
--
-- Modules named Tests hold examples, as do Boot/Started, Bump/FreshTests, DeviceTree/Sample,
-- DeviceTree/SampleTests and DeviceTree/WholeTests.
--
-- Not modelled: the vendored boot protocol header (kernel/include/limine/limine.h), the drawing at the
-- end of `kernel_cxx_entry`, device input and output (kernel/src/uart.cpp, kernel/src/fmt), the machine
-- instructions of `csrw` and `csrr`, and what does not compile: `current_page_table` of sv39.cpp, the
-- constructor of a static array from an array literal, and kernel/include/types/dynamic_array.h, which
-- nothing uses. Arrays that the device tree parser takes from the bump
-- allocator are lists of what their own bytes hold. What is stored behind an array that is too small
-- lands in memory that a later array gets, and is not listed: of the texts of a `compatible` half are
-- held, and where the addresses of a `reg` or `ranges` run over, no size is. What such a store does to
-- memory of other owners at the end of a region is not modelled.
pub mod Base
pub mod Number
pub mod Errors
pub mod Words
pub mod Slab
pub mod Pmm
pub mod Csr
pub mod Memory
pub mod View
pub mod Sv39
pub mod Printer
pub mod Bump
pub mod Stack
pub mod StaticArray
pub mod ResultType
pub mod Boot
pub mod DeviceTree
