-- ===== src/Lib.antt =====
-- A model of elco-os, a small kernel for i386, and what it guarantees.
--
-- The program. system/kernel/ is the kernel: task.c keeps the task table and the ready queues,
-- message.c passes messages between tasks, clock.c counts ticks and keeps the sleeping tasks,
-- main.c dispatches the kernel calls, and memory.c manages page tables and free frames. The
-- messages and the clock block and unblock tasks by the ready queues; a kernel call runs on behalf
-- of current_task; the assembly code calls the scheduler, switches to next_task, and then calls
-- after_context_switch. lib/libk/ is the kernel's C library.
--
-- The model of the tasks. Kernel/State.antt has task_t and all variables of task.c and clock.c in
-- one record `Kernel`. A task pointer is the number i + 1 for &ptable[i], and 0 for NULL; pids,
-- codes and times are 32-bit patterns, with the wrap-around written out. A function that follows a
-- pointer gives `none` where that pointer is NULL. A `task_t **` that walks a list is a slot: the
-- head of the list or the link field of an entry (Slot, QSlot, TSlot). Kernel/Ready.antt and
-- Kernel/Tasks.antt are system/kernel/task.c, Kernel/Message.antt is system/kernel/message.c,
-- Kernel/Clock.antt is system/kernel/clock.c, and Kernel/Calls.antt is handle_kernel_call and
-- after_context_switch of system/kernel/main.c. Kernel/Ready/Turns.antt adds the lines of `resume`
-- of system/kernel/i386/i386.S that make the task that was chosen the current one. Each function
-- has its name in the source, in lower case; parts of a function that the theorems speak about have
-- names of their own. A task list in memory is related to a list of tasks by `Chain` of Chain.antt,
-- and the relations `Ready` (head, tail, links and priorities of a ready queue), `Inbox` (the
-- senders that wait for a task) and `Timers` (the sleepers, sorted) are the invariants that the
-- operations keep.
--
-- The model of memory. Memory/Paging.antt has the page directory and the page tables of
-- system/kernel/memory.c as functions from indices to entries; the recursive entry 1023 makes the
-- directory its own last page table. Memory/FrameStack.antt is the stack of free frames,
-- Memory/Pages.antt the functions that allocate, free, map and unmap a page, and
-- Memory/HeapGrowth.antt is heap_callback, which grows and shrinks the kernel heap.
-- Memory/Start.antt is memory_init, which fills the stack of free frames from the memory map and
-- starts the heap and its allocator. BootMap.antt is get_mmap of system/kernel/main.c, which makes
-- that memory map from the one of the boot loader.
--
-- The model of the C library. Kstring/ has the functions of lib/libk/src/kstring/ over a memory of
-- bytes by address: Kstring/Memory.antt those on blocks of memory, Kstring/Text.antt those
-- that measure, build and compare strings, Kstring/Search.antt those that look for characters and
-- strings in a string. Kstdio.antt is lib/libk/src/kstdio/: kprintf gives the list of the characters
-- that it prints, Kstdio/Expand.antt computes, without memory, the text that a format stands for, and
-- Kstdio/Expand/Meaning.antt has the rules for that text, apart from the code.
--
-- The model of the machine. I386/ is system/kernel/i386/. I386/Descriptors.antt is descriptors.c,
-- with the entries of the tables as records of their fields; I386/Descriptors/Encode.antt reads the
-- packed bytes as the processor does. I386/Pic.antt is pic.c and I386/Interrupts.antt is
-- interrupts.c: the writes to ports are a log, a read of a port is a function of that log and a
-- parameter, and `Latch` of I386/Pic/Masks.antt is the documented behaviour of the interrupt
-- controllers. I386/Display.antt is display.c over the bytes of the screen,
-- I386/Display/Terminal.antt an abstract terminal that it is compared with, and
-- I386/Display/Console.antt joins kprintf with the display, its output by way of kputchar and the
-- callback.
--
-- The model of the allocator. Kmalloc/ is lib/libk/src/kstdlib/malloc_free/: Kmalloc/Chunk.antt has
-- the state and the macros of kmalloc.h, Kmalloc/Dllist.antt is kmalloc_dllist.c, Kmalloc/Tree.antt
-- is kmalloc_tree.c, Kmalloc/Bins.antt, Kmalloc/Top.antt and Kmalloc/Merge.antt are kmalloc_util.c,
-- and Kmalloc/Api.antt is kmalloc, kfree, krealloc and kcalloc. One record `Arena` has kmstate and
-- a map from addresses for each field of a chunk. The fields of different chunks are different
-- places, as live chunks do not overlap; the one place where the code writes a header inside a
-- chunk that is still binned is written out (set_header_inside of Kmalloc/Merge.antt). NULL is
-- followed like any other address, and the heap does not reach the end of the address space. The
-- callbacks of libk.c are data: the answers that sbrk will give, the requests that it was given,
-- and whether abort was called. `Ring` of Kmalloc/Dllist/Ring.antt relates a circular list of chunks
-- to a list; `Tagged` of Kmalloc/Layout.antt relates the boundary tags, headers and feet, to the
-- list of blocks that the heap consists of, each with its size and whether it is in use.
--
-- Bounds and fuel. The table has TASK_COUNT = 10 entries. A loop over a linked list runs on fuel
-- TASK_COUNT + 1: the entries of a list are distinct table entries, so there are at most ten, and
-- one more round sees the end. Each theorem states that the operation returns, so the fuel is
-- enough wherever the relations above hold. Loops over the table or the priorities are structural.
-- A loop over a string of n characters runs on fuel, and n + 1 is enough.
-- The loop over the frames of an entry runs on one round for each page of the address space.
-- The loops of heap_callback run on fuel for each page below the first or up to the last one.
-- Loops over a tree bin run on fuel 32, the bits of a size, which choose the way down; insertion and
-- the best fit run on the depth that the code passes. No theorem states that a tree has so few
-- levels.
-- The loops of kprintf run on a bound that the format and every string argument stay below, the
-- digits of a number on 64 rounds, those of arch_display_number on 10, and the sort of get_mmap on a
-- round for each pair of changes.
--
-- Left out. Assembly code (the context switch, the flush of the TLB, the loading of tables), and the
-- parts of main.c that print or set up hardware have no state that the theorems need. For a task,
-- kmalloc enters as the address of the stack that it returns. What a panic prints and the
-- callbacks of libk.c other than that of kputchar are not modelled.
pub mod Base
pub mod BootMap
pub mod Chain
pub mod Kernel
pub mod Kmalloc
pub mod I386
pub mod Kstdio
pub mod Kstring
pub mod Memory
