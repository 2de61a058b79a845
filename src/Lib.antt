-- ===== src/Lib.antt =====
-- A model of the kernel in source/, with what its parts guarantee.
--
-- The kernel's memory is managed in three layers. The frame bitmap (PagingManagement) gives page
-- frames to page table entries. kmalloc gives memory, before the heap is enabled by moving
-- `placement_address` up, and afterwards from the kernel heap; getPage makes missing page tables
-- with kmalloc. The kernel heap keeps blocks and holes between headers and footers in memory, and the
-- addresses of its holes in an OrderedArray. The byte and string routines and the text screen are used
-- by all of them. kernel_main puts the parts together: it moves `placement_address` behind the initrd,
-- switches paging on over a map of the low memory to itself, moves the stack, makes the first process
-- and reads the initrd's headers.
--
-- Files, and the code they are about:
--   Common            shared names, Boolean tests, lists over the native numbers, 32-bit words
--   Memory            memset and memcpy of source/memory_management.cpp, over the linear address space
--                     as a function from addresses to bytes; loads and stores of 32-bit words
--   Bits              and, or with a power of two as operations on single bits
--   Cstring           strlen, strncmp, strncpy, strcat of source/utils/common.cpp
--   Array             Array and OrderedArray of source/utils/array.cpp and source/include/array.h
--   Vector            vector of source/vector_.cpp and source/include/vector_.h
--   Heap              KernelHeap of source/kernel_heap.cpp and source/kernel_heap.h: init, allocate,
--                     findSmallestHole (find_smallest_hole), free. Heap/Layout says when the memory
--                     holds a list of segments, Heap/Policy is the first-fit policy on such a list
--   Paging            Bitset, getFreeFrame, allocFrame, freeFrame of source/paging_management.cpp, and
--                     Page of source/page.h
--   Kmalloc           kmalloc of source/memory_management.cpp and getPage of
--                     source/paging_management.cpp, which call one another
--   Clone             clonePageTable and clonePageDirectory of source/paging_management.cpp
--   Setup             initialisePaging and switchPaging of source/paging_management.cpp. Setup/Pages to
--                     Setup/Whole follow its loops one by one, and Setup/Walk to Setup/Sound the words
--                     of the directory and of the bitmap
--   Descriptor        the entries of the descriptor tables of source/descriptor.h,
--                     source/gdt_entry.cpp and source/idt_entry.cpp, and the tables as they are filled;
--                     Descriptor/Task is source/tss_entry.cpp with setTss and switchToUserMode
--   Scheduler         the process list of source/utils/linked_list.cpp (pushBack), and init, fork and
--                     the task switch (switchTask) of source/process.cpp
--   Stack             changeStack of source/process.cpp; Stack/Supply says what kmalloc gives on the way
--   Interrupts        the dispatch of exceptions and interrupts of source/isr.cpp, the timer of
--                     source/pic_timer.cpp, system_call_handler of source/system_calls.cpp, and
--                     pageFaultHandler of source/paging_management.cpp
--   Initrd            InitrdFs of source/vfs/initrd_fs.cpp with FileNode of source/vfs/fs.cpp. Initrd/Image
--                     is mk_initrd_img/mk_initrd_img.cpp, which makes the image, with the host's files as
--                     a parameter. Initrd/Vfs is Vfs of source/vfs/fs.cpp, and the loop of
--                     source/kernel_main.cpp that shows the files
--   Boot              kernel_main of source/kernel_main.cpp up to InitrdFs::init
--   Atexit            the table of destructors of source/icxxabi.cpp
--   Screen            the cursor, printChar, printString, clean, setTextColor of source/screen.cpp;
--                     Screen/Numbers is its printHex, printInt, printBinary and printEndl,
--                     and Screen/Report prints pages, file nodes, file headers and the heap's index
--
-- State is passed explicitly: an operation takes the object's record and the memory, and gives both
-- back. Addresses and sizes are numbers below 2 ^ 32, and `+ʷ`, `-ʷ` wrap around as the unsigned
-- arithmetic of the code does. A loop `for(;;);` after an error is the result `hang`. A loop whose
-- length is known by a counter recurses on the rounds left. The loops of strlen, strcat and printString
-- run up to a zero byte, and take fuel: one more than the length of the text is enough; so does the loop
-- of printInt that counts digits, where 10 is enough.
-- The loop of initialisePaging over the low memory takes fuel too: above 1024 is enough, as long as
-- `placement_address` stays below 4 MB. The loops of changeStack take fuel: more than the size of the
-- new stack and one is enough. The loop of kernel_main over the files takes rounds as fuel: one for
-- each entry, dev included, and one more for the end.
--
-- Not modelled: what the functions print while they work; the bytes of the heap's index array and of
-- the page tables, which are kept in records of their own; getPage for a directory other than the
-- current one; the words behind the bitmap as memory of something else; kernel_main after
-- InitrdFs::init but for the loop over the files; all assembly code. Reading
-- and writing memory does not go through the page tables, and no access makes a page fault: which pages
-- are there is what the theorems about initialisePaging and changeStack say. The words behind the bitmap
-- are the start of what follows it in memory; a theorem that is about the page directory there says how
-- far behind it is.
pub mod Common
pub mod Memory
pub mod Bits
pub mod Clone
pub mod Cstring
pub mod Array
pub mod Heap
pub mod Paging
pub mod Kmalloc
pub mod Screen
pub mod Setup
pub mod Vector
pub mod Stack
pub mod Descriptor
pub mod Scheduler
pub mod Atexit
pub mod Interrupts
pub mod Initrd
pub mod Boot
