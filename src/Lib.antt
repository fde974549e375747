-- ===== src/Lib.antt =====
-- Verification of DionysOS, a kernel for x86_64 in C: its virtual file system, a file system in memory
-- and the block layer of one on disks, the ramdisk below it, its memory allocators, its run queues, its
-- data structures, its strings and its locks.
--
-- The parts and the code they model (paths from the repository's root):
--   Diosfs           kernel/src/filesystem/diosfs.c. Index computes the path of indices of a block of
--                    a file (diosfs_indirection_indices_for_block_number); Resolve follows it through
--                    the pointer blocks (diosfs_get_relative_block_number_from_file); Bitmap holds the
--                    two allocators and diosfs_clear_bitmap; InodeTable reads, writes
--                    and frees inodes and frees data blocks; Content reads the bytes of a file
--                    (diosfs_read_bytes_from_inode); Device is the block device that they see
--                    through block_device_ops.
--   Ramdisk          kernel/src/drivers/block/ramdisk.c, the driver behind block_device_ops. Its
--                    Refinement module relates it to Diosfs.Device.
--   SinglyLinkedList kernel/src/data_structures/singly_linked_list.c with its static pool of nodes; Values
--                    is a list as its values, for the lists inside a tree or a hash table of blocks.
--   HashTable        kernel/src/data_structures/hash_table.c, arrays of singly linked lists.
--   DoublyLinkedList kernel/src/data_structures/doubly_linked_list.c.
--   Queue            kernel/src/data_structures/queue.c, the FIFO, LIFO and priority queues.
--   BinaryTree       kernel/src/data_structures/binary_tree.c: the node pool and insertion; Removing
--                    holds removal and lookup, Walking the walk over all nodes and the release of a
--                    tree; Shape says which abstract tree the nodes in memory are.
--   Pmm              kernel/src/memory/pmm.c, the buddy allocator, on the trees of BinaryTree. Allocation
--                    holds coalescing, phys_alloc and buddy_free; LargeRange the ranges of several blocks.
--   Slab             kernel/src/memory/slab.c.
--   Heap             kernel/src/memory/kmalloc.c, on Slab, with the page allocator as a parameter.
--   Vfs              kernel/src/filesystem/vfs.c. Vnodes holds the vnodes, their children and mount
--                    points, Paths the way from a path to a vnode and back, Handles the handles of a
--                    process, Calls the operations on vnodes, Interface the calls on handles and paths.
--                    It is built on CString, Spinlock and the lists; what a file system implements is
--                    the record VnodeOperations.
--   Tmpfs            kernel/src/filesystem/tmpfs.c. Files holds reading, writing and the page lists,
--                    Nodes the numbers of nodes, creation and the entries of a directory.
--   Scheduler        kernel/src/scheduling/scheduler.c: sleep and wakeup, on DoublyLinkedList; RunQueues
--                    holds the run queues, on Queue, and the dead processes.
--   CString          kernel/src/definitions/string.c.
--   Memory           kernel/src/boot/main.c: memcpy, memset, memmove and memcmp.
--   Spinlock         kernel/src/data_structures/concurrency/spinlock.c, with the atomic exchange of
--                    kernel/src/architecture/architecture_specific/x86_64/atomic_operations.c.
--   Mutex            kernel/src/data_structures/concurrency/mutex.c.
--   Prelude          shared names: tests, lists, and runs of C code (Run): a result with a state, a
--                    panic, a fault (a bad pointer or a division by zero), or no end within the fuel.
--   Examples         concrete runs.
--
-- How the code is modelled. Memory is explicit: the nodes of a list are maps from addresses to
-- fields with a map that tells which addresses are live, and reading or writing a dead one is a fault;
-- strings and ramdisks are bytes by address. A list or queue header is passed in and returned. The
-- functions have the names of the source without the prefix of their module. What kmalloc returns is
-- the parameter `fresh`, and what an uncleared page holds is a parameter too. Locks around an
-- operation make it one step, so an operation is one run.
--
-- Machine integers wrap where the code computes with them: block indices are 16 bits, node_count of a
-- queue 32 bits, counts of a doubly linked list, hash values and the ramdisk's sizes 64 bits. The
-- node_count of a singly linked list is not wrapped: it counts live nodes, of which there are fewer
-- than 2 ^ 64.
--
-- Fuel: the walk of a priority queue gets node_count + 1 rounds, one for each node and one for null;
-- the walks of a singly linked list likewise; the bitmap scan gets a round for each byte up to its
-- limit; the repeated write of the ramdisk gets write_size + 1 rounds and counts two bytes a round;
-- string functions and bucket checks take the fuel as an argument, and their results say how much is
-- enough. The atomic exchange gives up after 10 ^ 9 attempts, as the code does.
--
-- Walks in a tree get their rounds as an argument; one for each node of the tree is enough for an
-- insertion or a lookup, and one more for a lookup that removes. An allocation of a range makes 502
-- attempts, as the code gives up after 500; count_blocks gets a round for each block that is wanted,
-- and split_to more rounds than there are orders.
--
-- The locks of the file system and of the sleep queue are the Spinlock of this development, so that
-- nested acquisitions behave as they do there. Handles belong to one process. A walk over handles, slashes or the components of a path
-- takes its fuel as an argument; the loops over children, bytes and bitmaps count down.
--
-- A bucket of a tree and of the hash table of used blocks is a list as SinglyLinkedList.Values has it: its
-- values, with whether its tail is its last node or one that has been released, through which a write is
-- a fault. The nodes of these lists are not part of the state, and the list of unused blocks, which is
-- only used at its head, is the list of its values.
--
-- Not modelled: page tables, the directories of diosfs, the removal of files in tmpfs, the creation of
-- processes, system calls, device registers, the display, boot and third-party code.
pub mod Prelude
pub mod Examples
pub mod Diosfs
pub mod BinaryTree
pub mod Pmm
pub mod CString
pub mod Memory
pub mod Mutex
pub mod DoublyLinkedList
pub mod HashTable
pub mod Heap
pub mod Ramdisk
pub mod Scheduler
pub mod Spinlock
pub mod SinglyLinkedList
pub mod Slab
pub mod Queue
pub mod Vfs
pub mod Tmpfs
