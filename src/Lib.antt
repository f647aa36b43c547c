-- ===== src/Lib.antt =====
-- ayumos is a kernel for a 68010 system, in C. This library models its memory allocators, parts of its network
-- stack, the memory and string functions of its C library and helpers of the kernel, function by function, and
-- proves what they promise.
--
-- Memory (ayumos/kernel/memory/heap.c): Memory.Heap has heap_init, heap_malloc, heap_free, heap_freemem and
-- heap_usedmem, Memory.Heap.Resize has heap_calloc and heap_realloc. Chain describes a heap as a list of
-- blocks; Free, Malloc, Count and Fresh are about single functions, Spec, Safety and Wrap about what the
-- allocator promises. The heap is a store of words: a header is two words, four bytes apart. KMALLOC_HEAP is
-- taken as the configuration.
--
-- Memory.Extents is about ayumos/kernel/memory/extents.c: Search about its searches, Clear about
-- mem_zero_extents.
--
-- Memory.Slab is about ayumos/kernel/memory/slab.c: Sizes about the rounding of sizes, Bytes and Bitmap about
-- the bitmaps, Create about new slabs, Alloc about the objects of a slab, Chains and State about the whole
-- allocator. A slab is its header and the bytes of its bitmap, a chain of slabs a list; what memory holds
-- where a slab is created is an argument, since the code does not clear it.
--
-- Net (ayumos/kernel/net): Net.Packet has the packets of packet.c with the buffers of
-- ayumos/kernel/util/buffer.c, Net.Checksum net_cksum of net.c, Net.Address the addresses of address.c, the
-- registry of drivers of protocol.c and the IPv4 addresses of ipv4.c, Net.Arp the cache of arp.c, Net.Route
-- netmasks and the routing table of ipv4.c, Net.Ports its release of ports. A driver is a record of functions;
-- the ARP cache compares addresses through the registry, and Address.Registry says what that comparison is
-- when the driver of IPv4 is registered. A time of the ARP cache, a signed number of 32 bits, is kept as the
-- number 2 ^ 31 above it. The routing table is in Net.Route.Items: items in memory that point to the next one,
-- with what slab_alloc returns as an argument; ipv4_route_get works on the routes read along the chain. Of
-- Net.Route, Masks is about netmasks, Paths about chains of items, Entries and Table about what the table
-- always is, Reuse about memory that is used again after a deletion, Choice and Lookup about the route chosen;
-- of Net.Arp, Lookup, Eviction and Add about its functions. Pointers into tables are indices.
--
-- Kernel (ayumos/kernel): Kernel.Ticks has the periodic callbacks of tick.c, Calls and Period about when they
-- are called and Chain about their chain; Kernel.Sched has sched of sched.c with proc_sleep and
-- proc_wake_by_id of process.c, Rounds about the turns of processes and Waking about sleep; its queues are
-- lists. Kernel.Links has the doubly linked lists of ayumos/kernel/include/list.h over the links in memory:
-- Chain about rings of links, Insertion and Deletion about what makes a ring of a ring.
--
-- Klibc (ayumos/klibc): Klibc.Bytes has memcpy, memset and memcmp of string.c and bcopy and bzero of
-- strings.c, Klibc.Text the functions on strings of string.c, over a store of bytes, Klibc.Ctype the classes
-- of ctype.c, Klibc.Numbers strtoul and Klibc.Random the random numbers of stdlib.c, Klibc.Addresses strtoipv4
-- and Klibc.Substring strstr of string.c, over lists of bytes, Klibc.Errors strerror of string.c.
--
-- Util (ayumos/kernel/util): Util.Circbuf has the circular buffer of buffer.c, Util.Checksum fletcher16 of
-- checksum.c, Util.Numeric the logarithms of numeric.c, Util.Ktime the calendar and the timestamps of ktime.c,
-- Util.Hash fnv1a32 of hash.c and str_sum of string.c, Util.Messages kstrerror of string.c.
--
-- Monitor (ayumos/monitor): Monitor.History has the command history of history.c.
--
-- The parts interact by calls: kmalloc hands out memory of the heap, the circular buffer takes what kmalloc
-- returns as an argument, and strings and buffers are copied by the memory functions. Each function takes the
-- store and returns the new one beside its result, since the code runs a function of the heap with preemption
-- off.
--
-- A machine word is a number with its wrap written out; the addresses of the C library functions do not wrap.
-- A loop on a count is a recursion on it. A loop that follows memory takes fuel and gives `none` when it runs
-- out: one round for each block of a heap, two more for heap_realloc, which calls two functions of the heap,
-- and one round for each byte of a string and its zero; one round for each route and one for the end of their
-- chain; 33 rounds for the bits of a netmask, and 8 for those of a byte or of a small size. Those are the
-- rounds the code makes, and the theorems say that they are enough.
--
-- Not modelled: the buddy allocator, the creation and the end of processes, the file systems, the allocation
-- of ports, protocol handlers and sockets of the network stack, device drivers and the rest of the monitor.
-- Assembly and registers of devices have no model.
--
-- Common has shared names: tests, lists, stores, integers and bits.
pub mod Common
pub mod Kernel
pub mod Klibc
pub mod Memory
pub mod Monitor
pub mod Net
pub mod Util
