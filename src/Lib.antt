-- ===== src/Lib.antt =====
-- liblor, a C library of containers, strings and utilities.
--
-- The library is a set of modules over include/lor/*.h and src/*.c. A container is a handle: a
-- pointer to its elements, NULL while it is empty, behind a header in the same allocation. An
-- operation that may allocate takes a reference to the handle and returns a LorStatus; it writes
-- the handle only when it succeeds.
--
-- Parts and files:
--
--   Common           lists of native numbers' length, words of 64 bits, bytes, allocation
--   Status           src/status.c, include/lor/status.h: LorStatus, and the early return of a status
--   Array            src/array.c: the header, growth, the alias test, lor_array_reserve_raw
--   Array.Ops        resize, append, append_array, insert, shrink_to_fit
--   Array.Removal    clear, pop, remove, remove_range, remove_unordered, deinit
--   View             src/string.c up to LorStringHeader: views, comparing, trimming
--   View.Search      find, find_char, split, chop
--   OwnedString      src/string.c from LorStringHeader on: growth, alias, assign, append, the NUL
--   Map              src/map.c: header, callbacks, FNV-1a, the search and insertion of buckets
--   Map.Reserve      lor_map_init_raw, the capacities, lor_map_reserve_raw
--   Map.Ops          lor_map_set_raw, lor_map_find_raw, lor_map_contains_raw
--   Map.Removal      lor_map__erase_bucket, lor_map_remove_raw, clear, deinit
--   Map.Views        the callbacks of string-view keys, lor_map_config_string_view
--   Set              src/set.c: the handle, its operations over those of a map
--   Set.Ops          lor_set__operation: union, intersection, the differences
--   Set.Relations    subset, equality, disjointness
--   Arena            src/memory.c: the arena's blocks, numbers of bytes and alignment
--   Arena.Blocks     new blocks of both backends, committing, lor_arena__block_alloc
--   Arena.Ops        init, deinit, reset, mark, rewind, allocation, strdup, the sums
--   Arena.Scratch    lor_scratch_begin, lor_scratch_end, lor_scratch_cleanup
--   Leaks            src/memory.c: the leak records and the allocation functions that keep them
--   Channel          src/concurrency.c: lor_channel_*, in turns between two waits
--   Channel.Steps    the turns of all threads as a step relation
--   TaskGroup        src/concurrency.c: lor_task_group_*, lor_task_cancelled, lor_thread_join
--   Cli              src/cli.c: options, positionals and their names
--   Cli.Registration lor_cli__add_option, lor_cli__add_positional and their callers
--   Numeric          include/lor/numeric.h: minimum, maximum, clamp
--   TypeNames        src/type.c, include/lor/type.h: the kinds of types and their names
--   Random           src/random.c: PCG32, bounded and float outputs, seeding
--   Random.System    lor_random_system_bytes on Unix, lor_random_seed_system
--
-- The other modules hold what the theorems stand on, named for it: Array.Inv has the invariant of a
-- block and growth, Array.Append and so on one operation each, Map.Probing the steps of a search
-- among buckets, Map.Placing where entries are, View.Text the characters that a view shows. Tests
-- run the definitions. A map is valid (Map.Inv) when each entry is in a bucket to which the search
-- for its key comes.
--
-- State and operations. An array handle is none for NULL and else a record of the header's size,
-- capacity and element_size, the address of the elements, and a list of cells, one for each byte of
-- the capacity; a cell is none while nothing was written to it. realloc is a parameter that answers
-- an address or none; its documented behaviour is IsAllocator, that a block does not wrap around
-- the address space, and Spares, that it does not give memory in use. An owned string is none for
-- NULL and else its size, its capacity, its address and the cells of the capacity and one more for
-- the NUL. A map holds its initialized entries, each a key and a value, as a list, and its buckets
-- as another; a callback is an address and a function, and the bytes of a key, which the default
-- callbacks read, are a parameter; the operations return the keys that they drop, in order, and
-- `none` where a search among the buckets would not end or would read an entry that is not there. A
-- function that takes a reference is the function on the handle, lifted by on_ref, where NULL is an
-- invalid argument. An arena's blocks are a list, newest first, each with its address; an operation
-- says which blocks it frees. malloc, mmap and mprotect are the fields of a System, which differs
-- from call to call; SystemIsSound says that what they give is inside the address space, and
-- IsFresh that malloc gives no address in use. Leak records are a list, newest first; Runs relates
-- the calls of a program to its live memory. A function of a channel runs under the channel's mutex
-- except while it waits, so it is split into turns, each a function that waits or returns; Step
-- relates the states between turns, with the values sent and received so far, and send_until and
-- receive_until go through a list of waits, each with what other threads made of the channel
-- meanwhile. A group of tasks has a list of threads, none where a thread was joined, and the number
-- of bytes of their block; realloc of 0 bytes frees the block, whatever it answers. A parser has a
-- list of options and one of positionals, in the order in which they were added; a C string that it
-- keeps is a list of characters, and how memory is given is a parameter of an addition. A view is
-- an address and a size, 0 is NULL, and the functions that read characters take the memory. Words
-- wrap at 2^64 (mul_size, add_size) and 2^32.
--
-- Bounds and fuel. The doubling loop of growth has 64 steps of fuel, since 64 doublings pass
-- SIZE_MAX. The searches among buckets have as many rounds of fuel as there are buckets, which
-- Map.Finding and Map.Inserting show to be enough while a bucket is empty; the doubling of the
-- number of buckets has 64, as has that of a group's threads. The loops of trim, find and memchr go
-- through the places that are left. The rejection loop of lor_random_bounded_u32 takes its fuel as
-- an argument, as no bound on it exists; the loop of lor_random_system_bytes goes through the reads
-- that the system makes.
--
-- Not modelled: printing (src/print.c and the two print functions of views), src/trace.c; of
-- src/cli.c the parsing of arguments and the printing of help; of src/concurrency.c the wrappers of
-- threads, mutexes, conditions and time; of src/memory.c the mapping of files, Windows, the
-- printing of leak reports and the debug forms of the arena functions; the macros that select by C
-- types, and the feature tests of the preprocessor; the Windows branch of src/random.c; in the
-- arena, the calls that track it; lor.h, which is generated.
pub mod Common
pub mod Status
pub mod Array
pub mod Random
pub mod View
pub mod OwnedString
pub mod Map
pub mod Set
pub mod Arena
pub mod Channel
pub mod Cli
pub mod TypeNames
pub mod Numeric
pub mod Leaks
pub mod TaskGroup
