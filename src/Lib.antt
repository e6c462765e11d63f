-- ===== src/Lib.antt =====
-- A model of the core of the virtual machine in vm/: memory management, the scanner of the language,
-- the compiler's back end as far as it does not emit machine code, and the tables of the runtime.
-- Paths are from the repository's root.
--
-- The parts and the files that model them:
-- - Base: names of the libraries, Boolean tests, lists by native numbers, bytes and their bits, and
--   `Run`, the result of a run of C code: a value, or the fault that stops it. The build is a debug
--   build, so a failed ASSERT is a fault; so are FAIL, a null pointer and an access out of bounds.
-- - Object (vm/Object.h): tagged values (tagInt, asCInt, ...), instance shapes and object sizes.
-- - FreeList (vm/FreeList.c): the free list of a page space, 128 buckets by size and one for large
--   spaces, with a bitmap of the buckets that are not empty. A chain of spaces is a list.
-- - PageSpace (vm/HeapPage.c, and pageSpaceAllocate and tryAllocateOld of vm/Heap.c): pages and
--   their free list. What mmap returns is an argument.
-- - RememberedSet (vm/RememberedSet.h, and iterateRememberedSet of vm/Scavenger.c): blocks of old
--   objects that point to new ones, and the iterator over them. malloc is taken to succeed.
-- - GarbageCollector (gcMarkRoots of vm/GarbageCollector.c): marks and queue over the graph of the
--   objects; the objects on which the walk over the roots calls markObject are an argument.
-- - Sweep (gcSweep of vm/GarbageCollector.c, freeObject and markAndSweep of vm/Heap.c, the iterator of
--   vm/HeapPage.c): the cells of a page space, by their addresses. Sizes of cells are an argument, and
--   so is whether the class of an object has a finalizer.
-- - Barrier (rawObjectStorePtr of vm/Thread.h): stores into the same heap, and the remembered set.
-- - Selector (computeArguments of vm/String.c): the arguments of a selector.
-- - Handles (vm/Handle.c, vm/Handle.h): the linked list of persistent handles and the scopes.
-- - Collection (vm/Collection.c, vm/Iterator.c): ordered collections and iterators.
-- - Lookup (lookupSelector of vm/Class.c, vm/Lookup.c, vm/Lookup.h): methods along the super classes
--   and the cache in front. The generator's code is known by its address and what it runs.
-- - Dictionary (vm/Dictionary.c): the open hash table. An association is its key and value; class
--   and hash of a key and the comparison of strings are arguments.
-- - Tokenizer (vm/Tokenizer.c): the characters, readToken, and the ring of the last six tokens, for a
--   source in memory. The source is the list of its bytes with the NUL; a token's content is the
--   bytes that have been written to its buffer.
-- - Assembler (vm/Assembler.h): the growing buffer of code and its labels.
-- - Bytecodes (vm/Bytecodes.h): what is written to such a buffer and read back by the iterator.
-- - RegisterAllocator (vm/RegisterAllocator.c): live ranges from the bytecodes, and registers by a
--   linear scan. Pointers into the array of variables are indices.
-- - Tests: runs at small inputs, and each theorem at an input that meets its hypotheses.
--
-- The heap's page spaces stand on the free lists, which the sweep adds to; the register allocator reads the code that the
-- bytecode emitters wrote to an assembler buffer.
--
-- Machine words: an address or a size is a natural number; `% 2 ^ w` stands where the code cuts a
-- value to w bits. Fuel: the search of a dictionary has one round for each slot, after which the
-- loop of the source is where it was; the reader of bytecodes has one round for each byte; the
-- iteration of a remembered set has one for each object and one for its end; the growth of a
-- dictionary takes the depth of its nested calls as an argument; a loop of the tokenizer, and its
-- call of itself after a comment, has a round for each byte of the source and one more, which is
-- enough since each round reads a byte; the marking loop has one round for each object, since an
-- object is queued once at most; the sweep has one for each cell; the search of a collection has one
-- for each element; the search for a method, and the loops over handles, take the number of rounds
-- as an argument.
--
-- Not modelled: output and printing, statistics that are compiled out, handles and write barriers in
-- the dictionary and the collections, the operand type OPERAND_INST_VAR_OF, fixups of the assembler,
-- machine code and the primitives, the messages of the sweep, the scavenger, the parser and the
-- compiler, sources that are files, snapshots and start-up.
pub mod Base
pub mod FreeList
pub mod PageSpace
pub mod Assembler
pub mod Bytecodes
pub mod RegisterAllocator
pub mod RememberedSet
pub mod Object
pub mod Dictionary
pub mod Tokenizer
pub mod GarbageCollector
pub mod Collection
pub mod Handles
pub mod Lookup
pub mod Barrier
pub mod Selector
pub mod Sweep
pub mod Tests
