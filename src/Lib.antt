-- ===== src/Lib.antt =====
-- A verification library for the key-value store of this repository, which keeps the early parts
-- of a LevelDB port: byte encodings, slices, a random number generator, a hash, an arena, a skip
-- list, and the interfaces of the database and its environment.
--
-- How the parts interact: the encodings read and write strings and slices; the hash reads its
-- words with the fixed-length decoder; the skip list takes the memory of its nodes from the arena
-- and the heights of its nodes from the random number generator, and orders keys by a comparator.
--
-- Which file is about which part:
--   Base, Base/*        names, tests, lists, words and bit lemmas that the modules share.
--   Coding/Fixed        EncodeFixed32/64, PutFixed32/64 (src/util/coding.cpp), DecodeFixed32/64
--                       (src/util/coding.h).
--   Coding/Varint       EncodeVarint32/64, PutVarint32/64, VarintLength, GetVarint32/64,
--                       GetVarint32PtrFallback, GetVarint32Ptr, GetVarint64Ptr.
--   Coding/Prefixed     PutLengthPrefixedSlice and both GetLengthPrefixedSlice.
--   Coding/Records      sequences of fields, written and read with the functions on strings and
--                       slices.
--   Slice               Slice (include/leveldb/slice.h): constructors, access, remove_prefix,
--                       ToString, starts_with, compare, == and !=.
--   Random              Random (src/util/random.h): Next, Uniform, OneIn, Skewed.
--   Hash                Hash (src/util/hash.cpp).
--   Arena               Arena (src/util/arena.h, src/util/arena.cpp): Allocate, AllocateAligned,
--                       AllocateFallback, AllocateNewBlock, MemoryUsage, the destructor.
--   Env/WritableFile    the state and the methods with a body of WritableFile
--                       (include/leveldb/env.h): preallocation.
--   Env/EnvWrapper      EnvWrapper (include/leveldb/env.h), against the environment that it wraps.
--   Random64            Random64 (src/util/random.h).
--   Coding/BitStream    BitStreamPutInt and BitStreamGetInt on a char array (RoundTrip, Apart) and
--                       on strings and slices (Strings).
--   Status              Status (include/leveldb/status.h): codes and predicates (Status/Codes), the
--                       ownership of the state array over copies, assignments and destructors
--                       (Status/Ownership, Status/Lifetime).
--   Statistics          include/leveldb/statistics.h: tickers, histograms, their name maps, Ticker,
--                       RecordTick.
--   Options             the structs of include/leveldb/options.h, and their values there.
--   Env                 EnvOptions (include/leveldb/env.h).
--   Db                  DB::Put (src/db/db_impl.cpp), Range (include/leveldb/db.h) and WriteBatch
--                       (include/leveldb/write_batch.h).
--   ArenaTest           TEST(ArenaTest, Simple) of src/util/test_arena.cpp, a client of the arena:
--                       its memory (Memory) and its run (Simple).
--   SkipList            SkipList (src/db/skiplist.h): the constructor, NewNode, Insert, Contains,
--                       FindGreatOrEqual, FindLessThan, FindLast, RandomHeight.
--   SkipList/Layered    the shape that every insertion keeps, in which only the lowest level is in
--                       order, since a stale prev_ may link a node out of order above it:
--                       searches (Find, Contains, Last), one link (Splice, Sorted, Link), the
--                       loop (Loop, Stages), the node's memory (NewNode), Insert and sequences
--                       of insertions (Ready, Finish, Writes, Insert, Trace, Orders), and a
--                       reader among the stores of a writer (Watch, Reader, Race, Way, Writer),
--                       which comes to its end by its own loads (Places, Wait).
--
-- How the code is written down: a number is a natural number, and the wrap-around of a machine
-- integer stands where the code has it (Base/Words). A range of memory is the list of its bytes,
-- a pointer into it the list of what is left, and nullptr is none. A pointer to an arena block or
-- to a node is the number of its address. A failed assertion and a read out of bounds are none, but
-- for the links of a node, which are a function of the level: that a node has room for the links
-- of the levels that it is on is part of what insertions keep (Holds, SkipList/Layered/Ready).
-- Insert is written down as the lists that it leaves one after another (insert_steps), of which
-- the last one is what it ends with; the reader of SkipList/Layered/Watch runs among the same lists
-- and takes the rounds of FindGreatOrEqual (find_round) one by one.
--
-- Bounds and fuel: the loops of EncodeVarint64 and VarintLength recurse on the accessibility of
-- the value, which each round makes smaller; the decoding loops end with the bytes or the shift;
-- the loops of the skip list take fuel, and SkipList/Search says how many rounds are enough on a
-- well-formed list: the lengths of all its levels and a round for each level. They are at most
-- 12 * (n + 1) where no level has more than n nodes (SkipList/Layered/Rounds). The loops of the bit
-- streams have a round for each bit, which Coding/BitStream/RoundTrip shows to be enough.
--
-- Parameters: operator new[] and the capacity of a vector (Arena), the comparator (SkipList), the
-- functions that allocate the state array of a Status, which have no body in the repository,
-- recordTick of a Statistics, the library generator of Random64, the environment behind an
-- EnvWrapper, WriteBatch(), WriteBatch::Put and the virtual Write of a database, the comparison in
-- doubles of the arena test. What a theorem relies on in them is a hypothesis: IsAllocator in
-- Arena/Regions, IsOrder in SkipList/Chain, IsCopyState and IsNewState in Status/Heaps, IsUniform
-- in Random64/Laws.
--
-- The atomic loads and stores are plain reads and writes, one after another. SkipList/Layered/Watch
-- has a reader take turns with a thread that inserts; elsewhere one thread runs at a time.
--
-- Not modelled: weaker memory orders and other interleavings of threads; the interfaces
-- without code (include/comparator.h, include/leveldb/iterator.h and their like), and the other
-- methods of those with little; src/util/env_posix.cpp and the classes that have no member with a
-- body; the test of the skip list, but for its comparator, and the shell.
-- Line 124 of src/db/skiplist.h, in Insert, is no valid C++: what it does is an argument of the
-- model, and the theorems on Insert take the store of the new node's link, which it means.
pub mod Base
pub mod Coding
pub mod Slice
pub mod Random
pub mod Random64
pub mod Hash
pub mod Arena
pub mod ArenaTest
pub mod Env
pub mod Status
pub mod Statistics
pub mod SkipList
pub mod Options
pub mod Db
