-- ===== src/Lib.antt =====
-- redbx, an encrypted embedded key-value store: the parts that keep track of pages, transactions and
-- what is on disk.
--
-- A database file begins with a header that holds two commit slots, and goes on with regions of
-- pages. The layout says where each region lies; a page number names a page of a region; each
-- region has a buddy allocator, made of one bitmap for each order, and the region tracker says which
-- regions may have a free page of an order. The transaction tracker counts who still reads a
-- transaction, so that no page of it is freed too early; a savepoint holds a transaction alive and has
-- a stored form. Pages that were read are kept in a second-chance cache. The tables are B-trees, whose
-- leaf pages hold pairs of a key and a value and whose branch pages hold keys and children.
--
-- Lru          src/tree_store/page_store/lru_cache.rs: `LRUCache`. `insert` is `insert_value`; the
--              branch of `remove` that cycles the queue is `cycle`; `pop_round` is a round of the loop
--              of `pop_lowest_priority`.
-- Tracker      src/transaction_tracker.rs: `TransactionTracker`, one function for each method, on a
--              `State`. `Clients` is the step relation of all calls in any order.
-- Layout       src/tree_store/page_store/layout.rs: `RegionLayout` (Region) and `DatabaseLayout`.
-- PageNumber   src/tree_store/page_store/base.rs: `PageNumber`, its bytes, order and address.
-- Bitmap       src/tree_store/page_store/bitmap.rs: `U64GroupedBitmap` (Group, where `set` is `set_bit`)
--              and `BtreeBitmap`, the levels from the root down. Word has the operations of `u64`.
-- Buddy        src/tree_store/page_store/buddy_allocator.rs: `BuddyAllocator`; `free` is `free_page`.
-- Regions      src/tree_store/page_store/region.rs: `RegionTracker` and `Allocators`.
-- Header       src/tree_store/page_store/header.rs: `DatabaseHeader` and, in Slot, `TransactionHeader`
--              with `BtreeHeader` of src/tree_store/btree_base.rs.
-- Pages        src/tree_store/btree_base.rs: the B-tree pages, as arrays of bytes. Leaf is
--              `LeafAccessor`; its children have `RawLeafBuilder` (Raw), `LeafBuilder` (Build) and
--              `LeafMutator` (Mutator for `remove`, Insert for `insert`). Branch is `BranchAccessor`;
--              Branch.Raw has `RawBranchBuilder`, `BranchBuilder` and `BranchMutator`. Search has the
--              binary search of both, and Checksum the checksums of pages. Leaf.Layout and
--              Branch.Layout say which bytes make a page of given entries.
-- Savepoint    src/tree_store/page_store/savepoint.rs: the stored form of a savepoint.
-- Prelude      words, bytes, bits, maps, panics, Boolean tests, and byte strings at offsets of a page
--              (Memory, Moves).
--
-- A number of w bits is a natural number, and arithmetic on it wraps as in a release build
-- (Prelude.Word); debug assertions are off. An `assert!`, an `unwrap` of nothing, a division by zero and
-- an index out of range give `Outcome.panic`. A lock is held for a whole method, so a method is a
-- function from the state to the state. Only `deallocate_savepoint` of the transaction tracker takes its
-- lock twice: `forget_savepoint` is what it does at first, and in Tracker.Clients other calls may come
-- between the two halves.
--
-- Loops that do not follow a structure run on fuel. The eviction loop has a round for each queued key
-- and each set flag, and one of the two numbers falls in each round. `Bitmap.build` has six rounds: a
-- round divides a `u32` capacity by 64. The loops of the buddy allocator over pages process at least one
-- page a round, and have a round for each page; the recursions over orders have a round for each order.
-- A binary search halves its range in each round, and has one round more than there are keys.
--
-- The lengths and offsets inside a page are those of a slice in memory, so that their sums do not wrap;
-- their differences are taken with wrap-around.
--
-- Parameters: the checksum `xxh3_checksum` is an argument of what uses it; that it has 128 bits is a
-- hypothesis where it is stored. `TransactionalMemory::allocate` is an argument of the page builders,
-- with the hypothesis that a page has the bytes that were asked for. The comparison of keys,
-- `Key::compare`, is an argument of the searches, with the hypothesis that it is transitive.
--
-- Not modelled: file access and encryption, the page manager and the cached file, the guards of
-- src/tree_store/btree_base.rs, the trees over the pages, tables and transactions above them, the key
-- and value types, the bindings, tests and benchmarks. `insert` is modelled with its overwrite of a value,
-- about which no theorem is stated.
-- The assertion of `LeafMutator::new` that the page is a leaf page stands before the modelled calls.
pub mod Prelude
pub mod Lru
pub mod Tracker
pub mod Layout
pub mod PageNumber
pub mod Bitmap
pub mod Buddy
pub mod Regions
pub mod Header
pub mod Pages
pub mod Savepoint
