-- ===== src/Lib.antt =====
-- skl: a concurrent map on a skip list that lies in an arena (src/map.rs and its neighbours). A node
-- holds a key, a value with a trailer that carries a version, and a tower of links, one for each of
-- its levels. Searches go down the towers; an insertion finds its neighbours on every level (the
-- splices), links the node on one level after the other by compare-and-exchange, and then counts the
-- entry in the header of the map.
--
-- The files, and the code that they model:
-- - Prelude, Prelude/*: shared types, tests, list lemmas, and `Run`, the outcome of code that may
--   fault on undefined memory, panic, or run out of its fuel.
-- - Codec: the packed words of a node, `encode_*` and `decode_*` (src/map.rs).
-- - Comparator: `Comparator`, `Ascend`, `Descend` and `Trailer` (src/lib.rs). A key is a list of bytes.
-- - Height: `random_height` (src/lib.rs); the random word and the table of probabilities are arguments.
-- - Options: `Options` (src/options.rs).
-- - Buffer: `VacantBuffer` (src/types.rs).
-- - Key: `Key` (src/types.rs).
-- - Meta: the header `Meta` (src/map.rs), its two version loops one atomic action at a time;
--   Meta/Versions and Meta/Fair let threads take turns, Meta/Alone is about the least version.
-- - Node, Node/Arena: `Node`, `Link`, their sizes (src/map.rs), and what the map uses of the allocator
--   crate rarena-allocator, which is not in the repository: a record that definitions take as a
--   parameter.
-- - Map: `SkipMap` and the reads of nodes; `VersionedEntryRef` (src/map/entry.rs). Map/Repr says which
--   list of cells a map stands for.
-- - Search: `find_near`, `gt`, `ge`, `lt`, `le`, the walks over versions, `first_in`, `last_in`
--   (src/map.rs) and `get` (src/map/api.rs). Search/Near, Towers, Get, Versions, From and Bounds
--   follow them on the list of cells.
-- - Iterator: `AllVersionsIter` (src/map/iterator/all_versions.rs) and what the map makes of it
--   (src/map/api.rs). Iterator/Traits has its traits and getters, Iterator/Walk, Next, Prev and Collect
--   what it yields, Iterator/Seek/Lower the seek of `lower_bound`.
-- - Iter: `Iter` (src/map/iterator/iter.rs), an iterator that shows the latest versions only.
-- - Capacity: `check_capacity` and `check_node_size` (src/map.rs).
-- - Splice: `find_splice`, `find_splice_for_level`, `key_is_after_node` (src/map.rs).
-- - Link: the loop of `update` over the levels of the tower of a new node (src/map.rs). Link/Preserve
--   follows it for a thread that meets no other. Link/Race has several threads in the loop at once,
--   one access to a link at a time: Link/Race/Places, State and Acts say what a thread knows and what
--   each access does, Wins what a won exchange does, Turns and Keeps follow the turns.
-- - Attempt: operations on a state that may fail, with early returns, for what follows.
-- - Alloc, Alloc/Nodes: `allocate_entry_node`, `allocate_node`, `allocate_key_node`,
--   `allocate_value_node`, `fill_vacant_key`, `fill_vacant_value`, `fetch_vacant_key`, `new_node`,
--   `Deallocator::dealloc` (src/map.rs). Node/Allocator says what an allocator keeps, Alloc/Owned
--   which memory a map has in use; Alloc/Fill, Alloc/Made, Alloc/Outcome and Alloc/Removed
--   follow an allocation, Alloc/Reason says why one is refused.
-- - Value: `AtomicValuePointer`, `get_value`, `set_value`, `clear_value` (src/map.rs). Value/Lone, Sets,
--   Exchange, Exchanged and Overwrite follow `set_value` on a node of the list, Clear follows
--   `clear_value`, Map/Revalue the cell.
-- - Update: `update` and `upsert` (src/map.rs), from the search to the header. Update/NewNode,
--   Update/Cell and Update/Insert follow an insertion through it, Update/Present an entry that is
--   found, Update/Overwrite one that is replaced, Update/Clear one that is removed.
-- - Create: `new_in`, `allocate_meta`, `allocate_full_node`, `get_pointers`, `construct` (src/map.rs),
--   and `clear` (src/map/api.rs); Create/Open, the constructors, Create/Ways, those with defaults.
--   Create/Ends, Create/Empty and Create/NewIn follow the making of an empty map.
-- - Api: the operations of `SkipMap` (src/map/api.rs) on top of `update` and of the searches, and its
--   getters (Api/Getters).
-- - Entry: references to entries, their order (Entry/Laws), and owned entries (Entry/Owned), as in
--   src/map/entry.rs; Entry/Types, Borrowed, Versioned and Whole are `EntryRef`, `VersionedEntry` and
--   `Entry`.
-- - Spec: a map as the ordered list of the items it holds, which forgets where they lie.
--   Spec/Insert, Spec/Remove, Spec/Present, Spec/Overwrite, Spec/Clear and Spec/Read relate `insert`,
--   `get_or_insert`, `get_or_remove`, `compare_remove` and `get` to it, Spec/Settle and Spec/Runs a run
--   of calls.
-- - Tests: concrete data at which the theorems apply.
--
-- An operation of Api runs `update`: the search of Splice, the allocation of Alloc, the loop of Link,
-- and the header of Meta. What the node, its key and its value occupy comes from the arena; `IsOwned`
-- says that the memory of the cells is in use, so that a later block cannot overlap it.
--
-- A node pointer is an offset, and 0 is the null pointer. Memory is typed: what lies at an offset is a
-- node, a link, a trailer or a byte, and a read of anything else is a fault. Loops run on fuel:
-- `rounds`, the number of entries plus the height plus 2, for the loops over nodes and levels, since
-- each round moves to another node or to a lower level. `Map.Repr.IsRepr` relates a map in memory to
-- the list of its cells. Numbers are natural numbers; words wrap where the source wraps.
-- When the block of a trailer and a value is given back (`give_back_value`), its trailer is lost and
-- its bytes become what the allocator leaves there, since a free list may lie in it. Blocks given
-- back on an error path were not yet reachable from the list, and keep their contents in the model.
-- A reference to an entry holds what was read when it was made.
--
-- What other threads do enters at three places: between a read of a value and its exchange (an
-- argument of Update), between the turns of the version and height loops, and between the accesses to
-- links of threads that link their nodes on the base level (both a schedule). The definitions of Link
-- cover the retry after an exchange that another thread has won, on every level; the theorem of
-- Link/Preserve is for a thread that meets no other, and so are the theorems of Spec. The threads of
-- Link/Race do not replace their own key by a stored one, since that touches no link.
--
-- Not modelled: the allocator crate rarena-allocator, with its free lists; how files are opened and
-- mapped, `flush` and `flush_async`, which are I/O; the message texts of errors. Modelled
-- without theorems: the inserter with cached splices, the seeks downward, the operations with keys that
-- the caller writes into the arena.
pub mod Prelude
pub mod Codec
pub mod Comparator
pub mod Entry
pub mod Height
pub mod Options
pub mod Alloc
pub mod Attempt
pub mod Buffer
pub mod Meta
pub mod Node
pub mod Map
pub mod Search
pub mod Splice
pub mod Key
pub mod Link
pub mod Iterator
pub mod Iter
pub mod Capacity
pub mod Update
pub mod Value
pub mod Create
pub mod Api
pub mod Spec
mod Tests
