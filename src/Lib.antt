-- ===== src/Lib.antt =====
-- A model of the size classes, the flat bitmap, the hugepages with the handlers that allocate from
-- them, the cache bins, the small extent cache, the radix tree of pages, the pairing heap and
-- the buffered writer of jemalloc, in C.
--
-- The program. A request of `size` bytes is rounded up to a size class. The table of size
-- classes is computed once (src/sc.c); from it src/sz.c fills lookup tables at boot, and
-- include/jemalloc/internal/sz.h answers index, size, usable size and aligned usable size, by
-- the tables for small sizes and by computation, over the logarithms of
-- include/jemalloc/internal/bit_util.h, for the rest. The pages of a slab or of a hugepage are
-- tracked by the flat bitmap of include/jemalloc/internal/fb.h; src/hpdata.c keeps two of them
-- per hugepage, the active pages and the touched ones, with counts and the longest free range
-- beside them. The handlers of src/hpa.c reserve a batch of ranges, or free one, between the begin
-- and the end of an update of the hugepage in src/psset.c, which asserts at its end that counts,
-- bitmaps and flags agree. The cache bins of include/jemalloc/internal/cache_bin.h stand before all
-- this: small stacks of freed pointers, one per size class and thread. A pointer that is freed is
-- looked up in the radix tree of include/jemalloc/internal/rtree.h, which holds the metadata of every
-- page, through two caches of the thread. Free extents are kept in pairing heaps
-- (include/jemalloc/internal/ph.h), whose insertions put off merging, and small ones in the cache of
-- src/sec.c, which stands in shards between the arenas and the allocators of pages. What is printed
-- of all this goes through the buffered writer of src/buf_writer.c.
--
-- Files.
-- - Base.antt: numbers, Boolean tests, native lists (Base/Tests, Base/Lists), 64-bit words
--   (Base/Word), bits of a word (Base/Bits), arrays (Base/Arrays).
-- - BitUtil.antt: `fls_u64`, `pow2_ceil_u64`, `lg_floor`, `lg_ceil` of bit_util.h;
--   BitUtil/Lg.antt holds what they return.
-- - Sc.antt: `reg_size_compute`, `slab_size`, `size_class` of src/sc.c; Sc/Params.antt: the
--   constants of include/jemalloc/internal/sc.h; Sc/Build.antt: `size_classes` with its loops,
--   `sc_data_init` and the updates of slab sizes; Sc/Slab.antt: the slab size loop.
-- - Sz.antt: the computing functions of sz.h; Sz/Table.antt: the tables that `sz_boot` fills
--   and the functions that read them; Sz/Align.antt: `sz_sa2u` and the page quantizers. The
--   proofs stand in Sz/Lg (logarithms of a size in its group), Sz/Search (closed checks over
--   all classes), Sz/Index, Sz/Usable, Sz/Page, Sz/Page/Usable, Sz/Table/Agree,
--   Sz/Align/Classes, Sz/Align/Usable, Sz/Align/Quantize.
-- - Fb.antt: fb.h; Fb/Groups.antt: the operations on one group. Proofs: Fb/Assign (range
--   writes), Fb/Count (population counts), Fb/Total (counts after a range write), Fb/Find,
--   Fb/Forward and Fb/Backward (searching), Fb/Range and Fb/Longest (ranges), Fb/Clean (lengths
--   and bits past the end).
-- - Hpdata.antt: `hpdata_s`, its initialization, unreserving and hugification, of src/hpdata.c
--   and include/jemalloc/internal/hpdata.h; Hpdata/Offsets.antt: the batched reservation;
--   Hpdata/Purge.antt: the purge state. Proofs: Hpdata/Counts and Hpdata/Keep (the counts and
--   the bitmaps), Hpdata/Carve (the offsets found), Hpdata/Trace (how they come about),
--   Hpdata/Progress (the bits while they are taken), Hpdata/Post (the search for the longest
--   range), Hpdata/Merge (the longest free range), Hpdata/Consistent (`hpdata_consistent`).
-- - Psset.antt: what an update in src/psset.c does to the metadata of a hugepage; Psset/Update.antt
--   holds its proofs.
-- - Hpa.antt: a batch of allocations from one hugepage, of src/hpa.c; Hpa/Eligible.antt: which
--   hugepages may be purged or hugified; Hpa/Shard.antt: the handlers for a batch and for a
--   deallocation. Proofs: Hpa/Undo (a reservation that is undone), Hpa/Taken and Hpa/Batch (the
--   loop), Hpa/Alloc (the batch), Hpa/Settle (the eligibility), Hpa/Handlers (the handlers).
-- - CacheBin.antt: the operations of include/jemalloc/internal/cache_bin.h, over
--   CacheBin/Cells.antt, the memory; CacheBin/Layout.antt: src/cache_bin.c and the layout that
--   `tcache_init` of src/tcache.c makes. CacheBin/Steps.antt puts the operations in one step
--   function, CacheBin/Spec.antt is the bounded stack that they stand for. Proofs:
--   CacheBin/Held (memory), CacheBin/Refine (the 16-bit words), CacheBin/Take, CacheBin/Batch
--   and CacheBin/Run (the refinement), CacheBin/Conserve (no pointer lost).
-- - Rtree.antt: the radix tree of rtree.h and src/rtree.c, with the caches of
--   include/jemalloc/internal/rtree_tsd.h; Rtree/Packed.antt: the packed element of a leaf. Proofs:
--   Rtree/Coherent (the caches), Rtree/View (what the tree holds), Rtree/Access (reading and writing),
--   Rtree/Range (ranges).
-- - Ph.antt: ph.h. Proofs: Ph/Order (merging), Ph/Heap (the heap order), Ph/Remove, Ph/Insert.
-- - Sec.antt: a bin of the small extent cache, of src/sec.c and include/jemalloc/internal/sec.h;
--   Sec/Shards.antt: the operations over the shards. Proofs: Sec/Account (byte counts), Sec/Bins and
--   Sec/Fill (the bins), Sec/Whole and Sec/Picked (all bins), Sec/Run (runs), Sec/Init.
-- - BufWriter.antt: src/buf_writer.c. Proofs: BufWriter/Output (the copying), BufWriter/Pipe (what is
--   read), BufWriter/Session (from the initialization to the end).
-- - Div.antt: src/div.c and include/jemalloc/internal/div.h; its proof is Div/Exact.
-- - ExpGrow.antt: src/exp_grow.c and include/jemalloc/internal/exp_grow.h; its proof is
--   ExpGrow/Series.
-- The modules named Tests run the definitions and apply the theorems at concrete values.
--
-- How the model reads the code.
-- - Sizes are native numbers; an operation on `size_t` wraps at `2 ^ 64` where it can wrap. A
--   mask with a power of two is a division or a remainder by it, `x << n` is `x * 2 ^ n`
--   modulo `2 ^ 64`. An `int` that a `size_t` is converted to is its 32 bits.
-- - The constants are those of a 64-bit system with pages of 4096 bytes and a quantum of 16
--   (LG_PAGE 12, LG_QUANTUM 4, LG_SIZEOF_PTR 3); Sc.antt and Sc/Build.antt take them as
--   parameters.
-- - A group of the flat bitmap is a function from a bit's place to its value, with zeros from
--   place 64 on; a bitmap is the list of its groups. A function that writes a bitmap returns
--   the new one.
-- - The visitor's `void *ctx` is a state of the visitor's own type that is passed along.
-- - A result of -1 of a backward search is `none`.
-- - Loops whose end is not the end of a list run on fuel: the slab loop on as many rounds as
--   the region size has bytes, which `Sc.Slab` shows to be enough; the visit of a range on one
--   round more than it has bits, and the search for the longest range on one round per bit,
--   which are enough since every round takes at least a bit; the loops of src/hpdata.c over
--   ranges of pages on one round per page, which `Hpdata.Carve` shows to be enough for the
--   offsets; the loop of `exp_grow_size_prepare` on one round per page size class, which
--   `ExpGrow.Series` shows to be enough.
-- - A hugepage has 512 pages (2 MB). An operation on an `hpdata_t *` returns the new record; the
--   addresses are words.
-- - The memory under a cache bin is a function from addresses to the pointers stored there.
--   What the arena does between the begin and the end of a fill or a flush (it writes or reads
--   the pointers of the array) stands in the step function. `safety_check_fail` is an outcome
--   of its own.
-- - What `edata_cache_fast_get` and `emap_register_boundary` answer in a batch are arbitrary
--   functions, of the number of the offset and of the address.
-- - The radix tree is that of x86_64 with addresses of 48 bits: two levels (RTREE_HEIGHT 2) and compact
--   leaves with 49 bits of an address. `|` of disjoint fields is a sum. A leaf is its address, and what
--   `base_alloc_rtree` returns is an argument, 0 on failure. The tree is read by one thread at a time.
-- - The nodes of a pairing heap are a binary tree over `lchild` and `next`; the links `prev` go back
--   along these, so a node to remove is named by its path from the root. The caller's comparison is a
--   parameter. The FIFO of `phn_merge_siblings` runs on a round per element, which `Ph.Order` shows to
--   be enough, and `ffs_zu` on the 64 places of a word.
-- - A call of the small extent cache runs alone; which of the locks it tries are held by other threads is
--   an arbitrary function of the round. A list's end is the head of the reversed list.
-- - The buffer of the buffered writer is the list of its characters below `buf_end`; the copying loop runs
--   on a round per character, which `BufWriter.Output` shows to be enough. `read_cb` is a parameter, on
--   which `IsReader` says what is relied on; the loop of `buf_writer_pipe` runs on a round for each
--   character to be read and one more, which `BufWriter.Pipe` shows to be enough.
-- - Assertions are hypotheses of the theorems.
--
-- Not modelled: `hpdata_reserve_alloc`, which only tests use; the branches of bit_util.h for
-- compilers without builtins, the configurations with other constants, and the parts of the
-- allocator above the hugepage: the heaps and lists of the page slab set, arenas, the rest of the
-- thread cache, the extents, the profiling, the control interface, and what calls the operating
-- system. Of the pairing heap, the enumeration; of the radix tree, the nodes of other heights and
-- leaves of two words; of the small extent cache, the picking of a shard and the merging of
-- statistics.
pub mod Base
pub mod BitUtil
pub mod Sc
pub mod Sz
pub mod Fb
pub mod Hpdata
pub mod CacheBin
pub mod Hpa
pub mod Psset
pub mod Div
pub mod ExpGrow
pub mod Rtree
pub mod Sec
pub mod BufWriter
pub mod Ph
