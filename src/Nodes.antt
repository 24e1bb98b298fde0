-- ===== src/Nodes.antt =====
-- The chained nodes that both hash tables are made of, `struct node` of src/hashmap/hashmap.h and
-- `struct node_GC` of src/runtime/internals/hashmap/hashmap.h: the walks over a chain, and an array
-- of chains indexed by a hash's low digits. Keys and values are `void *`, here addresses with 0 for
-- null; a node is found by its 64-bit hash alone.
pub mod Chain
pub mod Buckets
