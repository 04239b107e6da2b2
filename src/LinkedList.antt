-- ===== src/LinkedList.antt =====
-- base/linked_list.c: a doubly linked ring of nodes round a sentinel, on an explicit heap.
pub mod Access
pub mod Destroy
pub mod Erase
pub mod Gap
pub mod Heap
pub mod Insert
pub mod Ops
pub mod Pop
pub mod Push
pub mod Remove
pub mod Ring
pub mod Search
pub mod Splice
mod Tests
