-- ===== src/LinkedList/Heap.antt =====
-- The memory of base/linked_list.c: `struct list_node` and `struct dlinked_list` at addresses,
-- and commands that read and write them. The build is the one with `__DEBUG_ENABLED__`
-- (base/debug_helpers.h), where a `BUGSTOP_IF` whose condition holds stops the program.
use aio_server.Base.{ℕ, ◌+◌, ◌^◌, Bool, true, false, Option, none, some, ℤ, ◌==◌, if◌then◌else◌}

-- An address is a number, the null pointer 0.
abbrev pub Ptr : Type 0
Ptr = ℕ

-- The number of values of `size_t` on the 32-bit targets of the makefiles.
abbrev pub size_mod : ℕ
size_mod = 2 ^ 32

abbrev pub null : Ptr
null = 0

pub data LinkDirection : Type 0 where
  left_link right_link : LinkDirection

-- `!where`
abbrev pub opposite : LinkDirection → LinkDirection
opposite left_link = right_link
opposite right_link = left_link

-- `n_link[0]` is `prev` and `n_link[1]` is `next`.
pub record ListNode : Type 0 where
  pub prev : Ptr
  pub next : Ptr
  pub n_data : Ptr

abbrev pub n_link : LinkDirection → ListNode → Ptr
n_link left_link n = n.prev
n_link right_link n = n.next

abbrev pub with_link : LinkDirection → Ptr → ListNode → ListNode
with_link left_link q n = record n { prev = q }
with_link right_link q n = record n { next = q }

-- `item_comparator`: the two items and the list's user data.
abbrev pub ItemComparator : Type 0
ItemComparator = Ptr → Ptr → Ptr → ℤ

-- The allocator that a list keeps is an address here: what it answers is an argument of the
-- operations that allocate.
pub record DlinkedList : Type 0 where
  pub dl_comparator : ItemComparator
  pub dl_allocator : Ptr
  pub dl_sentinel : Ptr
  pub dl_items : ℕ
  pub dl_userdata : Ptr

-- `dl_storage`, the sentinel node inside the list object, behind its five fields of four bytes.
abbrev pub dl_storage : Ptr → Ptr
dl_storage l = l + 20

pub record Heap : Type 0 where
  pub node : Ptr → Option ListNode
  pub list : Ptr → Option DlinkedList

-- How a command ends: by a stop at a `BUGSTOP_IF`, at a free address, at the end of the fuel, or
-- with a result.
pub data Outcome (R : Type 0) : Type 0 where
  bugstop fault out_of_fuel : Outcome R
  ok : R → Heap → Outcome R

abbrev pub Cmd : Type 0 → Type 0
Cmd R = (h : Heap) → Outcome R

abbrev pub pure : {R : Type 0} → R → Cmd R
pure r h = ok r h

infixl 5 ◌>>=◌ ◌>>◌
abbrev pub continue_with : {R S : Type 0} → (R → Cmd S) → Outcome R → Outcome S
continue_with rest bugstop = bugstop
continue_with rest fault = fault
continue_with rest out_of_fuel = out_of_fuel
continue_with rest (ok r g) = rest r g

abbrev pub ◌>>=◌ : {R S : Type 0} → Cmd R → (R → Cmd S) → Cmd S
◌>>=◌ command rest h = continue_with rest (command h)

abbrev pub ◌>>◌ : {R S : Type 0} → Cmd R → Cmd S → Cmd S
◌>>◌ command next h = continue_with (λ r. next) (command h)

-- `BUGSTOP_IF`
abbrev pub bugstop_if : Bool → Cmd (Unit {0})
bugstop_if true h = bugstop
bugstop_if false h = ok tt h

-- What a read of a link or of the data at an address finds.
unfoldable pub link_at : Heap → LinkDirection → Ptr → Option Ptr
link_at h d p = elim (h.node p) [ none ↦ none | some n ↦ some (n_link d n) ]

unfoldable pub data_at : Heap → Ptr → Option Ptr
data_at h p = elim (h.node p) [ none ↦ none | some n ↦ some n.n_data ]

-- A read through an address that holds no node is a fault.
unfoldable pub load_link : LinkDirection → Ptr → Cmd Ptr
load_link d p h = elim (link_at h d p) [ none ↦ fault | some q ↦ ok q h ]

unfoldable pub load_data : Ptr → Cmd Ptr
load_data p h = elim (data_at h p) [ none ↦ fault | some q ↦ ok q h ]

unfoldable pub put : Heap → Ptr → Option ListNode → Heap
put h p c = record h { node = λ a. if a == p then c else h.node a }

-- `p->n_link[d] = q`
unfoldable pub store_link : LinkDirection → Ptr → Ptr → Cmd (Unit {0})
unfolding put
store_link d p q h = elim (h.node p) [
  | none ↦ fault
  | some n ↦ ok tt (put h p (some (with_link d q n)))
]

-- The memory of a new node, its fields not yet written (they are all written next).
unfoldable pub store_node : Ptr → ListNode → Cmd (Unit {0})
unfolding put
store_node p n h = ok tt (put h p (some n))

-- `al_mem_release` of a node
unfoldable pub release_node : Ptr → Cmd (Unit {0})
unfolding put
release_node p h = elim (h.node p) [ none ↦ fault | some n ↦ ok tt (put h p none) ]

-- The list object behind a handle.
unfoldable pub load_list : Ptr → Cmd DlinkedList
load_list l h = elim (h.list l) [ none ↦ fault | some x ↦ ok x h ]

unfoldable pub put_list : Heap → Ptr → Option DlinkedList → Heap
put_list h l c = record h { list = λ a. if a == l then c else h.list a }

unfoldable pub store_list : Ptr → DlinkedList → Cmd (Unit {0})
unfolding put_list
store_list l x h = ok tt (put_list h l (some x))

-- `al_mem_release` of a list object, its `dl_storage` included.
unfoldable pub release_list : Ptr → Cmd (Unit {0})
unfolding put put_list
release_list l h = elim (h.list l) [
  | none ↦ fault
  | some x ↦ ok tt (put (put_list h l none) (dl_storage l) none)
]
