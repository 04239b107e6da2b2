-- ===== src/LinkedList/Access.antt =====
-- What the reads and writes of nodes and list objects do, by what the links and the data are.
use aio_server.Base.{◌≡◌, refl, ◌≢◌, Option, none, some, arith, ◌==◌, if◌then◌else◌}
use aio_server.LinkedList.Heap.{
  Ptr, LinkDirection, left_link, right_link, opposite, ListNode, n_link, with_link, DlinkedList,
  Heap, ok, link_at, data_at, load_link, load_data, store_link, release_node, put, load_list,
  put_list, release_list, dl_storage,
}

pub load_link-ok :
    (h : Heap) (d : LinkDirection) (p q : Ptr) → link_at h d p ≡ some q → load_link d p h ≡ ok q h
unfolding load_link
load_link-ok h d p q e = rw (e, load_link)

pub load_data-ok : (h : Heap) (p q : Ptr) → data_at h p ≡ some q → load_data p h ≡ ok q h
unfolding load_data
load_data-ok h p q e = rw (e, load_data)

pub load_list-ok :
    (h : Heap) (l : Ptr) (x : DlinkedList) → h.list l ≡ some x → load_list l h ≡ ok x h
unfolding load_list
load_list-ok h l x e = rw (e, load_list)

-- The heap after a write to the link of a node, and after that of a list object.
pub set_link : Heap → LinkDirection → Ptr → Ptr → Heap
set_link h d p q = elim (h.node p) [ none ↦ h | some n ↦ put h p (some (with_link d q n)) ]

pub store_link-set :
    (h : Heap) (d' : LinkDirection) (p z : Ptr) (d : LinkDirection) (q : Ptr)
    → link_at h d' p ≡ some z
    → store_link d p q h ≡ ok tt (set_link h d p q)
unfolding store_link set_link link_at
store_link-set h d' p z d q e = ground arith

module _ (h : Heap) (d' : LinkDirection) (p z q : Ptr) (e : link_at h d' p ≡ some z) where
  pub link_at-set_link_self :
      (d : LinkDirection) (a : Ptr)
      → link_at (set_link h d p q) d a ≡ (if a == p then some q else link_at h d a)
  unfolding link_at set_link put
  link_at-set_link_self left_link a = ground arith
  link_at-set_link_self right_link a = ground arith

  pub link_at-set_link-opposite :
      (d : LinkDirection) (a : Ptr)
      → link_at (set_link h d p q) (opposite d) a ≡ link_at h (opposite d) a
  unfolding link_at set_link put
  link_at-set_link-opposite left_link a = ground arith
  link_at-set_link-opposite right_link a = ground arith

  pub link_at-set_link_flip :
      (d : LinkDirection) (a : Ptr) → link_at (set_link h (opposite d) p q) d a ≡ link_at h d a
  unfolding link_at set_link put
  link_at-set_link_flip left_link a = ground arith
  link_at-set_link_flip right_link a = ground arith

  pub data_at-set_link : (d : LinkDirection) (a : Ptr) → data_at (set_link h d p q) a ≡ data_at h a
  unfolding link_at data_at set_link put
  data_at-set_link left_link a = ground arith
  data_at-set_link right_link a = ground arith

  pub node-set_link : (d : LinkDirection) (a : Ptr) → a ≢ p → (set_link h d p q).node a ≡ h.node a
  unfolding set_link put
  node-set_link d a ne = ground arith

pub list-set_link :
    (h : Heap) (d : LinkDirection) (p q a : Ptr) → (set_link h d p q).list a ≡ h.list a
unfolding set_link put
list-set_link h d p q a = ground arith

module _ (h : Heap) (p : Ptr) (n : ListNode) where
  pub link_at-put :
      (d : LinkDirection) (a : Ptr)
      → link_at (put h p (some n)) d a ≡ (if a == p then some (n_link d n) else link_at h d a)
  unfolding link_at put
  link_at-put d a = ground arith

  pub data_at-put :
      (a : Ptr) → data_at (put h p (some n)) a ≡ (if a == p then some n.n_data else data_at h a)
  unfolding data_at put
  data_at-put a = ground arith

module _ (h : Heap) (l : Ptr) (c : Option DlinkedList) where
  pub link_at-put_list :
      (d : LinkDirection) (a : Ptr) → link_at (put_list h l c) d a ≡ link_at h d a
  unfolding link_at put_list
  link_at-put_list d a = refl

  pub data_at-put_list : (a : Ptr) → data_at (put_list h l c) a ≡ data_at h a
  unfolding data_at put_list
  data_at-put_list a = refl

pub release_node-ok :
    (h : Heap) (d : LinkDirection) (p z : Ptr)
    → link_at h d p ≡ some z
    → release_node p h ≡ ok tt (put h p none)
unfolding release_node link_at
release_node-ok h d p z e = ground arith

module _ (h : Heap) (p a : Ptr) where
  pub link_at-put-none :
      (d : LinkDirection) → link_at (put h p none) d a ≡ (if a == p then none else link_at h d a)
  unfolding link_at put
  link_at-put-none d = ground arith

  pub data_at-put-none : data_at (put h p none) a ≡ (if a == p then none else data_at h a)
  unfolding data_at put
  data_at-put-none = ground arith

pub node-put :
    (h : Heap) (p a : Ptr) (c : Option ListNode)
    → (put h p c).node a ≡ (if a == p then c else h.node a)
unfolding put
node-put h p a c = refl

pub list-put : (h : Heap) (p a : Ptr) (c : Option ListNode) → (put h p c).list a ≡ h.list a
unfolding put
list-put h p a c = refl

pub release_list-ok :
    (h : Heap) (l : Ptr) (x : DlinkedList)
    → h.list l ≡ some x
    → release_list l h ≡ ok tt (put (put_list h l none) (dl_storage l) none)
unfolding release_list
release_list-ok h l x e = ground arith
