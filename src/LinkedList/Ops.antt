-- ===== src/LinkedList/Ops.antt =====
-- The functions of base/linked_list.c. `fresh` is what `al_mem_alloc` answers to the one
-- allocation of a call. A loop runs on fuel; its caller gives it one round more than the list
-- has items.
use aio_server.Base.{
  ℕ, zero, suc, ◌+◌, ◌-◌, ◌%◌, Bool, not, Option, none, some, is_zero, ◌==◌, if◌then◌else◌,
}
use aio_server.LinkedList.Heap.{
  Ptr, null, size_mod, LinkDirection, left_link, right_link, opposite, ListNode, ItemComparator,
  DlinkedList, dl_storage, bugstop, out_of_fuel, Cmd, pure, ◌>>=◌, ◌>>◌, bugstop_if, load_link,
  load_data, store_link, store_node, release_node, load_list, store_list, release_list,
}

-- The fields of a new node, whose link to `side` is `after` and whose other link is `refnode`.
abbrev pub new_node : LinkDirection → Ptr → Ptr → Ptr → ListNode
new_node left_link refnode after item = record { prev = after; next = refnode; n_data = item }
new_node right_link refnode after item = record { prev = refnode; next = after; n_data = item }

-- `++list->dl_items`
unfoldable pub increment_items : Ptr → Cmd (Unit {0})
unfolding load_list store_list
increment_items l = do
  x ← load_list l
  store_list l (record x { dl_items = (x.dl_items + 1) % size_mod })

-- `--list->dl_items`
unfoldable pub decrement_items : Ptr → Cmd (Unit {0})
unfolding load_list store_list
decrement_items l = do
  x ← load_list l
  store_list l (record x { dl_items = (x.dl_items + size_mod - 1) % size_mod })

unfoldable pub dlinked_list_internal_insert_node : Ptr → Ptr → Ptr → LinkDirection → Ptr → Cmd Ptr
dlinked_list_internal_insert_node l item refnode side fresh =
    if fresh == null then pure null else do
      after ← load_link side refnode
      store_node fresh (new_node side refnode after item)
      neighbour ← load_link side refnode
      store_link (opposite side) neighbour fresh
      store_link side refnode fresh
      increment_items l
      load_data fresh

unfoldable pub dlinked_list_internal_remove_node : Ptr → Ptr → Cmd Ptr
dlinked_list_internal_remove_node l p = do
  x ← load_list l
  bugstop_if (p == x.dl_sentinel)
  bugstop_if (x.dl_items == 0)
  right ← load_link right_link p
  left ← load_link left_link p
  store_link left_link right left
  left' ← load_link left_link p
  right' ← load_link right_link p
  store_link right_link left' right'
  d ← load_data p
  release_node p
  decrement_items l
  pure d

-- `al` is null where the default allocator is asked for, whose address is `default_al`.
unfoldable pub dlist_create : Option ItemComparator → Ptr → Ptr → Ptr → Ptr → Cmd Ptr
dlist_create none al userdata default_al fresh = λ _. bugstop
dlist_create (some cmp) al userdata default_al fresh = if fresh == null then pure null else do
  store_list fresh (record {
    dl_comparator = cmp;
    dl_allocator = if al == null then default_al else al;
    dl_sentinel = dl_storage fresh;
    dl_items = 0;
    dl_userdata = userdata;
  })
  store_node (dl_storage fresh)
      (record { prev = dl_storage fresh; next = dl_storage fresh; n_data = null })
  pure fresh

unfoldable pub dlist_push_head : Ptr → Ptr → Ptr → Cmd Ptr
dlist_push_head l item fresh = do
  bugstop_if (l == null)
  bugstop_if (item == null)
  x ← load_list l
  refnode ← load_link right_link x.dl_sentinel
  dlinked_list_internal_insert_node l item refnode left_link fresh

unfoldable pub dlist_push_tail : Ptr → Ptr → Ptr → Cmd Ptr
dlist_push_tail l item fresh = do
  bugstop_if (l == null)
  bugstop_if (item == null)
  x ← load_list l
  refnode ← load_link left_link x.dl_sentinel
  dlinked_list_internal_insert_node l item refnode right_link fresh

-- The two pops differ only in the side of the sentinel at which they take the node.
pop_at : LinkDirection → Ptr → Cmd Ptr
pop_at side l = do
  x ← load_list l
  p ← load_link side x.dl_sentinel
  if not (p == x.dl_sentinel)
      then dlinked_list_internal_remove_node l p
      else (bugstop_if (not (x.dl_items == 0)) >> pure null)

unfoldable pub dlist_pop_head : Ptr → Cmd Ptr
unfolding pop_at
dlist_pop_head = pop_at right_link

unfoldable pub dlist_pop_tail : Ptr → Cmd Ptr
unfolding pop_at
dlist_pop_tail = pop_at left_link

-- `list->dl_comparator(curr_node->n_data, item, list->dl_userdata) == 0`
abbrev pub is_match : DlinkedList → Ptr → Ptr → Bool
is_match x item d = is_zero (x.dl_comparator d item x.dl_userdata)

unfoldable pub find_loop : ℕ → DlinkedList → Ptr → Ptr → Cmd Ptr
find_loop zero x item curr = λ _. out_of_fuel
find_loop (suc k) x item curr = if curr == x.dl_sentinel then pure null else do
  d ← load_data curr
  if is_match x item d
      then load_data curr
      else do next ← load_link right_link curr; find_loop k x item next

unfoldable pub dlist_find : Ptr → Ptr → Cmd Ptr
dlist_find l item = do
  bugstop_if (l == null)
  bugstop_if (item == null)
  x ← load_list l
  curr ← load_link right_link x.dl_sentinel
  find_loop (x.dl_items + 1) x item curr

unfoldable pub remove_loop : ℕ → Ptr → DlinkedList → Ptr → Ptr → Cmd Ptr
remove_loop zero l x item curr = λ _. out_of_fuel
remove_loop (suc k) l x item curr = if curr == x.dl_sentinel then pure null else do
  d ← load_data curr
  if is_match x item d
      then dlinked_list_internal_remove_node l curr
      else do next ← load_link right_link curr; remove_loop k l x item next

unfoldable pub dlist_remove_item : Ptr → Ptr → Cmd Ptr
dlist_remove_item l item = do
  bugstop_if (l == null)
  bugstop_if (item == null)
  x ← load_list l
  curr ← load_link right_link x.dl_sentinel
  remove_loop (x.dl_items + 1) l x item curr

-- `fn_for_each` acts on a state of its own, and is given the item, the list's user data and
-- `walk_data`.
module _ {S : Type 0} (fn_for_each : S → Ptr → Ptr → Ptr → S) (walk_data : Ptr) where
  unfoldable pub for_each_loop : ℕ → DlinkedList → Ptr → S → Cmd S
  for_each_loop zero x curr s = λ _. out_of_fuel
  for_each_loop (suc k) x curr s = if curr == x.dl_sentinel then pure s else do
    d ← load_data curr
    next ← load_link right_link curr
    for_each_loop k x next (fn_for_each s d x.dl_userdata walk_data)

  unfoldable pub dlist_for_each : Ptr → S → Cmd S
  dlist_for_each l s = do
    bugstop_if (l == null)
    x ← load_list l
    curr ← load_link right_link x.dl_sentinel
    for_each_loop (x.dl_items + 1) x curr s

unfoldable pub destroy_loop : ℕ → DlinkedList → Ptr → Cmd (Unit {0})
destroy_loop zero x curr = λ _. out_of_fuel
destroy_loop (suc k) x curr =
    if curr == x.dl_sentinel
    then pure tt
    else do next ← load_link right_link curr; release_node curr; destroy_loop k x next

unfoldable pub dlist_destroy : Ptr → Cmd (Unit {0})
dlist_destroy l = do
  bugstop_if (l == null)
  x ← load_list l
  curr ← load_link right_link x.dl_sentinel
  destroy_loop (x.dl_items + 1) x curr
  release_list l

unfoldable pub dlist_size : Ptr → Cmd ℕ
dlist_size l = do x ← load_list l; pure x.dl_items
