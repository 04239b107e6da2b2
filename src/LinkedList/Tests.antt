-- ===== src/LinkedList/Tests.antt =====
-- The theorems on base/linked_list.c at a list of two items in a concrete memory.
use aio_server.Base.{
  ℕ, ◌+◌, ◌≡◌, refl, none, some, [], ◌∷◌, arith, ◌==◌, if◌then◌else◌, pos, negsuc, ltb, ◌||◌,
}
use mathlib.Core.List.{foldl}
use aio_server.LinkedList.Heap.{
  Ptr, ItemComparator, DlinkedList, Heap, link_at, data_at, dl_storage, ok,
}
use aio_server.LinkedList.Ring.{Cells, IsList, items, occurs}
use aio_server.LinkedList.Push.{Pushes, push_head-cons, push_tail-snoc}
use aio_server.LinkedList.Pop.{Removes, pop_head-cons, pop_tail-snoc}
use aio_server.LinkedList.Search.{first_match, find-first_match, for_each-foldl}
use aio_server.LinkedList.Erase.{Erases, remove_item-Erases}
use aio_server.LinkedList.Destroy.{destroy-frees}
use aio_server.LinkedList.Ops.{
  is_match, dlist_push_head, dlist_push_tail, dlist_pop_head, dlist_pop_tail, dlist_find,
  dlist_remove_item, dlist_for_each, dlist_destroy,
}

-- Items compare by their numbers.
abbrev by_number : ItemComparator
by_number a b user = if a == b then pos 0 else if ltb b a then pos 1 else negsuc 0

abbrev two : DlinkedList
two = record {
  dl_comparator = by_number;
  dl_allocator = 9;
  dl_sentinel = 120;
  dl_items = 2;
  dl_userdata = 0;
}

abbrev two_cells : Cells
two_cells = (5, 50) ∷ (6, 60) ∷ []

abbrev memory : Heap
memory = record {
  node = λ a.
      if a == 120
      then some (record { prev = 6; next = 5; n_data = 0 })
      else if a == 5
      then some (record { prev = 120; next = 6; n_data = 50 })
      else if a == 6
      then some (record { prev = 5; next = 120; n_data = 60 })
      else none;
  list = λ a. if a == 100 then some two else none;
}

two-IsList : IsList memory 100 two two_cells
unfolding link_at data_at
two-IsList = record {
  handle = λ e. omega (arith, e);
  object = refl;
  storage = refl;
  count = refl;
  fits = omega arith;
  ring = (
    record { forth = refl; back = refl },
    refl,
    (record { forth = refl; back = refl }, refl, record { forth = refl; back = refl }),
  );
  apart = refl;
  distinct = (refl, (refl, tt));
}

abbrev empty : DlinkedList
empty = record two { dl_items = 0 }

abbrev empty_memory : Heap
empty_memory = record {
  node = λ a. if a == 120 then some (record { prev = 120; next = 120; n_data = 0 }) else none;
  list = λ a. if a == 100 then some empty else none;
}

empty-IsList : IsList empty_memory 100 empty []
unfolding link_at
empty-IsList = record {
  handle = λ e. omega (arith, e);
  object = refl;
  storage = refl;
  count = refl;
  fits = omega arith;
  ring = record { forth = refl; back = refl };
  apart = refl;
  distinct = tt;
}

push_head-cons_example :
    Pushes (dlist_push_head 100 70 7 memory) memory 100 two ((7, 70) ∷ two_cells) 70
push_head-cons_example =
    push_head-cons 70 7 two-IsList (λ e. omega (arith, e)) (λ e. omega (arith, e)) refl
      (omega arith)

push_tail-snoc_example :
    Pushes (dlist_push_tail 100 70 7 memory) memory 100 two ((5, 50) ∷ (6, 60) ∷ (7, 70) ∷ []) 70
push_tail-snoc_example =
    push_tail-snoc 70 7 two-IsList (λ e. omega (arith, e)) (λ e. omega (arith, e)) refl
      (omega arith)

pop_head-cons_example : Removes (dlist_pop_head 100 memory) memory 100 two [] 5 50 ((6, 60) ∷ [])
pop_head-cons_example = pop_head-cons ((6, 60) ∷ []) 5 50 two-IsList

pop_tail-snoc_example : Removes (dlist_pop_tail 100 memory) memory 100 two ((5, 50) ∷ []) 6 60 []
pop_tail-snoc_example = pop_tail-snoc ((5, 50) ∷ []) 6 60 two-IsList

find-first_match_example :
    dlist_find 100 60 memory ≡ ok (first_match (is_match two 60) two_cells) memory
find-first_match_example = find-first_match memory two 60 two-IsList (λ e. omega (arith, e))

remove_item-Erases_example :
    Erases (dlist_remove_item 100 60 memory) memory 100 two (is_match two 60) [] two_cells
remove_item-Erases_example = remove_item-Erases memory 100 two 60 two-IsList (λ e. omega (arith, e))

-- The sum of the items and of the data of the walk.
abbrev add_item : ℕ → Ptr → Ptr → Ptr → ℕ
add_item s d user walk = s + d + walk

for_each-foldl_example :
    dlist_for_each add_item 1 100 0 memory
    ≡ ok (foldl (λ s d. add_item s d 0 1) 0 (items two_cells)) memory
for_each-foldl_example = for_each-foldl add_item 1 memory two 0 two-IsList

destroy-frees_example :
    (g : Heap) × (dlist_destroy 100 memory ≡ ok tt g)
    × ((p : Ptr)
        → g.node p ≡ (if p == dl_storage 100 || occurs p two_cells then none else memory.node p))
    × ((q : Ptr) → g.list q ≡ (if q == 100 then none else memory.list q))
destroy-frees_example = destroy-frees two-IsList
