-- ===== src/LinkedList/Search.antt =====
-- `dlist_find`, `dlist_remove_item`, `dlist_for_each` and `dlist_size` against the sequence of
-- the items. The fuel of each loop is one more than the number of nodes left.
use aio_server.Base.{
  ℕ, zero, suc, ◌+◌, ◌<◌, ◌≡◌, ◌≢◌, Bool, false, [], ◌∷◌, arith, ◌==◌, if◌then◌else◌, ◌||◌, length,
  ne→==_false, ==_refl, Bool-cases, inl, inr,
}
use mathlib.Core.List.{foldl}
use aio_server.LinkedList.Heap.{Ptr, null, right_link, DlinkedList, Heap, ok}
use aio_server.LinkedList.Access.{load_link-ok, load_data-ok, load_list-ok}
use aio_server.LinkedList.Ring.{Cells, ◌∉◌, items, first_of_cells, Way, Way-first, IsList}
use aio_server.LinkedList.Ops.{
  is_match, find_loop, dlist_find, for_each_loop, dlist_for_each, dlist_size,
}

-- The first item that a test accepts, null if there is none, and the nodes without it.
module _ (test : Ptr → Bool) where
  abbrev pub first_match : Cells → Ptr
  first_match [] = null
  first_match ((p, d) ∷ xs) = if test d then d else first_match xs

  abbrev pub any_match : Cells → Bool
  any_match [] = false
  any_match ((p, d) ∷ xs) = test d || any_match xs

  abbrev pub erase_match : Cells → Cells
  erase_match [] = []
  erase_match ((p, d) ∷ xs) = if test d then xs else (p, d) ∷ erase_match xs

module _ (h : Heap) (x : DlinkedList) (item : Ptr) where
  find_loop-first_match :
      (k : ℕ) (a : Ptr) (xs : Cells)
      → Way h a xs x.dl_sentinel
      → x.dl_sentinel ∉ xs
      → length xs < k
      → find_loop k x item (first_of_cells xs x.dl_sentinel) h
        ≡ ok (first_match (is_match x item) xs) h
  unfolding find_loop
  find_loop-first_match zero a xs w out fuel = absurd (omega arith)
  find_loop-first_match (suc k) a [] w out fuel = rw (==_refl x.dl_sentinel)
  find_loop-first_match (suc k) a ((p, d) ∷ xs) (e, v, w) out fuel =
      let s = x.dl_sentinel in
      let ps : (p == s) ≡ false = ground arith in
      rw (ps, load_data-ok h p d v)
        (elim (Bool-cases (is_match x item d)) [
          | inl hit ↦ rw (hit, load_data-ok h p d v)
          | inr miss ↦
              rw
                (
                  miss,
                  load_link-ok h right_link p (first_of_cells xs s) (Way-first h p xs s w).forth,
                )
                (find_loop-first_match k p xs w (ground arith) (omega arith))
        ])

  -- dlist_find with an item that is not null returns the first item of the sequence that compares
  -- equal, null if there is none, ends within one round more than the list has items, and changes
  -- nothing.
  pub find-first_match :
      {l : Ptr} {xs : Cells}
      → IsList h l x xs
      → item ≢ null
      → dlist_find l item h ≡ ok (first_match (is_match x item) xs) h
  unfolding dlist_find
  find-first_match {l} {xs} is real =
      let s = x.dl_sentinel in
      rw
        (
          ne→==_false l null is.handle,
          ne→==_false item null real,
          load_list-ok h l x is.object,
          load_link-ok h right_link s (first_of_cells xs s) (Way-first h s xs s is.ring).forth,
        )
        (find_loop-first_match (x.dl_items + 1) s xs is.ring is.apart (omega (arith, is.count)))

module _ {S : Type 0} (fn : S → Ptr → Ptr → Ptr → S) (walk_data : Ptr) (h : Heap)
    (x : DlinkedList) where
  for_each_loop-foldl :
      (k : ℕ) (a : Ptr) (xs : Cells) (s : S)
      → Way h a xs x.dl_sentinel
      → x.dl_sentinel ∉ xs
      → length xs < k
      → for_each_loop fn walk_data k x (first_of_cells xs x.dl_sentinel) s h
        ≡ ok (foldl (λ s d. fn s d x.dl_userdata walk_data) s (items xs)) h
  unfolding for_each_loop
  for_each_loop-foldl zero a xs s w out fuel = absurd (omega arith)
  for_each_loop-foldl (suc k) a [] s w out fuel = rw (==_refl x.dl_sentinel)
  for_each_loop-foldl (suc k) a ((p, d) ∷ xs) s (e, v, w) out fuel =
      let end = x.dl_sentinel in
      let ps : (p == end) ≡ false = ground arith in
      rw
        (
          ps,
          load_data-ok h p d v,
          load_link-ok h right_link p (first_of_cells xs end) (Way-first h p xs end w).forth,
        )
        (for_each_loop-foldl k p xs (fn s d x.dl_userdata walk_data) w (ground arith) (omega arith))

  -- dlist_for_each calls the function on the items of the sequence in order, with the list's user
  -- data and the data of the walk, ends within one round more than the list has items, and leaves
  -- the memory as it was.
  pub for_each-foldl :
      {l : Ptr} {xs : Cells} (s : S)
      → IsList h l x xs
      → dlist_for_each fn walk_data l s h
        ≡ ok (foldl (λ s d. fn s d x.dl_userdata walk_data) s (items xs)) h
  unfolding dlist_for_each
  for_each-foldl {l} {xs} s is =
      let end = x.dl_sentinel in
      rw
        (
          ne→==_false l null is.handle,
          load_list-ok h l x is.object,
          load_link-ok h right_link end (first_of_cells xs end)
              (Way-first h end xs end is.ring).forth,
        )
        (for_each_loop-foldl (x.dl_items + 1) end xs s is.ring is.apart (omega (arith, is.count)))

-- dlist_size returns the length of the sequence and changes nothing.
pub size-length :
    {h : Heap} {l : Ptr} {x : DlinkedList} {xs : Cells}
    → IsList h l x xs
    → dlist_size l h ≡ ok (length xs) h
unfolding dlist_size
size-length {h} {l} {x} is = rw (load_list-ok h l x is.object, is.count)
