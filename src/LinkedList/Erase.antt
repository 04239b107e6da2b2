-- ===== src/LinkedList/Erase.antt =====
-- `dlist_remove_item` against the sequence of the items.
use aio_server.Base.{
  ℕ, zero, suc, ◌+◌, ◌<◌, ◌≡◌, refl, ◌≢◌, Bool, true, none, [], ◌∷◌, ◌++◌, arith, if◌then◌else◌,
  length, ne→==_false, ==_refl, Bool-cases, inl, inr, append_assoc,
}
use aio_server.LinkedList.Heap.{Ptr, null, right_link, DlinkedList, Heap, Outcome, ok}
use aio_server.LinkedList.Access.{load_link-ok, load_data-ok, load_list-ok}
use aio_server.LinkedList.Ring.{Cells, occurs, ◌∉◌, first_of_cells, Way-first, Way-split, IsList}
use aio_server.LinkedList.Splice.{occurs-append}
use aio_server.LinkedList.Remove.{decremented}
use aio_server.LinkedList.Gap.{IsSameOutside}
use aio_server.LinkedList.Pop.{remove_node-Removes, ne_sentinel}
use aio_server.LinkedList.Search.{first_match, any_match, erase_match}
use aio_server.LinkedList.Ops.{is_match, remove_loop, dlist_remove_item}

-- What is left where `ys` is left of the nodes `xs` of a list: the nodes that are gone are given
-- back, and nothing else has changed.
pub record IsLeft (h g : Heap) (lst : Ptr) (x y : DlinkedList) (xs ys : Cells) : Type 0 where
  pub list : IsList g lst y ys
  pub gone : (p : Ptr) → occurs p xs ≡ true → p ∉ ys → g.node p ≡ none
  pub same : IsSameOutside h g lst x.dl_sentinel xs

abbrev pub Erases : Outcome Ptr → Heap → Ptr → DlinkedList → (Ptr → Bool) → Cells → Cells → Type 0
Erases run h lst x test l r =
    (g : Heap) × (run ≡ ok (first_match test r) g)
    × IsLeft h g lst x (if any_match test r then decremented x else x) (l ++ r)
        (l ++ erase_match test r)

module _ (h : Heap) (lst : Ptr) (x : DlinkedList) (item : Ptr) where
  abbrev test : Ptr → Bool
  test = is_match x item

  remove_loop-Erases :
      (k : ℕ) (l r : Cells)
      → IsList h lst x (l ++ r)
      → length r < k
      → Erases (remove_loop k lst x item (first_of_cells r x.dl_sentinel) h) h lst x test l r
  unfolding remove_loop
  remove_loop-Erases zero l r is fuel = absurd (omega arith)
  remove_loop-Erases (suc k) l [] is fuel = (
    h,
    rw (==_refl x.dl_sentinel),
    record {
      list = is;
      gone = λ p i o. ground arith;
      same = record { lists = λ q ne. refl; links = λ d p ne out. refl; items = λ p ne out. refl };
    },
  )
  remove_loop-Erases (suc k) l ((p, d) ∷ r) is fuel =
      let s = x.dl_sentinel in
      let (before, holds, behind) = Way-split h s l r p d s is.ring in
      rw (ne→==_false p s (ne_sentinel l r p d is), load_data-ok h p d holds)
        (elim (Bool-cases (test d)) [
          | inl hit ↦
              let (g, e, left, gone, same) = remove_node-Removes l r p d is in
              rw hit (
                g,
                e,
                record {
                  list = left;
                  gone = λ q i o.
                      ground (arith, gone, occurs-append q l r, occurs-append q l ((p, d) ∷ r));
                  same = same;
                },
              )
          | inr miss ↦
              let next =
                load_link-ok h right_link p (first_of_cells r s) (Way-first h p r s behind).forth in
              let shifted : IsList h lst x ((l ++ (p, d) ∷ []) ++ r) =
                rw (append_assoc l ((p, d) ∷ []) r) is in
              let (g, e, left) = remove_loop-Erases k (l ++ (p, d) ∷ []) r shifted (omega arith) in
              rw (miss, next)
                (
                  g,
                  e,
                  rw
                      (
                        append_assoc l ((p, d) ∷ []) r,
                        append_assoc l ((p, d) ∷ []) (erase_match test r),
                      )
                      at left,
                )
        ])

  -- dlist_remove_item with an item that is not null returns the first item that compares equal,
  -- or null, takes out and gives back just the node of that item, and ends within one round more
  -- than the list has items; nothing outside the list changes.
  pub remove_item-Erases :
      {xs : Cells}
      → IsList h lst x xs
      → item ≢ null
      → Erases (dlist_remove_item lst item h) h lst x test [] xs
  unfolding dlist_remove_item
  remove_item-Erases {xs} is real =
      let s = x.dl_sentinel in
      rw
        (
          ne→==_false lst null is.handle,
          ne→==_false item null real,
          load_list-ok h lst x is.object,
          load_link-ok h right_link s (first_of_cells xs s) (Way-first h s xs s is.ring).forth,
        )
        (remove_loop-Erases (x.dl_items + 1) [] xs is (omega (arith, is.count)))
