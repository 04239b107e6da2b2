-- ===== src/LinkedList/Pop.antt =====
-- `dlist_pop_head` and `dlist_pop_tail` against the sequence of the items.
use aio_server.Base.{◌≡◌, ◌≢◌, none, [], ◌∷◌, ◌++◌, arith, length-append, ne→==_false, ==_refl}
use aio_server.LinkedList.Heap.{Ptr, null, left_link, right_link, DlinkedList, Heap, Outcome, ok}
use aio_server.LinkedList.Access.{load_link-ok, load_list-ok}
use aio_server.LinkedList.Ring.{Cells, first_of_cells, last_of_cells, Way-first, Way-split, IsList}
use aio_server.LinkedList.Splice.{occurs-append, occurs-last, occurs-first}
use aio_server.LinkedList.Remove.{
  decremented, removed, remove-removed, removed-IsUnspliced, removed_node, removed_list,
}
use aio_server.LinkedList.Gap.{
  IsDistinct-remove, IsSameOutside, IsUnspliced-IsList, IsUnspliced-IsSameOutside,
}
use aio_server.LinkedList.Ops.{dlinked_list_internal_remove_node, dlist_pop_head, dlist_pop_tail}

-- What the removal of the node `(n, d)` from `l ++ (n, d) ∷ r` leaves: the item is returned, the
-- node is given back, the list holds `l ++ r`, and nothing else has changed.
abbrev pub Removes : Outcome Ptr → Heap → Ptr → DlinkedList → Cells → Ptr → Ptr → Cells → Type 0
Removes run h lst x l n d r =
    (g : Heap) × (run ≡ ok d g)
    × IsList g lst (decremented x) (l ++ r)
    × (g.node n ≡ none)
    × IsSameOutside h g lst x.dl_sentinel (l ++ (n, d) ∷ r)

module _ {h : Heap} {lst : Ptr} {x : DlinkedList} (l r : Cells) (n d : Ptr)
    (is : IsList h lst x (l ++ (n, d) ∷ r)) where
  pub ne_sentinel : n ≢ x.dl_sentinel
  ne_sentinel e = ground (arith, is.apart, occurs-append x.dl_sentinel l ((n, d) ∷ r))

  ne_last : n ≢ last_of_cells l x.dl_sentinel
  ne_last e =
      let (di, out) = IsDistinct-remove l r n d is.distinct in
      ground (
        arith,
        occurs-last n l x.dl_sentinel (ne→==_false n x.dl_sentinel ne_sentinel)
            (ground (arith, occurs-append n l r)),
      )

  ne_first : n ≢ first_of_cells r x.dl_sentinel
  ne_first e =
      let (di, out) = IsDistinct-remove l r n d is.distinct in
      ground (
        arith,
        occurs-first n r x.dl_sentinel (ne→==_false n x.dl_sentinel ne_sentinel)
            (ground (arith, occurs-append n l r)),
      )

  -- Dlinked_list_internal_remove_node, given any node of a list, returns its item, gives the node
  -- back and leaves the sequence without it; nothing outside the list changes.
  pub remove_node-Removes : Removes (dlinked_list_internal_remove_node lst n h) h lst x l n d r
  remove_node-Removes =
      let s = x.dl_sentinel in
      let a = last_of_cells l s in
      let b = first_of_cells r s in
      let (before, holds, behind) = Way-split h s l r n d s is.ring in
      let e = Way-first h n r s behind in
      let un = removed-IsUnspliced h lst a n b d x before e ne_last ne_first in
      let lists = removed_list h lst a n b d x before e ne_last ne_first in
      (
        removed h lst a n b x,
        remove-removed h lst a n b d x before e ne_last ne_first holds is.object ne_sentinel
            (λ z. omega (arith, is.count, length-append {0} l ((n, d) ∷ r))),
        IsUnspliced-IsList l r n d is un (ground (arith, lists lst)),
        removed_node h lst a n b d x before e ne_last ne_first,
        IsUnspliced-IsSameOutside s l r n d lst x un lists,
      )

module _ {h : Heap} {lst : Ptr} {x : DlinkedList} (xs : Cells) (n d : Ptr) where
  -- dlist_pop_head on a list that is not empty returns the first item, gives its node back and
  -- leaves the rest of the sequence; nothing outside the list changes.
  pub pop_head-cons :
      IsList h lst x ((n, d) ∷ xs) → Removes (dlist_pop_head lst h) h lst x [] n d xs
  unfolding dlist_pop_head
  pop_head-cons is =
      let (g, e, left, gone, same) = remove_node-Removes [] xs n d is in
      (
        g,
        rw (
          load_list-ok h lst x is.object,
          load_link-ok h right_link x.dl_sentinel n is.ring.0.forth,
          ne→==_false n x.dl_sentinel (ne_sentinel [] xs n d is),
          e,
        ),
        left,
        gone,
        same,
      )

  -- dlist_pop_tail on a list that is not empty returns the last item, gives its node back and
  -- leaves the rest of the sequence; nothing outside the list changes.
  pub pop_tail-snoc :
      IsList h lst x (xs ++ (n, d) ∷ []) → Removes (dlist_pop_tail lst h) h lst x xs n d []
  unfolding dlist_pop_tail
  pop_tail-snoc is =
      let s = x.dl_sentinel in
      let (g, e, left, gone, same) = remove_node-Removes xs [] n d is in
      let (before, holds, behind) = Way-split h s xs [] n d s is.ring in
      (
        g,
        rw (
          load_list-ok h lst x is.object,
          load_link-ok h left_link s n behind.back,
          ne→==_false n s (ne_sentinel xs [] n d is),
          e,
        ),
        left,
        gone,
        same,
      )

-- A pop of an empty list returns null and changes nothing, at either end.
pop-nil :
    {h : Heap} {lst : Ptr} {x : DlinkedList}
    → IsList h lst x []
    → (dlist_pop_head lst h ≡ ok null h) × (dlist_pop_tail lst h ≡ ok null h)
unfolding dlist_pop_head dlist_pop_tail
pop-nil {h} {lst} {x} is =
    let s = x.dl_sentinel in
    (
      rw (
        load_list-ok h lst x is.object,
        load_link-ok h right_link s s is.ring.forth,
        ==_refl s,
        is.count,
      ),
      rw (
        load_list-ok h lst x is.object,
        load_link-ok h left_link s s is.ring.back,
        ==_refl s,
        is.count,
      ),
    )
