-- ===== src/LinkedList/Remove.antt =====
-- `dlinked_list_internal_remove_node`: the heap that it leaves.
use aio_server.Base.{
  ◌+◌, ◌-◌, ◌%◌, ◌≡◌, ◌∙◌, ◌≢◌, none, some, arith, ◌==◌, if◌then◌else◌, ne→==_false,
}
use aio_server.LinkedList.Heap.{
  Ptr, size_mod, left_link, right_link, DlinkedList, Heap, ok, link_at, data_at, put, put_list,
  load_list,
}
use aio_server.LinkedList.Access.{
  load_link-ok, load_data-ok, load_list-ok, set_link, store_link-set, link_at-set_link_self,
  link_at-set_link_flip, data_at-set_link, list-set_link, release_node-ok, link_at-put-none,
  data_at-put-none,
}
use aio_server.LinkedList.Ops.{decrement_items, dlinked_list_internal_remove_node}
use aio_server.LinkedList.Ring.{Edge}
use aio_server.LinkedList.Splice.{IsUnspliced}

abbrev pub decremented : DlinkedList → DlinkedList
decremented x = record x { dl_items = (x.dl_items + size_mod - 1) % size_mod }

decrement_items-ok :
    (h : Heap) (l : Ptr) (x : DlinkedList)
    → h.list l ≡ some x
    → decrement_items l h ≡ ok tt (put_list h l (some (decremented x)))
unfolding decrement_items
decrement_items-ok h l x e = rw (e, load_list)

-- The heap after each of the writes.
module _ (h : Heap) (l a n b : Ptr) (x : DlinkedList) where
  pub half_unlinked : Heap
  half_unlinked = set_link h left_link b a

  pub unlinked : Heap
  unfolding half_unlinked
  unlinked = set_link half_unlinked right_link a b

  pub removed : Heap
  unfolding unlinked
  removed = put_list (put unlinked n none) l (some (decremented x))

module _ (h : Heap) (l a n b d : Ptr) (x : DlinkedList) (before : Edge h a n) (behind : Edge h n b)
    (na : n ≢ a) (nb : n ≢ b) where
  abbrev h₁ : Heap
  h₁ = half_unlinked h l a n b x

  abbrev h₂ : Heap
  h₂ = unlinked h l a n b x

  right₁ : (p : Ptr) → link_at h₁ right_link p ≡ link_at h right_link p
  unfolding half_unlinked
  right₁ p = link_at-set_link_flip h left_link b n a behind.back right_link p

  left₁ : (p : Ptr) → link_at h₁ left_link p ≡ (if p == b then some a else link_at h left_link p)
  unfolding half_unlinked
  left₁ p = link_at-set_link_self h left_link b n a behind.back left_link p

  unlinked_right :
      (p : Ptr) → link_at h₂ right_link p ≡ (if p == a then some b else link_at h right_link p)
  unfolding unlinked
  unlinked_right p = ground (
    arith,
    link_at-set_link_self h₁ right_link a n b (right₁ a ∙ before.forth) right_link p,
    right₁ p,
  )

  unlinked_left :
      (p : Ptr) → link_at h₂ left_link p ≡ (if p == b then some a else link_at h left_link p)
  unfolding unlinked
  unlinked_left p =
      link_at-set_link_flip h₁ right_link a n b (right₁ a ∙ before.forth) left_link p ∙ left₁ p

  unlinked_data : (p : Ptr) → data_at h₂ p ≡ data_at h p
  unfolding unlinked
  unlinked_data p =
      data_at-set_link h₁ right_link a n b (right₁ a ∙ before.forth) right_link p
      ∙ data_at-set_link h left_link b n a behind.back left_link p

  unlinked_list : (p : Ptr) → (put h₂ n none).list p ≡ h.list p
  unfolding unlinked put
  unlinked_list p = list-set_link h₁ right_link a b p ∙ list-set_link h left_link b a p

  pub remove-removed :
      data_at h n ≡ some d
      → h.list l ≡ some x
      → n ≢ x.dl_sentinel
      → x.dl_items ≢ 0
      → dlinked_list_internal_remove_node l n h ≡ ok d (removed h l a n b x)
  unfolding dlinked_list_internal_remove_node removed
  remove-removed holds ex ns some_items = rw (
    load_list-ok h l x ex,
    ne→==_false n x.dl_sentinel ns,
    ne→==_false x.dl_items 0 some_items,
    load_link-ok h right_link n b behind.forth,
    load_link-ok h left_link n a before.back,
    store_link-set h left_link b n left_link a behind.back,
    load_link-ok h₁ left_link n a (ground (arith, left₁ n)),
    load_link-ok h₁ right_link n b (right₁ n ∙ behind.forth),
    store_link-set h₁ right_link a n right_link b (right₁ a ∙ before.forth),
    load_data-ok h₂ n d (unlinked_data n ∙ holds),
    release_node-ok h₂ right_link n b (ground (arith, unlinked_right n)),
    decrement_items-ok (put h₂ n none) l x (unlinked_list l ∙ ex),
  )

  pub removed-IsUnspliced : IsUnspliced h (removed h l a n b x) a n b
  unfolding removed put_list link_at data_at
  removed-IsUnspliced = record {
    forth = λ p ne. ground (arith, link_at-put-none h₂ n p right_link, unlinked_right p);
    back = λ p ne. ground (arith, link_at-put-none h₂ n p left_link, unlinked_left p);
    holds = λ p ne. ground (arith, data_at-put-none h₂ n p, unlinked_data p);
  }

  -- The node is given back.
  pub removed_node : (removed h l a n b x).node n ≡ none
  unfolding removed put_list put
  removed_node = ground arith

  pub removed_list :
      (p : Ptr) → (removed h l a n b x).list p ≡ (if p == l then some (decremented x) else h.list p)
  unfolding removed put_list
  removed_list p = ground (arith, unlinked_list p)
