-- ===== src/LinkedList/Insert.antt =====
-- `dlinked_list_internal_insert_node`: the heap that it leaves.
use aio_server.Base.{◌+◌, ◌%◌, ◌≡◌, ◌∙◌, ◌≢◌, some, arith, ◌==◌, if◌then◌else◌, ne→==_false}
use aio_server.LinkedList.Heap.{
  Ptr, null, size_mod, LinkDirection, left_link, right_link, opposite, DlinkedList, Heap, ok,
  link_at, data_at, put, put_list, store_node, load_list,
}
use aio_server.LinkedList.Access.{
  load_link-ok, load_data-ok, set_link, store_link-set, link_at-set_link_self,
  link_at-set_link-opposite, link_at-set_link_flip, data_at-set_link, list-set_link, link_at-put,
  data_at-put, data_at-put_list,
}
use aio_server.LinkedList.Ops.{new_node, increment_items, dlinked_list_internal_insert_node}
use aio_server.LinkedList.Ring.{Edge}
use aio_server.LinkedList.Splice.{IsSpliced}

abbrev pub incremented : DlinkedList → DlinkedList
incremented x = record x { dl_items = (x.dl_items + 1) % size_mod }

pub increment_items-ok :
    (h : Heap) (l : Ptr) (x : DlinkedList)
    → h.list l ≡ some x
    → increment_items l h ≡ ok tt (put_list h l (some (incremented x)))
unfolding increment_items
increment_items-ok h l x e = rw (e, load_list)

-- The heap after each of the writes.
module _ (h : Heap) (l refnode after : Ptr) (side : LinkDirection) (n d : Ptr)
    (x : DlinkedList) where
  pub made : Heap
  made = put h n (some (new_node side refnode after d))

  pub half_linked : Heap
  unfolding made
  half_linked = set_link made (opposite side) after n

  pub linked : Heap
  unfolding half_linked
  linked = set_link half_linked side refnode n

  pub inserted : Heap
  unfolding linked
  inserted = put_list linked l (some (incremented x))

module _ (h : Heap) (l refnode after : Ptr) (side : LinkDirection) (n d : Ptr) (x : DlinkedList)
    (near : link_at h side refnode ≡ some after)
    (far : link_at h (opposite side) after ≡ some refnode) (nr : n ≢ refnode) (na : n ≢ after) where
  abbrev h₁ : Heap
  h₁ = made h l refnode after side n d x

  abbrev h₂ : Heap
  h₂ = half_linked h l refnode after side n d x

  near₁ : link_at h₁ side refnode ≡ some after
  unfolding made
  near₁ = ground (arith, link_at-put h n (new_node side refnode after d) side refnode)

  far₁ : link_at h₁ (opposite side) after ≡ some refnode
  unfolding made
  far₁ = ground (arith, link_at-put h n (new_node side refnode after d) (opposite side) after)

  pub near₂ : link_at h₂ side refnode ≡ some after
  unfolding half_linked
  near₂ =
      ground
        (arith, near₁, link_at-set_link_flip h₁ (opposite side) after refnode n far₁ side refnode)

  -- The links of every node, after the two writes.
  linked_near :
      (p : Ptr)
      → link_at (linked h l refnode after side n d x) side p
        ≡ (if p == n then some after else if p == refnode then some n else link_at h side p)
  unfolding made linked
  linked_near p = ground (
    arith,
    link_at-set_link_self h₂ side refnode after n near₂ side p,
    link_at-set_link_flip h₁ (opposite side) after refnode n far₁ side p,
    link_at-put h n (new_node side refnode after d) side p,
  )

  linked_far :
      (p : Ptr)
      → link_at (linked h l refnode after side n d x) (opposite side) p ≡ (
          if p == n
          then some refnode
          else if p == after
          then some n
          else link_at h (opposite side) p)
  unfolding made linked
  linked_far p = ground (
    arith,
    link_at-set_link-opposite h₂ side refnode after n near₂ side p,
    link_at-set_link_self h₁ (opposite side) after refnode n far₁ (opposite side) p,
    link_at-put h n (new_node side refnode after d) (opposite side) p,
  )

  linked_data :
      (p : Ptr)
      → data_at (linked h l refnode after side n d x) p ≡ (if p == n then some d else data_at h p)
  unfolding made linked
  linked_data p = ground (
    arith,
    data_at-set_link h₂ side refnode after n near₂ side p,
    data_at-set_link h₁ (opposite side) after refnode n far₁ (opposite side) p,
    data_at-put h n (new_node side refnode after d) p,
  )

  linked_list : (p : Ptr) → (linked h l refnode after side n d x).list p ≡ h.list p
  unfolding linked made put
  linked_list p = list-set_link h₂ side refnode n p ∙ list-set_link h₁ (opposite side) after n p

  pub insert-inserted :
      n ≢ null
      → h.list l ≡ some x
      → dlinked_list_internal_insert_node l d refnode side n h
        ≡ ok d (inserted h l refnode after side n d x)
  unfolding dlinked_list_internal_insert_node inserted store_node
  insert-inserted nn ex =
      let here : data_at h₄ n ≡ some d =
        ground (arith, data_at-put_list h₃ l (some (incremented x)) n, linked_data n) in
      rw (
        ne→==_false n null nn,
        load_link-ok h side refnode after near,
        load_link-ok h₁ side refnode after near₁,
        store_link-set h₁ (opposite side) after refnode (opposite side) n far₁,
        store_link-set h₂ side refnode after side n near₂,
        increment_items-ok h₃ l x (linked_list l ∙ ex),
        load_data-ok h₄ n d here,
      )
    where
      h₃ : Heap
      h₃ = linked h l refnode after side n d x

      h₄ : Heap
      h₄ = put_list h₃ l (some (incremented x))

  pub inserted_list :
      (p : Ptr)
      → (inserted h l refnode after side n d x).list p
        ≡ (if p == l then some (incremented x) else h.list p)
  unfolding inserted put_list
  inserted_list p = ground (arith, linked_list p)

-- Between the neighbours `a` and `b`, from either side.
module _ (h : Heap) (l a b n d : Ptr) (x : DlinkedList) (e : Edge h a b) (na : n ≢ a)
    (nb : n ≢ b) where
  pub inserted_right-IsSpliced : IsSpliced h (inserted h l a b right_link n d x) a n b d
  unfolding inserted put_list link_at data_at
  inserted_right-IsSpliced = record {
    forth = linked_near h l a b right_link n d x e.forth e.back na nb;
    back = linked_far h l a b right_link n d x e.forth e.back na nb;
    holds = linked_data h l a b right_link n d x e.forth e.back na nb;
  }

  pub inserted_left-IsSpliced : IsSpliced h (inserted h l b a left_link n d x) a n b d
  unfolding inserted put_list link_at data_at
  inserted_left-IsSpliced = record {
    forth = linked_far h l b a left_link n d x e.back e.forth nb na;
    back = linked_near h l b a left_link n d x e.back e.forth nb na;
    holds = linked_data h l b a left_link n d x e.back e.forth nb na;
  }
