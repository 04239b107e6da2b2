-- ===== src/LinkedList/Push.antt =====
-- `dlist_create`, `dlist_push_head` and `dlist_push_tail` against the sequence of the items.
use aio_server.Base.{
  ◌+◌, ◌<◌, ◌≡◌, refl, ◌≢◌, none, some, [], ◌∷◌, ◌++◌, arith, ◌==◌, if◌then◌else◌, length,
  ne→==_false, append-nil,
}
use aio_server.LinkedList.Heap.{
  Ptr, null, left_link, right_link, size_mod, dl_storage, Heap, DlinkedList, ItemComparator,
  Outcome, ok, link_at, data_at, store_list, store_node, put, put_list,
}
use aio_server.LinkedList.Access.{load_link-ok, load_list-ok}
use aio_server.LinkedList.Ring.{Cells, first_of_cells, last_of_cells, Way-first, Way-last, IsList}
use aio_server.LinkedList.Insert.{
  incremented, inserted, insert-inserted, inserted_list, inserted_right-IsSpliced,
  inserted_left-IsSpliced,
}
use aio_server.LinkedList.Gap.{
  free-apart, IsSameOutside, IsSpliced-IsList, IsSpliced-IsSameOutside, link_at-free,
}
use aio_server.LinkedList.Ops.{
  dlist_create, dlist_push_head, dlist_push_tail, dlinked_list_internal_insert_node,
}

-- What a push leaves: the item is returned, the list holds `ys`, and nothing else has changed.
abbrev pub Pushes : Outcome Ptr → Heap → Ptr → DlinkedList → Cells → Ptr → Type 0
Pushes run h l x ys item =
    (g : Heap) × (run ≡ ok item g)
    × IsList g l (incremented x) ys
    × IsSameOutside h g l x.dl_sentinel ys

module _ {h : Heap} {l : Ptr} {x : DlinkedList} {xs : Cells} (item fresh : Ptr)
    (is : IsList h l x xs) (real : item ≢ null) (got : fresh ≢ null) (free : h.node fresh ≡ none)
    (small : length xs + 1 < size_mod) where
  abbrev s : Ptr
  s = x.dl_sentinel

  -- dlist_push_head on a list that has room, with an item and a fresh node that are not null and
  -- a node that is free, returns the item and puts it in front of the sequence; nothing outside
  -- the list changes.
  pub push_head-cons : Pushes (dlist_push_head l item fresh h) h l x ((fresh, item) ∷ xs) item
  unfolding dlist_push_head
  push_head-cons =
      let b = first_of_cells xs s in
      let e = Way-first h s xs s is.ring in
      let (out, ns) = free-apart fresh is free in
      let nb : fresh ≢ b = λ eq. ground (arith, e.back, link_at-free h left_link fresh free) in
      let sp = inserted_left-IsSpliced h l s b fresh item x e ns nb in
      let lists = inserted_list h l b s left_link fresh item x e.back e.forth nb ns in
      (
        inserted h l b s left_link fresh item x,
        rw (
          ne→==_false l null is.handle,
          ne→==_false item null real,
          load_list-ok h l x is.object,
          load_link-ok h right_link s b e.forth,
          insert-inserted h l b s left_link fresh item x e.back e.forth nb ns got is.object,
        ),
        IsSpliced-IsList [] xs fresh item is sp (ground (arith, lists l)) free small,
        IsSpliced-IsSameOutside s [] xs fresh item l x sp lists,
      )

  -- dlist_push_tail on a list that has room, with an item and a fresh node that are not null and
  -- a node that is free, returns the item and puts it behind the sequence; nothing outside the
  -- list changes.
  pub push_tail-snoc : Pushes (dlist_push_tail l item fresh h) h l x (xs ++ (fresh, item) ∷ []) item
  unfolding dlist_push_tail
  push_tail-snoc =
      let a = last_of_cells xs s in
      let e = Way-last h s xs s is.ring in
      let (out, ns) = free-apart fresh is free in
      let na : fresh ≢ a = λ eq. ground (arith, e.forth, link_at-free h right_link fresh free) in
      let sp = inserted_right-IsSpliced h l a s fresh item x e na ns in
      let lists = inserted_list h l a s right_link fresh item x e.forth e.back na ns in
      let whole : IsList h l x (xs ++ []) = rw append-nil is in
      (
        inserted h l a s right_link fresh item x,
        rw (
          ne→==_false l null is.handle,
          ne→==_false item null real,
          load_list-ok h l x is.object,
          load_link-ok h left_link s a e.back,
          insert-inserted h l a s right_link fresh item x e.forth e.back na ns got is.object,
        ),
        IsSpliced-IsList xs [] fresh item whole sp (ground (arith, lists l)) free
            (rw append-nil small),
        IsSpliced-IsSameOutside s xs [] fresh item l x sp lists,
      )

-- A push of an item that is not null whose allocation fails returns null and changes nothing, at
-- either end of the list.
push-null :
    {h : Heap} {l : Ptr} {x : DlinkedList} {xs : Cells} (item : Ptr)
    → IsList h l x xs
    → item ≢ null
    → (dlist_push_head l item null h ≡ ok null h) × (dlist_push_tail l item null h ≡ ok null h)
unfolding dlist_push_head dlist_push_tail dlinked_list_internal_insert_node
push-null {h} {l} {x} {xs} item is real =
    let s = x.dl_sentinel in
    let b = first_of_cells xs s in
    let a = last_of_cells xs s in
    (
      rw (
        ne→==_false l null is.handle,
        ne→==_false item null real,
        load_list-ok h l x is.object,
        load_link-ok h right_link s b (Way-first h s xs s is.ring).forth,
      ),
      rw (
        ne→==_false l null is.handle,
        ne→==_false item null real,
        load_list-ok h l x is.object,
        load_link-ok h left_link s a (Way-last h s xs s is.ring).back,
      ),
    )

-- The list object that `dlist_create` builds.
abbrev pub created : ItemComparator → Ptr → Ptr → Ptr → Ptr → DlinkedList
created cmp al userdata default_al l = record {
  dl_comparator = cmp;
  dl_allocator = if al == null then default_al else al;
  dl_sentinel = dl_storage l;
  dl_items = 0;
  dl_userdata = userdata;
}

-- dlist_create with a comparator, whose allocation gives an address that is not null, returns
-- that address with an empty list in it, which has the default allocator where none is given;
-- nothing outside changes.
create-IsList :
    (h : Heap) (cmp : ItemComparator) (al userdata default_al fresh : Ptr)
    → fresh ≢ null
    → (g : Heap) × (dlist_create (some cmp) al userdata default_al fresh h ≡ ok fresh g)
      × IsList g fresh (created cmp al userdata default_al fresh) []
      × IsSameOutside h g fresh (dl_storage fresh) []
unfolding dlist_create store_list store_node put put_list link_at data_at
create-IsList h cmp al userdata default_al fresh got =
    let n = dl_storage fresh in
    (
      put (put_list h fresh (some (created cmp al userdata default_al fresh))) n
          (some (record { prev = n; next = n; n_data = null })),
      ground arith,
      record {
        handle = got;
        object = ground arith;
        storage = refl;
        count = refl;
        fits = omega arith;
        ring = record { forth = ground arith; back = ground arith };
        apart = refl;
        distinct = tt;
      },
      record {
        lists = λ q ne. ground arith;
        links = λ d p ne out. ground arith;
        items = λ p ne out. ground arith;
      },
    )
