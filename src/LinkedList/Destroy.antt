-- ===== src/LinkedList/Destroy.antt =====
-- `dlist_destroy` against the addresses of the nodes.
use aio_server.Base.{
  ℕ, zero, suc, ◌+◌, ◌<◌, ◌≡◌, refl, ◌∙◌, false, none, some, [], ◌∷◌, arith, ◌==◌, if◌then◌else◌,
  ◌||◌, length, ne→==_false, ==_refl,
}
use aio_server.LinkedList.Heap.{
  Ptr, null, right_link, dl_storage, DlinkedList, Heap, ok, link_at, put, put_list,
}
use aio_server.LinkedList.Access.{
  load_link-ok, load_list-ok, release_node-ok, link_at-put-none, node-put, list-put,
  release_list-ok,
}
use aio_server.LinkedList.Ring.{
  Cells, occurs, ◌∉◌, IsDistinct, first_of_cells, Way, Way-first, IsList,
}
use aio_server.LinkedList.Ops.{destroy_loop, dlist_destroy}

-- The links to the right alone.
abbrev Walk : Heap → Cells → Ptr → Type 0
Walk h [] s = Unit
Walk h ((p, _) ∷ xs) s = (link_at h right_link p ≡ some (first_of_cells xs s)) × Walk h xs s

Way-Walk : (h : Heap) (a : Ptr) (xs : Cells) (s : Ptr) → Way h a xs s → Walk h xs s
Way-Walk h a [] s w = tt
Way-Walk h a ((p, d) ∷ xs) s w = ((Way-first h p xs s w.2).forth, Way-Walk h p xs s w.2)

Walk-release :
    (h : Heap) (p : Ptr) (xs : Cells) (s : Ptr) → Walk h xs s → p ∉ xs → Walk (put h p none) xs s
Walk-release h p [] s w out = tt
Walk-release h p ((q, d) ∷ xs) s (e, w) out =
    (ground (arith, link_at-put-none h p q right_link), Walk-release h p xs s w (ground arith))

module _ (x : DlinkedList) where
  destroy_loop-frees :
      (k : ℕ) (h : Heap) (xs : Cells)
      → Walk h xs x.dl_sentinel
      → x.dl_sentinel ∉ xs
      → IsDistinct xs
      → length xs < k
      → (g : Heap) × (destroy_loop k x (first_of_cells xs x.dl_sentinel) h ≡ ok tt g)
        × ((p : Ptr) → g.node p ≡ (if occurs p xs then none else h.node p))
        × ((q : Ptr) → g.list q ≡ h.list q)
  unfolding destroy_loop
  destroy_loop-frees zero h xs w out di fuel = absurd (omega arith)
  destroy_loop-frees (suc k) h [] w out di fuel =
      (h, rw (==_refl x.dl_sentinel), λ p. refl, λ q. refl)
  destroy_loop-frees (suc k) h ((p, d) ∷ xs) (e, w) out (op, di) fuel =
      let s = x.dl_sentinel in
      let ps : (p == s) ≡ false = ground arith in
      let (g, run, nodes, lists) =
        destroy_loop-frees k (put h p none) xs (Walk-release h p xs s w op) (ground arith) di
          (omega arith) in
      (
        g,
        rw
            (
              ps,
              load_link-ok h right_link p (first_of_cells xs s) e,
              release_node-ok h right_link p (first_of_cells xs s) e,
            )
            run,
        λ q. ground (arith, nodes q, node-put h p q none),
        λ q. lists q ∙ list-put h p q none,
      )

-- dlist_destroy gives back every node and the list object, each once, ends within one round more
-- than the list has items, and gives back nothing else.
pub destroy-frees :
    {h : Heap} {l : Ptr} {x : DlinkedList} {xs : Cells}
    → IsList h l x xs
    → (g : Heap) × (dlist_destroy l h ≡ ok tt g)
      × ((p : Ptr) → g.node p ≡ (if p == dl_storage l || occurs p xs then none else h.node p))
      × ((q : Ptr) → g.list q ≡ (if q == l then none else h.list q))
unfolding dlist_destroy put put_list
destroy-frees {h} {l} {x} {xs} is =
    let s = x.dl_sentinel in
    let (g, run, nodes, lists) =
      destroy_loop-frees x (x.dl_items + 1) h xs (Way-Walk h s xs s is.ring) is.apart is.distinct
        (omega (arith, is.count)) in
    (
      put (put_list g l none) (dl_storage l) none,
      rw (
        ne→==_false l null is.handle,
        load_list-ok h l x is.object,
        load_link-ok h right_link s (first_of_cells xs s) (Way-first h s xs s is.ring).forth,
        run,
        release_list-ok g l x (lists l ∙ is.object),
      ),
      λ p. ground (arith, nodes p, is.storage),
      λ q. ground (arith, lists q),
    )
