-- ===== src/LinkedList/Gap.antt =====
-- A list object whose ring gains or loses a node at any place.
use aio_server.Base.{
  ◌+◌, ◌<◌, ◌≡◌, refl, ◌≢◌, false, none, some, [], ◌∷◌, ◌++◌, arith, ◌==◌, if◌then◌else◌, length,
  length-append, ne→==_false,
}
use aio_server.LinkedList.Heap.{
  Ptr, left_link, right_link, LinkDirection, size_mod, Heap, DlinkedList, link_at, data_at,
}
use aio_server.LinkedList.Ring.{
  Cells, ◌∉◌, IsDistinct, first_of_cells, last_of_cells, Way, Way-first, IsList,
}
use aio_server.LinkedList.Splice.{
  IsSpliced, IsUnspliced, occurs-append, occurs-last, occurs-first, Way-insert, Way-remove,
}
use aio_server.LinkedList.Insert.{incremented}
use aio_server.LinkedList.Remove.{decremented}

pub link_at-free : (h : Heap) (d : LinkDirection) (p : Ptr) → h.node p ≡ none → link_at h d p ≡ none
unfolding link_at
link_at-free h d p e = ground arith

pub data_at-free : (h : Heap) (p : Ptr) → h.node p ≡ none → data_at h p ≡ none
unfolding data_at
data_at-free h p e = ground arith

not-occurs-free :
    (h : Heap) (a : Ptr) (xs : Cells) (b n : Ptr) → Way h a xs b → data_at h n ≡ none → n ∉ xs
not-occurs-free h a [] b n w free = refl
not-occurs-free h a ((p, d) ∷ xs) b n (e, v, w) free =
    ground (arith, not-occurs-free h p xs b n w free)

-- A free address is no node of the ring.
pub free-apart :
    {h : Heap} {l : Ptr} {x : DlinkedList} {xs : Cells} (n : Ptr)
    → IsList h l x xs
    → h.node n ≡ none
    → (n ∉ xs) × (n ≢ x.dl_sentinel)
free-apart {h} {l} {x} {xs} n is free =
    let s = x.dl_sentinel in
    let e = Way-first h s xs s is.ring in
    (
      not-occurs-free h s xs s n is.ring (data_at-free h n free),
      λ eq. ground (arith, e.forth, link_at-free h right_link n free),
    )

pub IsDistinct-insert :
    (l r : Cells) (n d : Ptr) → IsDistinct (l ++ r) → n ∉ l ++ r → IsDistinct (l ++ (n, d) ∷ r)
IsDistinct-insert [] r n d di out = (out, di)
IsDistinct-insert ((p, e) ∷ l) r n d (o, di) out = (
  ground (arith, occurs-append p l r, occurs-append p l ((n, d) ∷ r)),
  IsDistinct-insert l r n d di (ground arith),
)

pub IsDistinct-remove :
    (l r : Cells) (n d : Ptr) → IsDistinct (l ++ (n, d) ∷ r) → IsDistinct (l ++ r) × (n ∉ l ++ r)
IsDistinct-remove [] r n d (o, di) = (di, o)
IsDistinct-remove ((p, e) ∷ l) r n d (o, di) =
    let (di', o') = IsDistinct-remove l r n d di in
    (
      (ground (arith, occurs-append p l r, occurs-append p l ((n, d) ∷ r)), di'),
      ground (arith, occurs-append p l ((n, d) ∷ r)),
    )

-- Nothing but the ring of `l` and the object itself differs between `h` and `g`.
pub record IsSameOutside (h g : Heap) (l s : Ptr) (xs : Cells) : Type 0 where
  pub lists : (q : Ptr) → q ≢ l → g.list q ≡ h.list q
  pub links : (d : LinkDirection) (p : Ptr) → p ≢ s → p ∉ xs → link_at g d p ≡ link_at h d p
  pub items : (p : Ptr) → p ≢ s → p ∉ xs → data_at g p ≡ data_at h p

module _ {h g : Heap} {lst : Ptr} {x : DlinkedList} (l r : Cells) (n d : Ptr) where
  pub IsSpliced-IsList :
      IsList h lst x (l ++ r)
      → IsSpliced h g (last_of_cells l x.dl_sentinel) n (first_of_cells r x.dl_sentinel) d
      → g.list lst ≡ some (incremented x)
      → h.node n ≡ none
      → length (l ++ r) + 1 < size_mod
      → IsList g lst (incremented x) (l ++ (n, d) ∷ r)
  IsSpliced-IsList is sp object free small =
      let s = x.dl_sentinel in
      let (out, ns) = free-apart n is free in
      record {
        handle = is.handle;
        object = object;
        storage = is.storage;
        count = omega (arith, is.count, length-append {0} l r, length-append {0} l ((n, d) ∷ r));
        fits = omega (arith, length-append {0} l r, length-append {0} l ((n, d) ∷ r));
        ring = Way-insert h g s l r s n d sp is.ring is.apart is.apart is.distinct out ns ns;
        apart = ground (arith, is.apart, occurs-append s l r, occurs-append s l ((n, d) ∷ r));
        distinct = IsDistinct-insert l r n d is.distinct out;
      }

  pub IsUnspliced-IsList :
      IsList h lst x (l ++ (n, d) ∷ r)
      → IsUnspliced h g (last_of_cells l x.dl_sentinel) n (first_of_cells r x.dl_sentinel)
      → g.list lst ≡ some (decremented x)
      → IsList g lst (decremented x) (l ++ r)
  IsUnspliced-IsList is un object =
      let s = x.dl_sentinel in
      let (di, out) = IsDistinct-remove l r n d is.distinct in
      let ap : s ∉ l ++ r =
        ground (arith, is.apart, occurs-append s l r, occurs-append s l ((n, d) ∷ r)) in
      let ns : n ≢ s = λ e. ground (arith, is.apart, occurs-append s l ((n, d) ∷ r)) in
      record {
        handle = is.handle;
        object = object;
        storage = is.storage;
        count =
            omega
              (arith, is.count, is.fits, length-append {0} l r, length-append {0} l ((n, d) ∷ r));
        fits = omega (arith, length-append {0} l r, length-append {0} l ((n, d) ∷ r), is.fits);
        ring = Way-remove h g s l r s n d un is.ring ap ap di out ns ns;
        apart = ap;
        distinct = di;
      }

-- An address that is neither the sentinel's nor a node's is no neighbour of the place.
out_ne_neighbours :
    (p s : Ptr) (l r : Cells) (n d : Ptr)
    → p ≢ s
    → p ∉ l ++ (n, d) ∷ r
    → ((p == last_of_cells l s) ≡ false) × ((p == first_of_cells r s) ≡ false) × ((p == n) ≡ false)
out_ne_neighbours p s l r n d ns out =
    let split = occurs-append p l ((n, d) ∷ r) in
    (
      occurs-last p l s (ne→==_false p s ns) (ground (arith, split)),
      occurs-first p r s (ne→==_false p s ns) (ground (arith, split)),
      ground (arith, split),
    )

module _ {h g : Heap} (s : Ptr) (l r : Cells) (n d : Ptr) where
  spliced_links :
      IsSpliced h g (last_of_cells l s) n (first_of_cells r s) d
      → (e : LinkDirection) (p : Ptr) → p ≢ s
      → p ∉ l ++ (n, d) ∷ r
      → link_at g e p ≡ link_at h e p
  spliced_links sp left_link p ns out =
      let (pa, pb, pn) = out_ne_neighbours p s l r n d ns out in ground (arith, sp.back p)
  spliced_links sp right_link p ns out =
      let (pa, pb, pn) = out_ne_neighbours p s l r n d ns out in ground (arith, sp.forth p)

  unspliced_links :
      IsUnspliced h g (last_of_cells l s) n (first_of_cells r s)
      → (e : LinkDirection) (p : Ptr) → p ≢ s
      → p ∉ l ++ (n, d) ∷ r
      → link_at g e p ≡ link_at h e p
  unspliced_links un left_link p ns out =
      let (pa, pb, pn) = out_ne_neighbours p s l r n d ns out in
      ground (arith, un.back p (ground arith))
  unspliced_links un right_link p ns out =
      let (pa, pb, pn) = out_ne_neighbours p s l r n d ns out in
      ground (arith, un.forth p (ground arith))

  pub IsSpliced-IsSameOutside :
      (lst : Ptr) (x : DlinkedList)
      → IsSpliced h g (last_of_cells l s) n (first_of_cells r s) d
      → ((q : Ptr) → g.list q ≡ (if q == lst then some (incremented x) else h.list q))
      → IsSameOutside h g lst s (l ++ (n, d) ∷ r)
  IsSpliced-IsSameOutside lst x sp lists = record {
    lists = λ q ne. ground (arith, lists q);
    links = spliced_links sp;
    items = λ p ns out.
        let (pa, pb, pn) = out_ne_neighbours p s l r n d ns out in ground (arith, sp.holds p);
  }

  pub IsUnspliced-IsSameOutside :
      (lst : Ptr) (x : DlinkedList)
      → IsUnspliced h g (last_of_cells l s) n (first_of_cells r s)
      → ((q : Ptr) → g.list q ≡ (if q == lst then some (decremented x) else h.list q))
      → IsSameOutside h g lst s (l ++ (n, d) ∷ r)
  IsUnspliced-IsSameOutside lst x un lists = record {
    lists = λ q ne. ground (arith, lists q);
    links = unspliced_links un;
    items = λ p ns out.
        let (pa, pb, pn) = out_ne_neighbours p s l r n d ns out in un.holds p (ground arith);
  }
