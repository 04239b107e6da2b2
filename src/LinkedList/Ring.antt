-- ===== src/LinkedList/Ring.antt =====
-- What a ring of nodes stands for: the addresses and items on the way from one node to another.
use aio_server.Base.{
  ◌<◌, ◌≡◌, ◌≢◌, Bool, true, false, ◌||◌, some, List, [], ◌∷◌, ◌++◌, arith, ◌==◌, length,
}
use aio_server.LinkedList.Heap.{
  Ptr, null, size_mod, left_link, right_link, dl_storage, DlinkedList, Heap, link_at, data_at,
}

-- The address and the item of each node, in order.
abbrev pub Cells : Type 0
Cells = List (Ptr × Ptr)

abbrev pub occurs : Ptr → Cells → Bool
occurs q [] = false
occurs q ((at, item) ∷ rest) = (q == at) || occurs q rest

infix 40 ◌∉◌
abbrev pub ◌∉◌ : Ptr → Cells → Type 0
a ∉ xs = occurs a xs ≡ false

-- No address stands twice.
abbrev pub IsDistinct : Cells → Type 0
IsDistinct [] = Unit
IsDistinct ((p, _) ∷ xs) = (p ∉ xs) × IsDistinct xs

abbrev pub items : Cells → List Ptr
items [] = []
items ((_, d) ∷ xs) = d ∷ items xs

-- The address of the first node of `xs`, and that of the last; the other argument if there is none.
abbrev pub first_of_cells : Cells → Ptr → Ptr
first_of_cells [] s = s
first_of_cells ((p, _) ∷ _) s = p

abbrev pub last_of_cells : Cells → Ptr → Ptr
last_of_cells [] s = s
last_of_cells ((p, _) ∷ xs) s = last_of_cells xs p

-- `a` and `b` are neighbours, by both links.
pub record Edge (h : Heap) (a b : Ptr) : Type 0 where
  pub forth : link_at h right_link a ≡ some b
  pub back : link_at h left_link b ≡ some a

-- From `a` the links lead through the nodes `xs` to `b`, and back.
abbrev pub Way : Heap → Ptr → Cells → Ptr → Type 0
Way h a [] b = Edge h a b
Way h a ((p, d) ∷ xs) b = Edge h a p × (data_at h p ≡ some d) × Way h p xs b

-- The list object at `l` holds the items of `xs`, in order.
pub record IsList (h : Heap) (l : Ptr) (x : DlinkedList) (xs : Cells) : Type 0 where
  pub handle : l ≢ null
  pub object : h.list l ≡ some x
  pub storage : x.dl_sentinel ≡ dl_storage l
  pub count : x.dl_items ≡ length xs
  pub fits : length xs < size_mod
  pub ring : Way h x.dl_sentinel xs x.dl_sentinel
  pub apart : x.dl_sentinel ∉ xs
  pub distinct : IsDistinct xs

-- The links that a way reads: forward from all but its end, back from all but its start.
pub Way-frame :
    (h g : Heap) (a : Ptr) (xs : Cells) (b : Ptr)
    → Way h a xs b
    → link_at g right_link a ≡ link_at h right_link a
    → link_at g left_link b ≡ link_at h left_link b
    → ((p : Ptr)
        → occurs p xs ≡ true
        → (link_at g right_link p ≡ link_at h right_link p)
          × (link_at g left_link p ≡ link_at h left_link p)
          × (data_at g p ≡ data_at h p))
    → Way g a xs b
Way-frame h g a [] b w r l same = ground arith
Way-frame h g a ((p, d) ∷ xs) b (e, v, w) r l same =
    let (sr, sl, sd) = same p (ground arith) in
    (ground arith, ground arith, Way-frame h g p xs b w sr l (λ q i. same q (ground arith)))

pub Way-first :
    (h : Heap) (a : Ptr) (xs : Cells) (b : Ptr) → Way h a xs b → Edge h a (first_of_cells xs b)
Way-first h a [] b w = w
Way-first h a (x ∷ xs) b w = w.0

pub Way-last :
    (h : Heap) (a : Ptr) (xs : Cells) (b : Ptr) → Way h a xs b → Edge h (last_of_cells xs a) b
Way-last h a [] b w = w
Way-last h a ((p, d) ∷ xs) b w = Way-last h p xs b w.2

-- The neighbours of a node on a way, and the way behind it.
pub Way-split :
    (h : Heap) (a : Ptr) (l r : Cells) (p d b : Ptr)
    → Way h a (l ++ (p, d) ∷ r) b
    → Edge h (last_of_cells l a) p × (data_at h p ≡ some d) × Way h p r b
Way-split h a [] r p d b w = w
Way-split h a ((q, e) ∷ l) r p d b w = Way-split h q l r p d b w.2
