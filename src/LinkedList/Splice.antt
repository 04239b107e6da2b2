-- ===== src/LinkedList/Splice.antt =====
-- A ring into which a node is put, or out of which one is taken.
use aio_server.Base.{◌≡◌, refl, ◌≢◌, false, ◌||◌, some, [], ◌∷◌, ◌++◌, arith, ◌==◌, if◌then◌else◌}
use aio_server.LinkedList.Heap.{Ptr, left_link, right_link, Heap, link_at, data_at}
use aio_server.LinkedList.Ring.{
  Cells, occurs, ◌∉◌, IsDistinct, first_of_cells, last_of_cells, Way, Way-frame,
}

-- `g` is `h` with the node `n`, which holds `d`, between the neighbours `a` and `b`.
pub record IsSpliced (h g : Heap) (a n b d : Ptr) : Type 0 where
  pub forth :
      (p : Ptr)
      → link_at g right_link p
        ≡ (if p == n then some b else if p == a then some n else link_at h right_link p)
  pub back :
      (p : Ptr)
      → link_at g left_link p
        ≡ (if p == n then some a else if p == b then some n else link_at h left_link p)
  pub holds : (p : Ptr) → data_at g p ≡ (if p == n then some d else data_at h p)

-- `g` is `h` without the node `n`, whose neighbours were `a` and `b`.
pub record IsUnspliced (h g : Heap) (a n b : Ptr) : Type 0 where
  pub forth :
      (p : Ptr)
      → p ≢ n
      → link_at g right_link p ≡ (if p == a then some b else link_at h right_link p)
  pub back :
      (p : Ptr) → p ≢ n → link_at g left_link p ≡ (if p == b then some a else link_at h left_link p)
  pub holds : (p : Ptr) → p ≢ n → data_at g p ≡ data_at h p

pub occurs-append :
    (q : Ptr) (front behind : Cells)
    → occurs q (front ++ behind) ≡ (occurs q front || occurs q behind)
occurs-append q [] behind = refl
occurs-append q ((at, item) ∷ rest) behind = ground (arith, occurs-append q rest behind)

pub occurs-last :
    (a : Ptr) (xs : Cells) (s : Ptr) → (a == s) ≡ false → a ∉ xs → (a == last_of_cells xs s) ≡ false
occurs-last a [] s ne out = ne
occurs-last a ((p, d) ∷ xs) s ne out = occurs-last a xs p (ground arith) (ground arith)

pub occurs-first :
    (a : Ptr) (xs : Cells) (s : Ptr)
    → (a == s) ≡ false
    → a ∉ xs
    → (a == first_of_cells xs s) ≡ false
occurs-first a [] s ne out = ne
occurs-first a ((p, d) ∷ xs) s ne out = ground arith

-- The part of a way that lies behind a place where a node goes in.
Way-insert_head :
    (h g : Heap) (a : Ptr) (xs : Cells) (b n d : Ptr)
    → IsSpliced h g a n (first_of_cells xs b) d
    → Way h a xs b
    → a ∉ xs
    → b ∉ xs
    → IsDistinct xs
    → n ∉ xs
    → n ≢ a
    → n ≢ b
    → Way g a ((n, d) ∷ xs) b
Way-insert_head h g a [] b n d sp w oa ob di on na nb =
    ground (arith, sp.forth a, sp.forth n, sp.back n, sp.back b, sp.holds n)
Way-insert_head h g a ((p, e) ∷ xs) b n d sp (edge, v, w) oa ob di on na nb = (
  ground (arith, sp.forth a, sp.back n),
  ground (arith, sp.holds n),
  (
    ground (arith, sp.forth n, sp.back p),
    ground (arith, sp.holds p),
    Way-frame h g p xs b w (ground (arith, sp.forth p)) (ground (arith, sp.back b))
        λ q i. (ground (arith, sp.forth q), ground (arith, sp.back q), ground (arith, sp.holds q)),
  ),
)

-- A new node between two neighbours on a way.
pub Way-insert :
    (h g : Heap) (x : Ptr) (l r : Cells) (y n d : Ptr)
    → IsSpliced h g (last_of_cells l x) n (first_of_cells r y) d
    → Way h x (l ++ r) y
    → x ∉ l ++ r
    → y ∉ l ++ r
    → IsDistinct (l ++ r)
    → n ∉ l ++ r
    → n ≢ x
    → n ≢ y
    → Way g x (l ++ (n, d) ∷ r) y
Way-insert h g x [] r y n d sp w ox oy di on nx ny =
    Way-insert_head h g x r y n d sp w ox oy di on nx ny
Way-insert h g x ((p, e) ∷ l) r y n d sp (edge, v, w) ox oy di on nx ny =
    let a = last_of_cells l p in
    let b = first_of_cells r y in
    let xa : (x == a) ≡ false =
      occurs-last x l p (ground arith) (ground (arith, occurs-append x l r)) in
    let pb : (p == b) ≡ false =
      occurs-first p r y (ground arith) (ground (arith, occurs-append p l r)) in
    (
      ground (arith, sp.forth x, sp.back p),
      ground (arith, sp.holds p),
      Way-insert h g p l r y n d sp w di.0 (ground arith) di.1 (ground arith) (ground arith) ny,
    )

Way-remove_head :
    (h g : Heap) (a : Ptr) (xs : Cells) (b n d : Ptr)
    → IsUnspliced h g a n (first_of_cells xs b)
    → Way h a ((n, d) ∷ xs) b
    → a ∉ xs
    → b ∉ xs
    → IsDistinct xs
    → n ∉ xs
    → n ≢ a
    → n ≢ b
    → Way g a xs b
Way-remove_head h g a [] b n d un w oa ob di on na nb =
    ground (arith, un.forth a (ground arith), un.back b (ground arith))
Way-remove_head h g a ((p, e) ∷ xs) b n d un (edge, v, (edge', v', w)) oa ob di on na nb = (
  ground (arith, un.forth a (ground arith), un.back p (ground arith)),
  ground (arith, un.holds p (ground arith)),
  Way-frame h g p xs b w (ground (arith, un.forth p (ground arith)))
      (ground (arith, un.back b (ground arith)))
      λ q i. (
        ground (arith, un.forth q (ground arith)),
        ground (arith, un.back q (ground arith)),
        ground (arith, un.holds q (ground arith)),
      ),
)

-- A node taken out of a way.
pub Way-remove :
    (h g : Heap) (x : Ptr) (l r : Cells) (y n d : Ptr)
    → IsUnspliced h g (last_of_cells l x) n (first_of_cells r y)
    → Way h x (l ++ (n, d) ∷ r) y
    → x ∉ l ++ r
    → y ∉ l ++ r
    → IsDistinct (l ++ r)
    → n ∉ l ++ r
    → n ≢ x
    → n ≢ y
    → Way g x (l ++ r) y
Way-remove h g x [] r y n d un w ox oy di on nx ny =
    Way-remove_head h g x r y n d un w ox oy di on nx ny
Way-remove h g x ((p, e) ∷ l) r y n d un (edge, v, w) ox oy di on nx ny =
    let a = last_of_cells l p in
    let b = first_of_cells r y in
    let xa : (x == a) ≡ false =
      occurs-last x l p (ground arith) (ground (arith, occurs-append x l r)) in
    let pb : (p == b) ≡ false =
      occurs-first p r y (ground arith) (ground (arith, occurs-append p l r)) in
    (
      ground (arith, un.forth x (ground arith), un.back p (ground arith)),
      ground (arith, un.holds p (ground arith)),
      Way-remove h g p l r y n d un w di.0 (ground arith) di.1 (ground arith) (ground arith) ny,
    )
