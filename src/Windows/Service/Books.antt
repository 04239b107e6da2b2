-- ===== src/Windows/Service/Books.antt =====
-- Where the clients of the Windows server stand: with the operating system, in a packet for the
-- accepting thread, or in the hands of a thread.
use aio_server.Base.{
  ℕ, suc, ◌+◌, ◌≤◌, ◌<◌, ◌≡◌, refl, Option, none, some, List, [], ◌∷◌, ◌++◌, ◌==◌, if◌then◌else◌, ℤ,
  pos, arith,
}
use aio_server.Windows.Client.{
  Client, io_opcode_connection, io_opcode_sock_write, io_opcode_sock_0_bytes_recv,
}
use aio_server.Windows.Service.{Packet, shut_down, post_accept}

abbrev pub Store : Type 0
Store = ℕ → Option Client

abbrev pub update : Store → ℕ → Option Client → Store
update st a o = λ b. if b == a then o else st b

abbrev pub is_alive : Option Client → ℕ
is_alive none = 0
is_alive (some c) = 1

-- 1 for a client that waits for a connection
abbrev pub is_waiting : Option Client → ℕ
is_waiting none = 0
is_waiting (some c) = elim c.aio_opcode [ io_opcode_connection ↦ 1 | _ ↦ 0 ]

abbrev pub count : ℕ → List ℕ → ℕ
count a [] = 0
count a (b ∷ bs) = if b == a then suc (count a bs) else count a bs

abbrev pub names : ℕ → Packet → ℕ
names a shut_down = 0
names a (post_accept r none) = 0
names a (post_accept r (some b)) = if b == a then 1 else 0

abbrev pub count_packets : ℕ → List Packet → ℕ
count_packets a [] = 0
count_packets a (x ∷ xs) = names a x + count_packets a xs

abbrev pub waiting : Store → List ℕ → ℕ
waiting st [] = 0
waiting st (b ∷ bs) = is_waiting (st b) + waiting st bs

abbrev pub remove_one : ℕ → List ℕ → List ℕ
remove_one a [] = []
remove_one a (b ∷ bs) = if b == a then bs else b ∷ remove_one a bs

-- Only a client that sends an answer has a file, and no operation is a plain read.
pub data Proper (c : Client) : Type 0 where
  sending : c.aio_opcode ≡ io_opcode_sock_write → Proper c
  connecting : c.aio_opcode ≡ io_opcode_connection → c.cl_file ≡ none → Proper c
  receiving : c.aio_opcode ≡ io_opcode_sock_0_bytes_recv → c.cl_file ≡ none → Proper c

-- For the clients `st`, the operations `p`, the packets `q`, the count `w` of outstanding accepts,
-- which is `extra` at least above the clients that wait, and the limit `lim`, which is `m`.
-- `hands` has the clients that threads are at work on.
pub record Books (m extra : ℕ) (st : Store) (p : List ℕ) (q : List Packet) (w : ℕ) (lim : ℤ)
    (hands : List ℕ) : Type 0 where
  pub places : (a : ℕ) → count a p + count_packets a q + count a hands ≤ is_alive (st a)
  pub proper : (a : ℕ) (c : Client) → st a ≡ some c → Proper c
  pub accepting : waiting st p + extra ≤ w
  pub below : w ≤ m
  pub small : m < 2147483648
  pub limit : lim ≡ pos m

pub count-remove_one :
    (b a : ℕ) (p : List ℕ)
    → 0 < count a p
    → count b (remove_one a p) + (if b == a then 1 else 0) ≡ count b p
count-remove_one b a [] h = omega (arith, h)
count-remove_one b a (x ∷ xs) h = ground (arith, count-remove_one b a xs)

pub waiting-remove_one :
    (st : Store) (a : ℕ) (p : List ℕ)
    → 0 < count a p
    → waiting st (remove_one a p) + is_waiting (st a) ≡ waiting st p
waiting-remove_one st a [] h = omega (arith, h)
waiting-remove_one st a (x ∷ xs) h = grind (arith, waiting-remove_one st a xs)

pub waiting-update :
    (st : Store) (a : ℕ) (o : Option Client) (p : List ℕ)
    → count a p ≡ 0
    → waiting (update st a o) p ≡ waiting st p
waiting-update st a o [] h = refl
waiting-update st a o (x ∷ xs) h = ground (arith, waiting-update st a o xs)

pub count_packets-append :
    (a : ℕ) (q : List Packet) (x : Packet)
    → count_packets a (q ++ x ∷ []) ≡ count_packets a q + names a x
count_packets-append a [] x = omega arith
count_packets-append a (y ∷ q) x = omega (arith, count_packets-append a q x)
