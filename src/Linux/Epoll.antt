-- ===== src/Linux/Epoll.antt =====
-- server_impl_linux.c: `add_fd_to_epoll`.
use aio_server.Base.{ℕ, ◌≡◌, Bool, true, false, ap, [], ◌∷◌, inl, inr}
use aio_server.Kernel.{
  EpollData, unset, data_fd, data_ptr, data_u32, data_u64, Watch, Answer, done, failed, Kernel, Sys,
  ask,
}
use aio_server.Kernel.Owns.{IsOwning, ask-cases}

-- `kDataTypes`
pub data DataType : Type 0 where
  data_type_none data_type_fd data_type_ptr data_type_u32 data_type_u64 : DataType

-- The `switch`: which member of the union takes the variable argument.
abbrev pub epoll_data : DataType → ℕ → EpollData
epoll_data data_type_fd v = data_fd v
epoll_data data_type_ptr v = data_ptr v
epoll_data data_type_u32 v = data_u32 v
epoll_data data_type_u64 v = data_u64 v
epoll_data data_type_none v = unset

abbrev pub add_from : Watch → Answer × Kernel → Bool × Kernel
add_from x (done n, k) = (true, record k { watched = x ∷ k.watched })
add_from x (failed e, k) = (false, k)

-- True is the return value 0.
unfoldable pub add_fd_to_epoll : ℕ → ℕ → ℕ → DataType → ℕ → Sys Bool
add_fd_to_epoll epoll fd flags datatype v k =
    add_from (record { epoll_fd = epoll; fd = fd; events = flags; content = epoll_data datatype v })
      (ask k)

-- The flags of `epoll_ctl` that the program uses.
abbrev pub epollin : ℕ
epollin = 0x1

abbrev pub epollerr : ℕ
epollerr = 0x8

abbrev pub epollrdhup : ℕ
epollrdhup = 0x2000

abbrev pub epollet : ℕ
epollet = 0x80000000

-- Either the descriptor is added, with its data, or nothing is; no resource changes hands.
pub data Added (k : Kernel) (x : Watch) : Bool × Kernel → Type 0 where
  added : {g : Kernel} → g.watched ≡ x ∷ k.watched → IsOwning k g [] → Added k x (true, g)
  unadded : {g : Kernel} → g.watched ≡ k.watched → IsOwning k g [] → Added k x (false, g)

-- add_fd_to_epoll either returns 0 and adds the descriptor with its flags and the member of the
-- union that the data type names, or fails and adds nothing; no resource changes hands.
pub add_fd-Added :
    (epoll fd flags : ℕ) (t : DataType) (v : ℕ) (k : Kernel)
    → Added k
        (record { epoll_fd = epoll; fd = fd; events = flags; content = epoll_data t v })
        (add_fd_to_epoll epoll fd flags t v k)
unfolding add_fd_to_epoll
add_fd-Added epoll fd flags t v k = elim (ask-cases k) [
  | inl (n, g, e, o, w) ↦ rw e (
      added
        (ap
          (λ ws.
            record { epoll_fd = epoll; fd = fd; events = flags; content = epoll_data t v } ∷ ws)
          w)
        (record { holds = o.holds; sound = o.sound }))
  | inr (x, g, e, o, w) ↦ rw e (unadded w o)
]

Added-IsOwning : {k : Kernel} {x : Watch} {r : Bool × Kernel} → Added k x r → IsOwning k r.1 []
Added-IsOwning (added w o) = o
Added-IsOwning (unadded w o) = o

pub add_fd-IsOwning :
    (epoll fd flags : ℕ) (t : DataType) (v : ℕ) (k : Kernel)
    → IsOwning k (add_fd_to_epoll epoll fd flags t v k).1 []
add_fd-IsOwning epoll fd flags t v k = Added-IsOwning (add_fd-Added epoll fd flags t v k)
