-- ===== src/Linux/Client/Watched.antt =====
-- What epoll watches is no matter of `client_create` and `client_destroy`.
use aio_server.Base.{ℕ, ◌≡◌, refl, ◌∙◌, Option, none, some, inl, inr, Bool-cases, ◌==◌}
use aio_server.Kernel.{
  ResourceKind, descriptor, block, Resource, resource, Answer, done, failed, Kernel, ask, hold,
  acquire, release,
}
use aio_server.Linux.Client.{
  Client, client_create, create_from, buffer_from, client_destroy, close_opt,
}

pub acquire-watched : (c : ResourceKind) (k : Kernel) → (acquire c k).1.watched ≡ k.watched
unfolding acquire ask hold
acquire-watched c k = go (k.answers k.calls) refl
  where
    go : (a : Answer) → k.answers k.calls ≡ a → (acquire c k).1.watched ≡ k.watched
    go (done n) e = rw e refl
    go (failed n) e = rw e refl

pub release-watched : (x : Resource) (k : Kernel) → (release x k).1.watched ≡ k.watched
unfolding release
release-watched x k = elim (Bool-cases (k.held x == 0)) [ inl e ↦ rw e refl | inr e ↦ rw e refl ]

pub create-watched : (fd : ℕ) (k : Kernel) → (client_create fd k).1.watched ≡ k.watched
unfolding client_create
create-watched fd k = structure (acquire block k) ∙ acquire-watched block k
  where
    buffer : (p : ℕ) (r : Option ℕ × Kernel) → (buffer_from fd p r).1.watched ≡ r.1.watched
    buffer p (some b, g) = refl
    buffer p (none, g) =
        release-watched (resource block p) (release (resource descriptor fd) g).1
        ∙ release-watched (resource descriptor fd) g

    structure : (r : Option ℕ × Kernel) → (create_from fd r).1.watched ≡ r.1.watched
    structure (none, g) = refl
    structure (some p, g) = buffer p (acquire block g) ∙ acquire-watched block g

close-watched : (fd : Option ℕ) (k : Kernel) → (close_opt fd k).1.watched ≡ k.watched
close-watched none k = refl
close-watched (some n) k = release-watched (resource descriptor n) k

pub destroy-watched : (c : Client) (k : Kernel) → (client_destroy c k).1.watched ≡ k.watched
unfolding client_destroy
destroy-watched c k =
    let k1 = (close_opt c.cl_filefd k).1 in
    let k2 = (close_opt c.cl_sockfd k1).1 in
    let k3 = (release (resource block c.cl_buffer) k2).1 in
    release-watched (resource block c.cl_address) k3
    ∙ release-watched (resource block c.cl_buffer) k2
    ∙ close-watched c.cl_sockfd k1
    ∙ close-watched c.cl_filefd k
