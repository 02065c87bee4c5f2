-- ===== src/EventLoop/Laws.antt =====
-- eventloop/eventloop.go: the count of connections, and the number of sockets.
use gev.Base.{
  ℕ, suc, ◌≡◌, refl, ap, List, [], ◌∷◌, Option, none, some, arith, ◌⊎◌, ◌∙◌, decr, lookup, insert,
  erase, lookup-erase, length, pos, incr, inl, inr, Option-cases, ==_iff, ==_refl,
}
use gev.Deps.{Deps, Errno, Result, ok, err}
use gev.EventLoop
use gev.Poller.Epoll
use gev.Poller.Epoll.{Poller}
use gev.EventLoop.{EventLoop, add_socket_and_enable_read, delete_fd_in_loop, delete_socket}

-- No descriptor is there twice.
abbrev pub IsUnique : {S : Type 0} → List (ℕ × S) → Type 0
IsUnique [] = Unit {0}
IsUnique ((k, v) ∷ m) = (lookup k m ≡ none) × IsUnique m

module _ {S : Type 0} where
  pub erase-absent : (k : ℕ) (m : List (ℕ × S)) → lookup k m ≡ none → erase k m ≡ m
  unfolding erase lookup
  erase-absent k [] h = refl
  erase-absent k ((j, v) ∷ m) h = ground (arith, erase-absent k m)

  erase-IsUnique : (k : ℕ) (m : List (ℕ × S)) → IsUnique m → IsUnique (erase k m)
  unfolding erase
  erase-IsUnique k [] u = tt
  erase-IsUnique k ((j, v) ∷ m) u = ground (arith, erase-IsUnique k m u.1, lookup-erase k j m)

  length-erase :
      (k : ℕ) (m : List (ℕ × S)) (v : S)
      → IsUnique m
      → lookup k m ≡ some v
      → suc (length (erase k m)) ≡ length m
  unfolding erase lookup
  length-erase k [] v u h = cc
  length-erase k ((j, w) ∷ m) v u h =
      ground (arith, length-erase k m v u.1, erase-absent j m u.0, ==_iff j k)

  insert-absent : (k : ℕ) (v : S) (m : List (ℕ × S)) → lookup k m ≡ none → insert k v m ≡ (k, v) ∷ m
  unfolding insert
  insert-absent k v m h = ap (λ t. (k, v) ∷ t) (erase-absent k m h)

  erase-insert : (k : ℕ) (v : S) (m : List (ℕ × S)) → lookup k m ≡ none → erase k (insert k v m) ≡ m
  unfolding insert erase
  erase-insert k v m h = rw (==_refl k, erase-absent k m h) (erase-absent k m h)

-- The loop is not stopped, its sockets have different descriptors, and its count is their number.
pub record IsCounted {S T : Type 0} (l : EventLoop S T) (m : List (ℕ × S)) : Type 0 where
  pub live : l.sockets ≡ some m
  pub unique : IsUnique m
  pub counted : l.conn_count ≡ pos (length m)

module _ (D : Deps) {S T : Type 0} where
  -- In a loop whose count of connections is the number of its sockets, it is so again after the
  -- registration of a new descriptor, be it that epoll took it (then there is one more) or that it
  -- refused it (then the sockets are what they were), and there is no panic.
  pub add_socket-IsCounted :
      (fd : ℕ) (s : S) (l : EventLoop S T) (m : List (ℕ × S)) (os : D.Os)
      → IsCounted l m
      → lookup fd m ≡ none
      → (e : Option Errno) × (l' : EventLoop S T) × (os' : D.Os) × (add_socket_and_enable_read D fd
            s l os
          ≡ some (e, l', os'))
        × (((e ≡ none) × IsCounted l' ((fd, s) ∷ m)) ⊎ IsCounted l' m)
  unfolding add_socket_and_enable_read
  add_socket-IsCounted fd s l m os c new =
      let r = Epoll.add_read D l.poll fd os in
      let m' = insert fd s m in
      elim (Option-cases r.0) [
        | inl fine ↦ (
          none,
          record l { sockets = some m'; conn_count = incr l.conn_count },
          r.1,
          rw (c.live, add_socket_and_enable_read) (rw (fine, add_socket_and_enable_read)),
          inl (
            refl,
            record {
              live = ap some (insert-absent fd s m new);
              unique = (new, c.unique);
              counted = ap incr c.counted;
            },
          ),
        )
        | inr (e, failed) ↦ (
          some e,
          record l { sockets = some (erase fd m') },
          r.1,
          rw (c.live, add_socket_and_enable_read) (rw (failed, add_socket_and_enable_read)),
          inr (record {
            live = ap some (erase-insert fd s m new);
            unique = c.unique;
            counted = c.counted;
          }),
        )
      ]

module _ {S T : Type 0} where
  -- A loop that differs from a counted one in a socket taken off, and in the count.
  pub removed-IsCounted :
      (fd : ℕ) (s : S) (l l' : EventLoop S T) (m : List (ℕ × S))
      → IsCounted l m
      → lookup fd m ≡ some s
      → l'.sockets ≡ delete_socket fd l.sockets
      → l'.conn_count ≡ decr l.conn_count
      → IsCounted l' (erase fd m)
  removed-IsCounted fd s l l' m c there gone less = record {
    live = gone ∙ ap (delete_socket fd) c.live;
    unique = erase-IsUnique fd m c.unique;
    counted = less ∙ ground (arith, c.counted, length-erase fd m s c.unique there);
  }

module _ (D : Deps) {S T : Type 0} where
  -- The removal of a registered descriptor takes one off both.
  pub delete_fd-IsCounted :
      (fd : ℕ) (s : S) (l : EventLoop S T) (m : List (ℕ × S)) (os : D.Os)
      → IsCounted l m
      → lookup fd m ≡ some s
      → IsCounted (delete_fd_in_loop D fd l os).0 (erase fd m)
  unfolding delete_fd_in_loop
  delete_fd-IsCounted fd s l m os c there =
      removed-IsCounted fd s l (delete_fd_in_loop D fd l os).0 m c there refl refl

  -- A new loop is counted, with no socket.
  pub new-IsCounted :
      (l : EventLoop S T) (os : D.Os) → (EventLoop.new D os).0 ≡ ok l → IsCounted l []
  unfolding EventLoop.new
  new-IsCounted l os h = made (Epoll.create D os) l h
    where
      made :
          (r : Result Poller × D.Os) (l : EventLoop S T)
          → (EventLoop.new_with {S = S} {T = T} r).0 ≡ ok l
          → IsCounted l []
      made (err e, os) l h = cc
      made (ok p, os) l h = ground arith
