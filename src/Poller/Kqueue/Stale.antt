-- ===== src/Poller/Kqueue/Stale.antt =====
-- poller/kqueue.go: the changes that are computed for the kernel, and the table that they start from.
use gev.Base.{ℕ, ◌≡◌, refl, Bool, true, false, Option, none, some, List, [], ◌∷◌, arith, lookup}
use gev.Deps.{Errno, Result}
use gev.Poller.{event_read, event_write, has}
use gev.Poller.Kqueue.{
  evfilt_read, evfilt_write, evfilt_user, Change, add_enable, delete_oneshot, user_add,
  user_trigger, k_events, Poller, enable_read, enable_read_write,
}

-- What the kernel has registered for one descriptor: its read and its write filter.
abbrev apply : Change → Bool × Bool → Bool × Bool
apply (add_enable fd evfilt_read) (r, w) = (true, w)
apply (add_enable fd evfilt_write) (r, w) = (r, true)
apply (add_enable fd evfilt_user) (r, w) = (r, w)
apply (delete_oneshot fd evfilt_read) (r, w) = (false, w)
apply (delete_oneshot fd evfilt_write) (r, w) = (r, false)
apply (delete_oneshot fd evfilt_user) (r, w) = (r, w)
apply user_add f = f
apply user_trigger f = f

abbrev apply_all : List Change → Bool × Bool → Bool × Bool
apply_all [] f = f
apply_all (c ∷ cs) f = apply_all cs (apply c f)

-- The changes that `kEvents` computes take the filters of the old events to those of the new ones.
k_events_lem :
    (old new fd : ℕ)
    → apply_all (k_events old new fd) (has old event_read, has old event_write)
      ≡ (has new event_read, has new event_write)
unfolding k_events
k_events_lem old new fd = ground arith

module _ {Os : Type 0} (kqueue : Os → Result ℕ × Os)
    (kevent : ℕ → List Change → Os → Option Errno × Os)
    (close_fd : ℕ → Os → Option Errno × Os) where
  enable_read_write_kept :
      (fd : ℕ) (p : Poller) (os : Os)
      → lookup fd p.sockets ≡ some event_read
      → (kevent p.fd (add_enable fd evfilt_write ∷ []) os).0 ≡ none
      → enable_read_write kqueue kevent close_fd fd p os
        ≡ (none, p, (kevent p.fd (add_enable fd evfilt_write ∷ []) os).1)
  unfolding enable_read_write k_events
  enable_read_write_kept fd p os h fine = ground arith

  enable_read_nothing :
      (fd : ℕ) (p : Poller) (os : Os)
      → lookup fd p.sockets ≡ some event_read
      → (enable_read kqueue kevent close_fd fd p os).2 ≡ (kevent p.fd [] os).1
  unfolding enable_read k_events
  enable_read_nothing fd p os h = ground arith

  -- Where the table holds the read event of a descriptor and the kernel takes the changes of
  -- `EnableReadWrite`, the table still holds the read event alone; so the `EnableRead` that follows
  -- hands the kernel no change at all, and the write filter stays registered.
  pub enable_read_stale :
      (fd : ℕ) (p : Poller) (os : Os)
      → lookup fd p.sockets ≡ some event_read
      → (kevent p.fd (add_enable fd evfilt_write ∷ []) os).0 ≡ none
      → let (e, p1, os1) = enable_read_write kqueue kevent close_fd fd p os in
        (p1.sockets ≡ p.sockets)
        × ((enable_read kqueue kevent close_fd fd p1 os1).2 ≡ (kevent p.fd [] os1).1)
  enable_read_stale fd p os h fine =
      rw (enable_read_write_kept fd p os h fine)
        (refl, enable_read_nothing fd p (kevent p.fd (add_enable fd evfilt_write ∷ []) os).1 h)
