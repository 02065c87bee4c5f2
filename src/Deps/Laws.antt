-- ===== src/Deps/Laws.antt =====
-- What the documentation of the outside packages says of the operations in `Deps`. The ring buffer is
-- seen through the bytes that it holds; the kernel through the bytes that it accepted for a
-- descriptor and through the events that an epoll instance watches.
use gev.Base.{ℕ, ◌+◌, ◌*◌, ◌∷◌, ◌≤◌, ◌≡◌, [], ◌++◌, Option, none, some, length, take, drop, is_nil}
use gev.Deps.{Deps, Bytes, Errno, CtlOp, ctl_mod}

-- The bytes that a ring holds, in order.
abbrev pub contents : (D : Deps) → D.Ring → Bytes
contents D r = (D.peek_all r).0 ++ (D.peek_all r).1

pub record RingLaws (D : Deps) : Type 0 where
  pub is_empty_lem : (r : D.Ring) → D.is_empty r ≡ is_nil (contents D r)
  pub ring_length_lem : (r : D.Ring) → D.ring_length r ≡ length (contents D r)
  pub contents-new_ring : contents D D.new_ring ≡ []
  pub contents-ring_write :
      (b : Bytes) (r : D.Ring) → contents D (D.ring_write b r) ≡ contents D r ++ b
  pub contents-retrieve : (n : ℕ) (r : D.Ring) → contents D (D.retrieve n r) ≡ drop n (contents D r)
  pub contents-retrieve_all : (r : D.Ring) → contents D (D.retrieve_all r) ≡ []
  pub contents-reset : (r : D.Ring) → contents D (D.reset r) ≡ []
  pub contents-with_data : (b : Bytes) (r : D.Ring) → contents D (D.with_data b r) ≡ b
  pub ring_read_bytes : (n : ℕ) (r : D.Ring) → (D.ring_read n r).0 ≡ take n (contents D r)
  pub ring_read_rest : (n : ℕ) (r : D.Ring) → contents D (D.ring_read n r).1 ≡ drop n (contents D r)
  -- Big-endian, at the front of the bytes.
  pub peek_uint32_lem :
      (a b c d : ℕ) (rest : Bytes) (r : D.Ring)
      → contents D r ≡ a ∷ b ∷ c ∷ d ∷ rest
      → D.peek_uint32 r ≡ ((a * 256 + b) * 256 + c) * 256 + d
  pub peek_uint16_lem :
      (a b : ℕ) (rest : Bytes) (r : D.Ring)
      → contents D r ≡ a ∷ b ∷ rest
      → D.peek_uint16 r ≡ a * 256 + b

-- What a descriptor was sent: `sent` is the stream of bytes that the kernel took for it.
pub record WriteLaws (D : Deps) (sent : ℕ → D.Os → Bytes) : Type 0 where
  -- A write takes a prefix of its bytes.
  pub write_le : (fd : ℕ) (b : Bytes) (os : D.Os) → (D.write fd b os).0 ≤ length b
  pub write_sent :
      (fd : ℕ) (b : Bytes) (os : D.Os)
      → sent fd (D.write fd b os).2 ≡ sent fd os ++ take (D.write fd b os).0 b
  -- A write that fails takes nothing.
  pub write_err :
      (fd : ℕ) (b : Bytes) (os : D.Os) (e : Errno)
      → (D.write fd b os).1 ≡ some e
      → (D.write fd b os).0 ≡ 0
  -- To change what an epoll instance watches sends nothing.
  pub epoll_ctl_sent :
      (ep : ℕ) (op : CtlOp) (fd ev other : ℕ) (os : D.Os)
      → sent other (D.epoll_ctl ep op fd ev os).1 ≡ sent other os

-- What a descriptor gave: `received` is the stream of bytes that were read from it.
pub record ReadLaws (D : Deps) (sent received : ℕ → D.Os → Bytes) : Type 0 where
  pub read_received :
      (fd n : ℕ) (os : D.Os) → received fd (D.read fd n os).2 ≡ received fd os ++ (D.read fd n os).0
  -- A read that fails gives nothing.
  pub read_err :
      (fd n : ℕ) (os : D.Os) (e : Errno) → (D.read fd n os).1 ≡ some e → (D.read fd n os).0 ≡ []
  pub read_sent : (fd n other : ℕ) (os : D.Os) → sent other (D.read fd n os).2 ≡ sent other os
  pub write_received :
      (fd other : ℕ) (b : Bytes) (os : D.Os)
      → received other (D.write fd b os).2 ≡ received other os
  pub epoll_ctl_received :
      (ep : ℕ) (op : CtlOp) (fd ev other : ℕ) (os : D.Os)
      → received other (D.epoll_ctl ep op fd ev os).1 ≡ received other os

-- What an epoll instance watches: `watched ep fd` is the events of a descriptor, if it is registered.
pub record EpollLaws (D : Deps) (watched : ℕ → ℕ → D.Os → Option ℕ) : Type 0 where
  pub ctl_mod_lem :
      (ep fd ev : ℕ) (os : D.Os)
      → (D.epoll_ctl ep ctl_mod fd ev os).0 ≡ none
      → watched ep fd (D.epoll_ctl ep ctl_mod fd ev os).1 ≡ some ev
  pub write_watched :
      (ep fd wfd : ℕ) (b : Bytes) (os : D.Os)
      → watched ep fd (D.write wfd b os).2 ≡ watched ep fd os
  pub read_watched :
      (ep fd rfd n : ℕ) (os : D.Os) → watched ep fd (D.read rfd n os).2 ≡ watched ep fd os
  pub shutdown_watched :
      (ep fd sfd : ℕ) (os : D.Os) → watched ep fd (D.shutdown_wr sfd os).1 ≡ watched ep fd os
  pub after_func_watched :
      (ep fd delay c : ℕ) (os : D.Os) → watched ep fd (D.after_func delay c os).1 ≡ watched ep fd os
  -- A registered descriptor can be changed.
  pub ctl_mod_ok :
      (ep fd ev old : ℕ) (os : D.Os)
      → watched ep fd os ≡ some old
      → (D.epoll_ctl ep ctl_mod fd ev os).0 ≡ none
