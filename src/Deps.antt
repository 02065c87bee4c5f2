-- ===== src/Deps.antt =====
-- What the program takes from packages outside the repository, as one record of types and operations:
-- the system calls of golang.org/x/sys/unix, the clock, the timing wheel and the ring buffers of
-- github.com/Allenxuxu/ringbuffer, with the types that a user of the library chooses. `Os` is the
-- state of the kernel, the clock, the timing wheel and the pool of ring buffers. Children state what
-- the documentation of these packages says of the operations, and build small instances.
pub mod Laws
pub mod Simple
use gev.Base.{ℕ, Bool, true, false, List, Option}

abbrev pub Bytes : Type 0
Bytes = List ℕ

pub data Errno : Type 0 where
  eagain eintr : Errno
  other : ℕ → Errno

abbrev pub is_eagain : Errno → Bool
is_eagain eagain = true
is_eagain eintr = false
is_eagain (other n) = false

-- A call that gives a value or an error.
pub data Result {ℓ} (A : Type ℓ) : Type ℓ where
  ok : A → Result A
  err : Errno → Result A

-- `EPOLL_CTL_ADD`, `EPOLL_CTL_MOD` and `EPOLL_CTL_DEL`.
pub data CtlOp : Type 0 where
  ctl_add ctl_mod ctl_del : CtlOp

-- `unix.Sockaddr`: the two kinds that the program tells apart, and the name of any other type.
pub data Sockaddr (Text : Type 0) : Type 0 where
  inet4 : Bytes → ℕ → Sockaddr Text
  inet6 : Bytes → ℕ → Sockaddr Text
  unknown : Text → Sockaddr Text

pub record Deps : Type 1 where
  pub Os : Type 0
  pub Ring : Type 0
  pub Timer : Type 0
  -- The `ctx interface{}` that is not nil, the data given to `Packet`, values of a context, and the
  -- state of the user's handler.
  pub Ctx : Type 0
  pub Data : Type 0
  pub Value : Type 0
  pub User : Type 0
  -- golang.org/x/sys/unix. The count of a write is 0 where the call gives -1, beside an error: the
  -- program tests only `n <= 0` then.
  pub read : ℕ → ℕ → Os → Bytes × Option Errno × Os
  pub write : ℕ → Bytes → Os → ℕ × Option Errno × Os
  pub close_fd : ℕ → Os → Option Errno × Os
  pub shutdown_wr : ℕ → Os → Option Errno × Os
  pub epoll_create : Os → Result ℕ × Os
  pub eventfd : Os → Result ℕ × Os
  pub epoll_ctl : ℕ → CtlOp → ℕ → ℕ → Os → Option Errno × Os
  -- `time.Now()`, in nanoseconds since the epoch.
  pub now : Os → ℕ
  -- The timing wheel: a timer that fires after a delay for the connection with this number.
  pub after_func : ℕ → ℕ → Os → Timer × Os
  pub stop_timer : Timer → Os → Os
  -- Ring buffers.
  pub new_ring : Ring
  pub get_from_pool : Os → Ring × Os
  pub put_in_pool : Ring → Os → Os
  pub is_empty : Ring → Bool
  pub ring_length : Ring → ℕ
  pub peek_all : Ring → Bytes × Bytes
  pub ring_write : Bytes → Ring → Ring
  pub retrieve : ℕ → Ring → Ring
  pub retrieve_all : Ring → Ring
  pub reset : Ring → Ring
  pub with_data : Bytes → Ring → Ring
  pub peek_uint32 : Ring → ℕ
  pub peek_uint16 : Ring → ℕ
  pub ring_read : ℕ → Ring → Bytes × Ring
