-- ===== src/Deps/Simple.antt =====
-- A small instance of the outside packages, which takes writes up to a budget, hands out given inputs and
-- keeps what an epoll instance watches, of descriptors below 100, with the proofs that it does what their documentation says.
use gev.Base.{
  ltb, ℕ, zero, suc, ◌+◌, ◌-◌, ◌*◌, ◌∷◌, ◌≤◌, ◌≡◌, refl, sym, List, [], ◌++◌, Option, none, some,
  length, take, drop, is_nil, min, arith, ◌==◌, if◌then◌else◌, append_assoc, append-nil, ap,
}
use gev.Deps.{Deps, Bytes, Errno, eagain, other, Result, ok, CtlOp, ctl_add, ctl_mod, ctl_del}
use gev.Deps.Laws.{RingLaws, WriteLaws, ReadLaws, EpollLaws}

pub record Os : Type 0 where
  -- What each descriptor was sent, and how many more bytes the kernel takes.
  pub sent : ℕ → Bytes
  pub room : ℕ
  -- What was read from each descriptor.
  pub received : ℕ → Bytes
  -- What arrives next at any descriptor.
  pub inputs : List Bytes
  pub watched : ℕ → ℕ → Option ℕ
  pub clock : ℕ
  pub next_fd : ℕ

abbrev at : {A : Type 0} → ℕ → A → (ℕ → A) → ℕ → A
at k v f j = if j == k then v else f j

abbrev read : ℕ → ℕ → Os → Bytes × Option Errno × Os
read fd n os = elim os.inputs [
  | [] ↦ ([], some eagain, os)
  | b ∷ bs ↦ (
    take n b,
    none,
    record os { received = at fd (os.received fd ++ take n b) os.received; inputs = bs },
  )
]

abbrev write : ℕ → Bytes → Os → ℕ × Option Errno × Os
write fd b os = elim os.room [
  | zero ↦ (0, some eagain, os)
  | suc r ↦
      let n = min (suc r) (length b) in
      (n, none, record os { sent = at fd (os.sent fd ++ take n b) os.sent; room = suc r - n })
]

abbrev watch : ℕ → ℕ → Option ℕ → Os → Os
watch ep fd ev os = record os { watched = at ep (at fd ev (os.watched ep)) os.watched }

abbrev epoll_ctl : ℕ → CtlOp → ℕ → ℕ → Os → Option Errno × Os
epoll_ctl ep ctl_add fd ev os =
    if ltb fd 100 then (none, watch ep fd (some ev) os) else (some (other 28), os)
epoll_ctl ep ctl_mod fd ev os = elim (os.watched ep fd) [
  | none ↦ (some (other 2), os)
  | some old ↦ (none, watch ep fd (some ev) os)
]
epoll_ctl ep ctl_del fd ev os = (none, watch ep fd none os)

abbrev new_fd : Os → Result ℕ × Os
new_fd os = (ok os.next_fd, record os { next_fd = suc os.next_fd })

-- A ring is its two pieces.
abbrev bytes : Bytes × Bytes → Bytes
bytes r = r.0 ++ r.1

abbrev uint32 : Bytes → ℕ
uint32 (a ∷ b ∷ c ∷ d ∷ rest) = ((a * 256 + b) * 256 + c) * 256 + d
uint32 short = 0

abbrev uint16 : Bytes → ℕ
uint16 (a ∷ b ∷ rest) = a * 256 + b
uint16 short = 0

abbrev pub sim : Deps
sim = record {
  Os = Os;
  Ring = Bytes × Bytes;
  Timer = ℕ;
  Ctx = ℕ;
  Data = Bytes;
  Value = ℕ;
  User = List ℕ;
  read = read;
  write = write;
  close_fd = λ fd os. (none, os);
  shutdown_wr = λ fd os. (none, os);
  epoll_create = new_fd;
  eventfd = new_fd;
  epoll_ctl = epoll_ctl;
  now = λ os. os.clock;
  after_func = λ delay c os. (delay, os);
  stop_timer = λ t os. os;
  new_ring = ([], []);
  get_from_pool = λ os. (([], []), os);
  put_in_pool = λ r os. os;
  is_empty = λ r. is_nil (bytes r);
  ring_length = λ r. length (bytes r);
  peek_all = λ r. r;
  ring_write = λ b r. (r.0, r.1 ++ b);
  retrieve = λ n r. (drop n (bytes r), []);
  retrieve_all = λ r. ([], []);
  reset = λ r. ([], []);
  with_data = λ b r. (b, []);
  peek_uint32 = λ r. uint32 (bytes r);
  peek_uint16 = λ r. uint16 (bytes r);
  ring_read = λ n r. (take n (bytes r), (drop n (bytes r), []));
}

abbrev pub quiet : Os
quiet = record {
  sent = λ fd. [];
  room = 3;
  received = λ fd. [];
  inputs = (7 ∷ 8 ∷ []) ∷ [];
  watched = λ ep fd. some 3;
  clock = 5;
  next_fd = 10;
}

pub sim-RingLaws : RingLaws sim
sim-RingLaws = record {
  is_empty_lem = λ r. refl;
  ring_length_lem = λ r. refl;
  contents-new_ring = refl;
  contents-ring_write = λ b r. sym (append_assoc r.0 r.1 b);
  contents-retrieve = λ n r. append-nil (drop n (bytes r));
  contents-retrieve_all = λ r. refl;
  contents-reset = λ r. refl;
  contents-with_data = λ b r. append-nil b;
  ring_read_bytes = λ n r. refl;
  ring_read_rest = λ n r. append-nil (drop n (bytes r));
  peek_uint32_lem = λ a b c d rest r h. ap uint32 h;
  peek_uint16_lem = λ a b rest r h. ap uint16 h;
}

write_le : (fd : ℕ) (b : Bytes) (os : Os) → (write fd b os).0 ≤ length b
write_le fd b os = ground arith

write_sent :
    (fd : ℕ) (b : Bytes) (os : Os)
    → (write fd b os).2.sent fd ≡ os.sent fd ++ take (write fd b os).0 b
write_sent fd b os = ground (arith, append-nil (os.sent fd))

write_err :
    (fd : ℕ) (b : Bytes) (os : Os) (e : Errno) → (write fd b os).1 ≡ some e → (write fd b os).0 ≡ 0
write_err fd b os e h = ground arith

epoll_ctl_sent :
    (ep : ℕ) (op : CtlOp) (fd ev k : ℕ) (os : Os) → (epoll_ctl ep op fd ev os).1.sent k ≡ os.sent k
epoll_ctl_sent ep ctl_add fd ev k os = ground arith
epoll_ctl_sent ep ctl_mod fd ev k os = ground arith
epoll_ctl_sent ep ctl_del fd ev k os = refl

pub sim-WriteLaws : WriteLaws sim (λ fd os. os.sent fd)
sim-WriteLaws = record {
  write_le = write_le;
  write_sent = write_sent;
  write_err = write_err;
  epoll_ctl_sent = epoll_ctl_sent;
}

ctl_mod_lem :
    (ep fd ev : ℕ) (os : Os)
    → (epoll_ctl ep ctl_mod fd ev os).0 ≡ none
    → (epoll_ctl ep ctl_mod fd ev os).1.watched ep fd ≡ some ev
ctl_mod_lem ep fd ev os h = ground arith

write_watched :
    (ep fd wfd : ℕ) (b : Bytes) (os : Os) → (write wfd b os).2.watched ep fd ≡ os.watched ep fd
write_watched ep fd wfd b os = ground arith

read_watched : (ep fd rfd n : ℕ) (os : Os) → (read rfd n os).2.watched ep fd ≡ os.watched ep fd
read_watched ep fd rfd n os = ground arith

ctl_mod_ok :
    (ep fd ev old : ℕ) (os : Os)
    → os.watched ep fd ≡ some old
    → (epoll_ctl ep ctl_mod fd ev os).0 ≡ none
ctl_mod_ok ep fd ev old os h = ground arith

pub sim-EpollLaws : EpollLaws sim (λ ep fd os. os.watched ep fd)
sim-EpollLaws = record {
  ctl_mod_lem = ctl_mod_lem;
  write_watched = write_watched;
  read_watched = read_watched;
  shutdown_watched = λ ep fd sfd os. refl;
  after_func_watched = λ ep fd delay c os. refl;
  ctl_mod_ok = ctl_mod_ok;
}

read_received :
    (fd n : ℕ) (os : Os) → (read fd n os).2.received fd ≡ os.received fd ++ (read fd n os).0
read_received fd n os = ground (arith, append-nil (os.received fd))

read_err : (fd n : ℕ) (os : Os) (e : Errno) → (read fd n os).1 ≡ some e → (read fd n os).0 ≡ []
read_err fd n os e h = ground arith

read_sent : (fd n k : ℕ) (os : Os) → (read fd n os).2.sent k ≡ os.sent k
read_sent fd n k os = ground arith

write_received : (fd k : ℕ) (b : Bytes) (os : Os) → (write fd b os).2.received k ≡ os.received k
write_received fd k b os = ground arith

epoll_ctl_received :
    (ep : ℕ) (op : CtlOp) (fd ev k : ℕ) (os : Os)
    → (epoll_ctl ep op fd ev os).1.received k ≡ os.received k
epoll_ctl_received ep ctl_add fd ev k os = ground arith
epoll_ctl_received ep ctl_mod fd ev k os = ground arith
epoll_ctl_received ep ctl_del fd ev k os = refl

pub sim-ReadLaws : ReadLaws sim (λ fd os. os.sent fd) (λ fd os. os.received fd)
sim-ReadLaws = record {
  read_received = read_received;
  read_err = read_err;
  read_sent = read_sent;
  write_received = write_received;
  epoll_ctl_received = epoll_ctl_received;
}
