-- ===== src/Windows/Closers.antt =====
-- server_std.go: `Close`, called by several goroutines (the two loops of a connection, its timer, those of the user)
-- at once; a number is a call. Each test, the close of the channel and the store of the flag is a step, in any order.
pub mod Once
use gev.Base.{ℕ, ◌+◌, ◌≡◌, Bool, true, false, ◌==◌, if◌then◌else◌}

-- Where a goroutine is: it has not begun; it saw `connected` set; it closed `dying`; it cleared `connected`; it
-- has returned; or its `close` of the closed channel panicked.
pub data Pc : Type 0 where
  ready tested shut cleared returned panicked : Pc

pub record Shared : Type 0 where
  pub connected : Bool
  pub dying : Bool
  -- How often `OnClose` was called.
  pub closes : ℕ
  pub pc : ℕ → Pc

abbrev pub move : ℕ → Pc → (ℕ → Pc) → ℕ → Pc
move i p pc k = if k == i then p else pc k

pub data Step (s : Shared) : Shared → Type 0 where
  test_open :
      (i : ℕ) → s.pc i ≡ ready → s.connected ≡ true → Step s (record s { pc = move i tested s.pc })
  test_closed :
      (i : ℕ)
      → s.pc i ≡ ready
      → s.connected ≡ false
      → Step s (record s { pc = move i returned s.pc })
  close_dying :
      (i : ℕ)
      → s.pc i ≡ tested
      → s.dying ≡ false
      → Step s (record s { dying = true; pc = move i shut s.pc })
  -- The close of a closed channel.
  close_again :
      (i : ℕ) → s.pc i ≡ tested → s.dying ≡ true → Step s (record s { pc = move i panicked s.pc })
  clear :
      (i : ℕ) → s.pc i ≡ shut → Step s (record s { connected = false; pc = move i cleared s.pc })
  call_on_close :
      (i : ℕ)
      → s.pc i ≡ cleared
      → Step s (record s { closes = s.closes + 1; pc = move i returned s.pc })

abbrev pub start : Shared
start = record { connected = true; dying = false; closes = 0; pc = λ i. ready }

pub data Reach (s : Shared) : Shared → Type 0 where
  here : Reach s s
  next : {t u : Shared} → Reach s t → Step t u → Reach s u
