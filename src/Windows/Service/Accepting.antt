-- ===== src/Windows/Service/Accepting.antt =====
-- server_std.go: the server for Windows at work. The accept loops that `Start` runs, one call of `Stop`, and
-- connections that close for reasons of their own take their steps in any order. A number is a connection, in
-- the order in which they were accepted; another one is an accept loop.
pub mod Sound
pub mod Stopped
pub mod Missed
use gev.Base.{ℕ, suc, ◌≡◌, ◌<◌, Bool, true, false, List, [], ◌∷◌, has, update, ℤ, pos}
use gev.Windows.Service.{Server, start, store}

-- An accept loop: at its `select`; in `Accept`; with a connection that it has made and not stored; or at its end.
pub data LoopPc : Type 0 where
  selecting accepting over : LoopPc
  taken : ℕ → LoopPc

-- `Stop`: not called; it saw `running` set; it closed `dying`; it cleared `running`; it stopped the timing wheel and
-- closed the listener; it visits the connections that are left of those it found; or it has returned, after that
-- or because `running` was not set.
pub data StopPc : Type 0 where
  uncalled tested shut cleared closed finished ignored : StopPc
  visiting : List ℕ → StopPc

abbrev pub is_idle : StopPc → Bool
is_idle uncalled = true
is_idle ignored = true
is_idle _ = false

pub record System : Type 0 where
  pub server : Server
  -- What `connected` is of each connection, and the number of the next one.
  pub open_conn : ℕ → Bool
  pub next_conn : ℕ
  pub loops : ℕ → LoopPc
  pub stopping : StopPc
  -- The connections in the map when `Stop` began to visit them.
  pub found : List ℕ

abbrev pub with_loop : ℕ → LoopPc → System → System
with_loop i pc s = record s { loops = update i pc s.loops }

abbrev pub with_stop : Server → StopPc → System → System
with_stop v pc s = record s { server = v; stopping = pc }

-- `Accept` gives a connection, and `NewConnection` makes it.
unfoldable pub accept : ℕ → System → System
accept i s = record s {
  open_conn = update s.next_conn true s.open_conn;
  next_conn = suc s.next_conn;
  loops = update i (taken s.next_conn) s.loops;
}

-- `Store`, after which the loops of the connection run.
unfoldable pub store_taken : ℕ → ℕ → System → System
unfolding store
store_taken i c s = record s { server = store c s.server; loops = update i selecting s.loops }

abbrev pub close_conn : ℕ → System → System
close_conn c s = record s { open_conn = update c false s.open_conn }

-- A step from `s` to `t`. `Range` visits each key that the map has when it begins, and may visit those that come
-- meanwhile.
pub data Step (s t : System) : Type 0 where
  set_running :
      is_idle s.stopping ≡ true
      → s.server.running ≡ false
      → t ≡ record s { server = start s.server }
      → Step s t
  conn_closes : (c : ℕ) → t ≡ close_conn c s → Step s t
  loop_ends :
      (i : ℕ) → s.loops i ≡ selecting → s.server.dying ≡ true → t ≡ with_loop i over s → Step s t
  loop_goes_on :
      (i : ℕ)
      → s.loops i ≡ selecting
      → s.server.dying ≡ false
      → t ≡ with_loop i accepting s
      → Step s t
  accept_fails : (i : ℕ) → s.loops i ≡ accepting → t ≡ with_loop i selecting s → Step s t
  accepts : (i : ℕ) → s.loops i ≡ accepting → s.server.listening ≡ true → t ≡ accept i s → Step s t
  stores : (i c : ℕ) → s.loops i ≡ taken c → t ≡ store_taken i c s → Step s t
  stop_ignored :
      s.stopping ≡ uncalled → s.server.running ≡ false → t ≡ with_stop s.server ignored s → Step s t
  stop_tests :
      s.stopping ≡ uncalled → s.server.running ≡ true → t ≡ with_stop s.server tested s → Step s t
  close_dying :
      (v : Server)
      → s.stopping ≡ tested
      → v ≡ (let u = s.server in record u { dying = true })
      → t ≡ with_stop v shut s
      → Step s t
  clear_running :
      (v : Server)
      → s.stopping ≡ shut
      → v ≡ (let u = s.server in record u { running = false })
      → t ≡ with_stop v cleared s
      → Step s t
  close_listener :
      (v : Server)
      → s.stopping ≡ cleared
      → v ≡ (let u = s.server in record u { listening = false })
      → t ≡ with_stop v closed s
      → Step s t
  range_begins :
      (left : List ℕ)
      → s.stopping ≡ closed
      → ((c : ℕ) → has c left ≡ has c s.server.connections)
      → t ≡ record s { stopping = visiting left; found = s.server.connections }
      → Step s t
  visits :
      (c : ℕ) (left : List ℕ)
      → s.stopping ≡ visiting (c ∷ left)
      → t ≡ with_stop s.server (visiting left) (close_conn c s)
      → Step s t
  visits_late :
      (c : ℕ) (left : List ℕ)
      → s.stopping ≡ visiting left
      → has c s.server.connections ≡ true
      → t ≡ close_conn c s
      → Step s t
  range_ends : s.stopping ≡ visiting [] → t ≡ with_stop s.server finished s → Step s t

-- The server that `NewServer` makes, with the accept loops that `Start` runs.
abbrev pub new_system : ℤ → System
new_system num_loops = record {
  server = record {
    running = false;
    dying = false;
    listening = true;
    connections = [];
    num_loops = num_loops;
  };
  open_conn = λ c. false;
  next_conn = 0;
  loops = λ i. selecting;
  stopping = uncalled;
  found = [];
}

pub data Reach (s : System) : System → Type 0 where
  here : Reach s s
  next : {t u : System} → Reach s t → Step t u → Reach s u
