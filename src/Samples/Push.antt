-- ===== src/Samples/Push.antt =====
-- example/pushmessage/main.go and example/bufferlength/main.go: servers that keep a list of their connections
-- and send a message to each of them every second. An element of the list is named by a number, as the
-- source names it by a pointer; the connections are those of one loop. The lock of the list is the
-- atomicity of each operation.
pub mod Registry
use Prim.Native.String.{String}
use gev.Base.{
  ℕ, suc, ◌*◌, Bool, true, false, List, [], ◌∷◌, ◌++◌, Option, none, some, if◌then◌else◌, ltb,
  erase,
}
use gev.Context
use gev.Deps.{Deps}
use gev.Connection.{Connection, State, Call, call_set}
use gev.Connection.Close.{send}
use gev.Reactor.{World, on_conn}

abbrev pub clients_key : String
clients_key = "demo_push_message_key"

-- The list of the connections, front first, each under the number of its element.
pub record Clients : Type 0 where
  pub elements : List (ℕ × ℕ)
  pub next_element : ℕ

-- `PushBack`, with the element that it gives.
abbrev pub push_back : ℕ → Clients → ℕ × Clients
push_back c s = (
  s.next_element,
  record s { elements = s.elements ++ (s.next_element, c) ∷ []; next_element = suc s.next_element },
)

module _ (D : Deps) where
  -- `of_element` makes an element a value of a context.
  unfoldable pub on_connect : (ℕ → D.Value) → ℕ → Clients → Clients × List (Call D)
  on_connect of_element c s =
      let (e, s') = push_back c s in (s', call_set clients_key (of_element e) ∷ [])

  -- `to_element` is the assertion `v.(*list.Element)`, where `none` is its panic.
  unfoldable pub on_close : (D.Value → Option ℕ) → Connection D → Clients → Option Clients
  on_close to_element c s = elim (Context.get clients_key c.key_values) [
    | none ↦ some s
    | some v ↦ elim (to_element v) [
      | none ↦ none
      | some e ↦ some (record s { elements = erase e s.elements })
    ]
  ]

  -- `RunPush` from an element on; the error of `Send` is dropped.
  unfoldable pub run_push : (Connection D → Bool) → D.Data → List (ℕ × ℕ) → World D → World D
  unfolding on_conn
  run_push skip hello [] w = w
  run_push skip hello ((e, c) ∷ rest) w =
      run_push skip hello rest
        (if skip (w.conns c) then w else on_conn D c (λ s. (send D hello none s).1) w)

  -- `example/pushmessage` sends to all, `example/bufferlength` to those with little to write.
  abbrev pub push_all : D.Data → Clients → World D → World D
  push_all hello s w = run_push (λ c. false) hello s.elements w

  abbrev pub push_limited : D.Data → Clients → World D → World D
  push_limited hello s w = run_push (λ c. ltb (1024 * 10) c.out_buffer_len) hello s.elements w
