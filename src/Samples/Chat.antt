-- ===== src/Samples/Chat.antt =====
-- example/websocket/main.go: a websocket server with a session for each connection, and the goroutine that sends a
-- message to all sessions. The packets of plugins/websocket/ws/util are parameters, `none` where they give
-- an error. The lock of the sessions is the atomicity of `OnConnect`, `OnMessage` and `OnClose`; in the
-- goroutine it is a flag. A session is named by its connection, and the connections are those of one loop.
pub mod Rounds
pub mod Answers
use Prim.Native.String.{String}
use gev.Base.{
  ℕ, ◌%◌, ◌==◌, Bool, true, false, List, [], ◌∷◌, Option, none, some, erase, insert, lookup,
  if◌then◌else◌,
}
use gev.Context
use gev.Deps.{Deps, Bytes}
use gev.Connection.{Connection, State}
use gev.Connection.Close.{send}
use gev.Reactor.{World, on_conn}
use gev.Plugins.Websocket.{MessageType, message_text, message_binary, message_other}

pub record Session (D : Deps) : Type 0 where
  pub first : Bool
  pub header : Option D.Value
  pub conn : ℕ

-- `sessions[c]`, where a session may be nil.
abbrev pub Sessions : Deps → Type 0
Sessions D = List (ℕ × Option (Session D))

pub record Packets (D : Deps) : Type 0 where
  pub pack_data : MessageType → Bytes → Option D.Data
  pub pack_close_data : String → Option D.Data

abbrev pub key_request_header : String
key_request_header = "requestHeader"

module _ (D : Deps) where
  unfoldable pub on_connect : ℕ → Sessions D → Sessions D
  on_connect c sessions =
      insert c (some (record { first = true; header = none; conn = c })) sessions

  unfoldable pub on_close : ℕ → Sessions D → Sessions D
  on_close c sessions = erase c sessions

  -- The first message of a session takes the header from the context, where the type assertions on what the
  -- upgrader put there hold.
  unfoldable pub greet : State D → Session D → Session D
  greet s session =
      let header = Context.get key_request_header s.conn.key_values in
      let kept : Session D = record session { first = false } in
      if session.first
      then elim header [ none ↦ kept | some h ↦ record kept { header = some h } ]
      else session

module _ (D : Deps) (K : Packets D) where
  -- `panic` where `Send` fails.
  unfoldable pub must_send : D.Data → State D → Option (State D)
  must_send msg s =
      let (e, s') = send D msg none s in elim e [ none ↦ some s' | some failed ↦ none ]

  unfoldable pub must_close : String → State D → Option (State D)
  unfolding must_send
  must_close reason s = elim (K.pack_close_data reason) [ none ↦ none | some msg ↦ must_send msg s ]

  unfoldable pub send_data : Bytes → State D → Option (State D)
  unfolding must_close
  send_data received s = elim (K.pack_data message_text received) [
    | none ↦ none
    | some msg ↦
        let (e, s') = send D msg none s in
        elim e [ none ↦ some s' | some failed ↦ must_close "connection closed" s' ]
  ]

  -- What `OnMessage` does for `rand.Int()`: its `out`, the state, and how many goroutines it starts; `none` is a
  -- panic.
  unfoldable pub answer : ℕ → Bytes → State D → Option (Bytes × State D × ℕ)
  unfolding send_data must_close
  answer n received s =
      if n % 4 == 0
      then some (received, s, 0)
      else if n % 4 == 1
      then elim (send_data received s) [ none ↦ none | some t ↦ some ([], t, 0) ]
      else if n % 4 == 2
      then elim (must_close "close" s) [ none ↦ none | some t ↦ some ([], t, 0) ]
      else some ([], s, 10)

  -- One of the goroutines that `OnMessage` starts: `async_bytes` is the text that it sends.
  unfoldable pub async_send : Bytes → State D → Option (State D)
  unfolding must_send
  async_send async_bytes s = elim (K.pack_data message_text async_bytes) [
    | none ↦ none
    | some msg ↦ must_send msg s
  ]

  -- A connection with no session gives the zero type and no bytes; a nil session is a panic.
  unfoldable pub on_message :
      ℕ → Bytes → Sessions D → State D → Option (Sessions D × MessageType × Bytes × State D × ℕ)
  unfolding greet answer
  on_message n received sessions s = elim (lookup s.self sessions) [
    | none ↦ some (sessions, message_other 0, [], s, 0)
    | some none ↦ none
    | some (some session) ↦
        let greeted = insert s.self (some (greet D s session)) sessions in
        elim (answer n received s) [
          | none ↦ none
          | some (out, t, started) ↦ some (greeted, message_binary, out, t, started)
        ]
  ]

-- `Unlock`: `none` is the end of the program where the mutex is not locked.
abbrev pub unlock : Bool → Option Bool
unlock true = some false
unlock false = none

module _ (D : Deps) (packed : Option D.Data) where
  -- The body of the `range` for one session, from the state of the mutex on; `packed` is the message.
  unfoldable pub send_one : Option (Session D) → Bool → World D → Option (Bool × World D)
  unfolding on_conn
  send_one none locked w = elim (unlock locked) [ none ↦ none | some l ↦ some (l, w) ]
  send_one (some session) locked w = elim packed [
    | none ↦ elim (unlock locked) [ none ↦ none | some l ↦ some (l, w) ]
    | some msg ↦ some (locked, on_conn D session.conn (λ s. (send D msg none s).1) w)
  ]

  unfoldable pub send_each : Sessions D → Bool → World D → Option (Bool × World D)
  unfolding send_one
  send_each [] locked w = some (locked, w)
  send_each ((c, session) ∷ rest) locked w = elim (send_one session locked w) [
    | none ↦ none
    | some (l, w') ↦ send_each rest l w'
  ]

  -- What is left of a round behind the `range`.
  unfoldable pub end_round : Option (Bool × World D) → Option (World D)
  end_round none = none
  end_round (some (locked, w)) = elim (unlock locked) [ none ↦ none | some l ↦ some w ]

  -- A round of `loopBoardcast`, up to its `Sleep`.
  unfoldable pub broadcast_round : Sessions D → World D → Option (World D)
  unfolding send_each end_round
  broadcast_round sessions w = end_round (send_each sessions true w)
