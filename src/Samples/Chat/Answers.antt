-- ===== src/Samples/Chat/Answers.antt =====
-- example/websocket/main.go: what `OnMessage` does to its connection, and the goroutines that it starts.
use gev.Base.{
  ℕ, ◌%◌, ◌==◌, ◌≡◌, refl, ◌∙◌, true, false, List, [], ◌∷◌, ◌++◌, none, some, lookup, insert,
  lookup-insert, ==_refl, if◌then◌else◌, arith, append-nil, inl, inr, Bool-cases,
}
use gev.Deps.{Deps, Bytes}
use gev.EventLoop
use gev.Connection.{State, Handler, Task, send_task}
use gev.Connection.Close.{send, handle_close}
use gev.Connection.Closed.{handle_close_connected}
use gev.Plugins.Websocket.{message_text, message_binary}
use gev.Samples.Chat.{
  Session, Sessions, Packets, greet, must_send, must_close, send_data, answer, async_send,
  on_message,
}

module _ (D : Deps) (K : Packets D) where
  -- `Send` of an open connection queues a task and gives no error.
  send_open :
      (v : D.Data) (s : State D)
      → s.conn.connected ≡ true
      → send D v none s ≡ (none, (send D v none s).1)
  unfolding send
  send_open v s up = ground arith

  send_queued :
      (v : D.Data) (s : State D)
      → s.conn.connected ≡ true
      → (send D v none s).1.loop.task_queue_w ≡ s.loop.task_queue_w ++ send_task s.self v none ∷ []
  unfolding send EventLoop.queue_in_loop
  send_queued v s up = ground arith

  -- What `OnMessage` sends by itself for `rand.Int()`.
  abbrev pub own_sends : ℕ → D.Data → D.Data → ℕ → List (Task D)
  own_sends c msg bye n =
      if n % 4 == 1
      then send_task c msg none ∷ []
      else if n % 4 == 2
      then send_task c bye none ∷ []
      else []

  -- The result of `OnMessage`: it echoes the message, or it sends something, or it starts ten goroutines.
  record Answer (n : ℕ) (received : Bytes) (msg bye : D.Data) (s : State D)
      (r : Bytes × State D × ℕ) : Type 0 where
    given : answer D K n received s ≡ some r
    out : r.0 ≡ (if n % 4 == 0 then received else [])
    queue : r.1.loop.task_queue_w ≡ s.loop.task_queue_w ++ own_sends s.self msg bye n
    started : r.2 ≡ (if n % 4 == 3 then 10 else 0)

  answer_lem :
      (n : ℕ) (received : Bytes) (msg bye : D.Data) (s : State D)
      → s.conn.connected ≡ true
      → K.pack_data message_text received ≡ some msg
      → K.pack_close_data "close" ≡ some bye
      → (r : Bytes × State D × ℕ) × Answer n received msg bye s r
  unfolding answer send_data must_close must_send
  answer_lem n received msg bye s up packed closing = elim (Bool-cases (n % 4 == 0)) [
    | inl zeroth ↦ (
      (received, s, 0),
      record {
        given = ground (arith);
        out = ground arith;
        queue = ground (arith, append-nil s.loop.task_queue_w);
        started = ground arith;
      },
    )
    | inr e0 ↦ elim (Bool-cases (n % 4 == 1)) [
      | inl first ↦ (
        ([], (send D msg none s).1, 0),
        record {
          given = ground (arith, send_open msg s up);
          out = ground arith;
          queue = ground (arith, send_queued msg s up);
          started = ground arith;
        },
      )
      | inr e1 ↦ elim (Bool-cases (n % 4 == 2)) [
        | inl second ↦ (
          ([], (send D bye none s).1, 0),
          record {
            given = ground (arith, send_open bye s up);
            out = ground arith;
            queue = ground (arith, send_queued bye s up);
            started = ground arith;
          },
        )
        | inr e2 ↦ (
          ([], s, 10),
          record {
            given = ground (arith);
            out = ground arith;
            queue = ground (arith, append-nil s.loop.task_queue_w);
            started = ground arith;
          },
        )
      ]
    ]
  ]

  -- `OnMessage` of an open connection that has a session does not panic where its packets can be made: the session
  -- has been greeted, and for one value of `rand.Int() % 4` each it echoes the message, queues one send of
  -- it or of a close frame, or starts ten goroutines.
  pub on_message_lem :
      (n : ℕ) (received : Bytes) (msg bye : D.Data) (sessions : Sessions D) (session : Session D)
      (s : State D)
      → s.conn.connected ≡ true
      → lookup s.self sessions ≡ some (some session)
      → K.pack_data message_text received ≡ some msg
      → K.pack_close_data "close" ≡ some bye
      → (sessions' : Sessions D) × (out : Bytes) × (t : State D) × (started : ℕ) × (on_message D K n
            received sessions s
          ≡ some (sessions', message_binary, out, t, started))
        × (lookup s.self sessions' ≡ some (some (greet D s session)))
        × (out ≡ (if n % 4 == 0 then received else []))
        × (t.loop.task_queue_w ≡ s.loop.task_queue_w ++ own_sends s.self msg bye n)
        × (started ≡ (if n % 4 == 3 then 10 else 0))
  unfolding on_message
  on_message_lem n received msg bye sessions session s up found packed closing =
      let (r, a) = answer_lem n received msg bye s up packed closing in
      let greeted : Sessions D = insert s.self (some (greet D s session)) sessions in
      (
        greeted,
        r.0,
        r.1,
        r.2,
        rw (found, on_message) (rw (a.given, on_message) refl),
        lookup-insert s.self s.self (some (greet D s session)) sessions ∙ rw (==_refl s.self) refl,
        a.out,
        a.queue,
        a.started,
      )

  -- A goroutine that `OnMessage` started ends the program if the connection was closed before it runs.
  pub async_send-handle_close :
      (H : Handler D) (fd : ℕ) (async_bytes : Bytes) (s : State D)
      → async_send D K async_bytes (handle_close D H fd s) ≡ none
  async_send-handle_close H fd async_bytes s =
      closed (handle_close D H fd s) (handle_close_connected D H fd s)
    where
      closed : (t : State D) → t.conn.connected ≡ false → async_send D K async_bytes t ≡ none
      closed t down = unfold async_send must_send send in ground arith
