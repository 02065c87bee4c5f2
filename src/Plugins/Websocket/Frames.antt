-- ===== src/Plugins/Websocket/Frames.antt =====
-- plugins/websocket/protocol.go and wrap.go: the handshake, frames that have not arrived, and control frames.
use gev.Base.{
  arith, ◌<◌, ◌≡◌, refl, sym, ap, ◌∙◌, true, false, List, [], ◌∷◌, ◌++◌, none, some, lt→leb,
}
use gev.Context
use gev.Context.{get-set}
use gev.Deps.{Deps, Bytes}
use gev.Deps.Laws.{contents}
use gev.Connection.{Connection, State, Call, call_set}
use gev.Connection.Close.{perform, perform_all}
use gev.Plugins.Websocket.{
  Ws, Parsed, parsed, refused, un_packet, un_packet_handshake, un_packet_frame, upgraded_key,
  headerbuffer_key, WsHandler, on_message, is_control,
}

module _ (D : Deps) (S : Ws D) where
  perform_all-append :
      (xs ys : List (Call D)) (s : State D)
      → perform_all D (xs ++ ys) s ≡ perform_all D ys (perform_all D xs s)
  unfolding perform_all
  perform_all-append [] ys s = refl
  perform_all-append (x ∷ xs) ys s = perform_all-append xs ys (perform D x s)

  set_keys :
      (s : State D)
      → Context.get upgraded_key
          (perform_all D
            (call_set upgraded_key S.upgraded_value
              ∷ call_set headerbuffer_key S.header_buffer
              ∷ [])
            s).conn.key_values
        ≡ some S.upgraded_value
  unfolding perform_all perform
  set_keys s =
      get-set headerbuffer_key upgraded_key S.header_buffer _
      ∙ get-set upgraded_key upgraded_key S.upgraded_value s.conn.key_values

  pub upgraded_un_packet :
      (c : Connection D) (user : D.User) (ub : Bytes) (r : D.Ring) (v : D.Value)
      → Context.get upgraded_key c.key_values ≡ some v
      → un_packet D S c user ub r ≡ un_packet_frame D S (S.virtual_read_header r) user ub
  unfolding un_packet
  upgraded_un_packet c user ub r v h = rw (h, un_packet)

  handshake_calls :
      (c : Connection D) (user : D.User) (ub : Bytes) (r : D.Ring)
      → Context.get upgraded_key c.key_values ≡ none
      → (S.upgrade c user r).1 ≡ false
      → (un_packet D S c user ub r).calls
        ≡ (S.upgrade c user r).4
          ++ (call_set upgraded_key S.upgraded_value
              ∷ call_set headerbuffer_key S.header_buffer
              ∷ [])
  unfolding un_packet
  handshake_calls c user ub r h fine = rw (h, un_packet) (rw (fine, un_packet_handshake))

  -- After a handshake that succeeded, whatever the callbacks of the upgrader called, the connection is marked.
  pub handshake-marked :
      (s : State D) (ub : Bytes) (r : D.Ring)
      → Context.get upgraded_key s.conn.key_values ≡ none
      → (S.upgrade s.conn s.user r).1 ≡ false
      → Context.get upgraded_key
          (perform_all D (un_packet D S s.conn s.user ub r).calls s).conn.key_values
        ≡ some S.upgraded_value
  handshake-marked s ub r new fine =
      let calls = (S.upgrade s.conn s.user r).4 in
      rw (handshake_calls s.conn s.user ub r new fine) (
        rw
          (perform_all-append calls
            (call_set upgraded_key S.upgraded_value
              ∷ call_set headerbuffer_key S.header_buffer
              ∷ [])
            s)
          (set_keys (perform_all D calls s)))

  -- Reading a frame makes no call.
  pub frame_calls :
      (x : Parsed S.Header × D.Ring) (user : D.User) (ub : Bytes)
      → (un_packet_frame D S x user ub).calls ≡ []
  unfolding un_packet_frame
  frame_calls (refused e, r) user ub = refl
  frame_calls (parsed h, r) user ub = ground arith

  -- A frame whose header was read and whose payload is not there in full gives no message and makes no
  -- call, and the reading of its header is taken back; where reverting a read restores the buffer,
  -- the buffer holds what it held.
  un_packet_restores :
      (c : Connection D) (user : D.User) (ub : Bytes) (r r' : D.Ring) (h : S.Header) (v : D.Value)
      → ((q : D.Ring) → contents D (S.virtual_revert (S.virtual_read_header q).1) ≡ contents D q)
      → Context.get upgraded_key c.key_values ≡ some v
      → S.virtual_read_header r ≡ (parsed h, r')
      → S.virtual_length r' < S.header_length h
      → let u = un_packet D S c user ub r in
        (u.ctx ≡ none) × (u.received ≡ []) × (u.calls ≡ []) × (contents D u.rest ≡ contents D r)
  unfolding un_packet_frame
  un_packet_restores c user ub r r' h v restores marked read short =
      rw (upgraded_un_packet c user ub r v marked) (
        rw (read, un_packet_frame)
          (rw (lt→leb (S.header_length h) (S.virtual_length r') short) (
            refl,
            refl,
            refl,
            ap (λ q. contents D (S.virtual_revert q)) (ap (λ p. p.1) (sym read)) ∙ restores r,
          )))

  -- Control frames never reach the user's handler: what `OnMessage` of the wrap gives for one is the same
  -- whatever that handler is.
  pub control_alone :
      (H K : WsHandler D) (c : Connection D) (x : D.Ctx) (h : S.Header) (payload : Bytes)
      (user : D.User)
      → S.of_ctx x ≡ some h
      → is_control (S.op_code h) ≡ true
      → on_message D S H c (some x) payload user ≡ on_message D S K c (some x) payload user
  unfolding on_message
  control_alone H K c x h payload user e ctl = rw (e, on_message) (rw ctl)
