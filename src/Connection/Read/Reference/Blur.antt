-- ===== src/Connection/Read/Reference/Blur.antt =====
-- connection.go: the calls of a callback, and one round of `handlerProtocol`, on two states that differ in the
-- buffers alone.
use gev.Base.{◌≡◌, refl, ap, ◌∙◌, List, [], ◌∷◌, Option, none, some, arith}
use gev.Deps.{Deps, Bytes}
use gev.EventLoop
use gev.Connection.{
  Connection, State, Handler, Unpacked, Call, call_send, call_close, call_shutdown_write,
  call_set_context, call_set, call_delete, call_other,
}
use gev.Connection.Close.{perform, perform_all}
use gev.Connection.Read.{fresh, pending, after_un_packet, on_message, reply_bytes}
use gev.Connection.Read.Reference.{blur, blur_conn, IsBlind}
use gev.Protocol.{Protocol}

module _ (D : Deps) where
  perform-blur :
      (x : Call D) (b i : D.Ring) (ub : Bytes) (s : State D)
      → perform D x (blur D b i ub s) ≡ blur D b i ub (perform D x s)
  unfolding perform EventLoop.queue_in_loop
  perform-blur (call_send v f) b i ub s = ground arith
  perform-blur call_close b i ub s = ground arith
  perform-blur call_shutdown_write b i ub s = refl
  perform-blur (call_set_context v) b i ub s = refl
  perform-blur (call_set k v) b i ub s = refl
  perform-blur (call_delete k) b i ub s = refl
  perform-blur (call_other t) b i ub s = ground arith

  pub perform_all-blur :
      (cs : List (Call D)) (b i : D.Ring) (ub : Bytes) (s : State D)
      → perform_all D cs (blur D b i ub s) ≡ blur D b i ub (perform_all D cs s)
  unfolding perform_all
  perform_all-blur [] b i ub s = refl
  perform_all-blur (c ∷ cs) b i ub s =
      ap (perform_all D cs) (perform-blur c b i ub s) ∙ perform_all-blur cs b i ub (perform D c s)

  pub after_un_packet-blur :
      (u u' : Unpacked D) (b i : D.Ring) (ub : Bytes) (s : State D)
      → u'.user ≡ u.user
      → u'.calls ≡ u.calls
      → after_un_packet D pending u' (blur D b i ub s)
        ≡ blur D b u'.rest u'.user_buffer (after_un_packet D fresh u s)
  unfolding after_un_packet
  after_un_packet-blur u u' b i ub s same_user same_calls =
      let l = s.loop in
      let c = s.conn in
      let t : State D = record s {
        conn = record c { buffer = u.rest };
        loop = record l { user_buffer = u.user_buffer };
        user = u'.user;
      } in
      ap (λ cs. perform_all D cs (blur D b u'.rest u'.user_buffer t)) same_calls
      ∙ perform_all-blur u.calls b u'.rest u'.user_buffer t
      ∙ ap
          (λ user.
            blur D b u'.rest u'.user_buffer (perform_all D u.calls (record t { user = user })))
          same_user

  reply_bytes-blur :
      (H : Handler D) (P : Protocol D)
      → IsBlind D H P
      → (b i : D.Ring) (c : Connection D) (out : Option D.Data)
      → reply_bytes D P (blur_conn D b i c) out ≡ reply_bytes D P c out
  reply_bytes-blur H P k b i c none = refl
  reply_bytes-blur H P k b i c (some v) = k.blind_packet b i c v

  pub on_message-blur :
      (H : Handler D) (P : Protocol D) (u u' : Unpacked D) (b i : D.Ring) (ub : Bytes) (s : State D)
      → IsBlind D H P
      → u'.ctx ≡ u.ctx
      → u'.received ≡ u.received
      → let m = on_message D H P u s in
        on_message D H P u' (blur D b i ub s) ≡ (m.0, blur D b i ub m.1)
  unfolding on_message
  on_message-blur H P u u' b i ub s k same_ctx same_bytes =
      let r = H.on_message s.conn u.ctx u.received s.user in
      let s1 : State D = record s { user = r.0 } in
      let done = perform_all-blur r.1 b i ub s1 in
      ap (answered (blur D b i ub s)) (
        ap (λ x. H.on_message (blur_conn D b i s.conn) x u'.received s.user) same_ctx
        ∙ ap (λ x. H.on_message (blur_conn D b i s.conn) u.ctx x s.user) same_bytes
        ∙ k.blind_message b i s.conn u.ctx u.received s.user)
      ∙ ap (λ t. (reply_bytes D P t.conn r.2, t)) done
      ∙ ap (λ x. (x, blur D b i ub (perform_all D r.1 s1)))
          (reply_bytes-blur H P k b i (perform_all D r.1 s1).conn r.2)
    where
      answered : State D → D.User × List (Call D) × Option D.Data → Bytes × State D
      answered t (user, calls, out) =
          let t1 = perform_all D calls (record t { user = user }) in
          (reply_bytes D P t1.conn out, t1)
