-- ===== src/Windows/Fuel.antt =====
-- server_std.go: the fuel of `handlerProtocol`.
use gev.Base.{
  List, [], ◌∷◌, ap, ◌∙◌, refl, ℕ, zero, suc, ◌≡◌, ◌<◌, Bool, true, false, not, ◌||◌, arith,
  is_some, is_nil, if◌then◌else◌,
}
use gev.Deps.{Deps, Bytes}
use gev.Windows.{
  Call, call_send, call_close, call_set_context, call_set, call_delete, perform, perform_all, send,
  close, Parts, State, handler_protocol,
}

module _ (D : Deps) (S : Parts D) where
  -- `ctx != nil || len(receivedData) != 0`.
  abbrev pub gives_message : D.Ring → Bool
  gives_message r = is_some (S.un_packet r).0 || not (is_nil (S.un_packet r).1)

  same_branch :
      {A : Type 0} (b : Bool) (x y z : A)
      → (b ≡ true → x ≡ y)
      → (if b then x else z) ≡ (if b then y else z)
  same_branch true x y z h = h refl
  same_branch false x y z h = refl

  perform-in_buffer :
      (x : Call D) (s : State D) → (perform D S x s).conn.in_buffer ≡ s.conn.in_buffer
  unfolding perform send close
  perform-in_buffer (call_send v f) s = ground arith
  perform-in_buffer call_close s = ground arith
  perform-in_buffer (call_set_context v) s = refl
  perform-in_buffer (call_set k v) s = refl
  perform-in_buffer (call_delete k) s = refl

  perform_all-in_buffer :
      (xs : List (Call D)) (s : State D) → (perform_all D S xs s).conn.in_buffer ≡ s.conn.in_buffer
  unfolding perform_all
  perform_all-in_buffer [] s = refl
  perform_all-in_buffer (x ∷ xs) s =
      perform_all-in_buffer xs (perform D S x s) ∙ perform-in_buffer x s

  -- For every protocol that takes bytes from the buffer with each message, `handlerProtocol` gives the same
  -- answers and the same state with every fuel above the length of the buffer, so it ends by its own
  -- test.
  pub handler_protocol_enough :
      (progress : (r : D.Ring)
        → gives_message r ≡ true
        → D.ring_length (S.un_packet r).2 < D.ring_length r)
      (fuel more : ℕ) (tmp : Bytes) (s : State D)
      → D.ring_length s.conn.in_buffer < fuel
      → D.ring_length s.conn.in_buffer < more
      → handler_protocol D S fuel tmp s ≡ handler_protocol D S more tmp s
  unfolding handler_protocol
  handler_protocol_enough progress zero more tmp s h k = elim h [ ]
  handler_protocol_enough progress (suc fuel) zero tmp s h k = elim k [ ]
  handler_protocol_enough progress (suc fuel) (suc more) tmp s h k =
      let c = s.conn in
      let (ctx, received, r) = S.un_packet c.in_buffer in
      let s1 = record s { conn = record c { in_buffer = r } } in
      let (user, calls, out) = S.on_message ctx received s.user in
      let kept = ap D.ring_length (perform_all-in_buffer calls (record s1 { user = user })) in
      same_branch (gives_message c.in_buffer) _ _ _ (λ goes.
        let shorter = progress c.in_buffer goes in
        handler_protocol_enough progress fuel more _ _ (omega arith) (omega arith))
