-- ===== src/Samples/Echo/Balance.antt =====
-- example/echo/main.go: the balance of what was sent with what was received.
use gev.Base.{
  ℕ, ◌≡◌, sym, ap, ◌∙◌, true, ◌||◌, [], ◌++◌, Bool-cases, Option-cases, inl, inr, arith, is_nil,
  is_nil→[], is_some, append-nil,
}
use gev.Deps.{Deps, Bytes}
use gev.Deps.Laws.{RingLaws, WriteLaws, ReadLaws, contents}
use gev.Connection.{State}
use gev.Connection.Send.Stream.{stream}
use gev.Connection.Event.{touch, sync_lengths, reset_in, reset_out}
use gev.Samples.Echo.Message.{Quiet}

module _ (D : Deps) (R : RingLaws D) (sent received : ℕ → D.Os → Bytes) (W : WriteLaws D sent)
    (L : ReadLaws D sent received) where
  abbrev pub received_of : State D → Bytes
  received_of s = received s.conn.fd s.os

  -- No bytes wait to be parsed, and what was sent with what waits to be sent is what was received.
  pub record Echoed (s : State D) : Type 0 where
    pub drained : contents D s.conn.in_buffer ≡ []
    pub balance : stream D sent s ≡ received_of s

  abbrev pub with_os : D.Os → State D → State D
  with_os os s = record s { os = os }

  -- A read that gives nothing.
  pub read_nothing :
      (n : ℕ) (s : State D)
      → (is_nil (D.read s.conn.fd n s.os).0 || is_some (D.read s.conn.fd n s.os).1) ≡ true
      → (D.read s.conn.fd n s.os).0 ≡ []
  read_nothing n s h =
      let r = D.read s.conn.fd n s.os in
      elim (Option-cases r.1) [
        | inl fine ↦ is_nil→[] r.0 (ground arith)
        | inr (e, failed) ↦ L.read_err s.conn.fd n s.os e failed
      ]

  pub read-balance :
      (n : ℕ) (s : State D)
      → Echoed s
      → let r = D.read s.conn.fd n s.os in
        stream D sent (with_os r.2 s) ++ r.0 ≡ received_of (with_os r.2 s)
  read-balance n s v =
      let r = D.read s.conn.fd n s.os in
      rw (L.read_sent s.conn.fd n s.conn.fd s.os, L.read_received s.conn.fd n s.os)
        (ap (λ t. t ++ r.0) v.balance)

  pub read_nothing-Echoed :
      (n : ℕ) (s : State D)
      → Echoed s
      → (D.read s.conn.fd n s.os).0 ≡ []
      → Echoed (with_os (D.read s.conn.fd n s.os).2 s)
  read_nothing-Echoed n s v h =
      let t = stream D sent (with_os (D.read s.conn.fd n s.os).2 s) in
      record {
        drained = v.drained;
        balance = sym (append-nil t) ∙ ap (λ b. t ++ b) (sym h) ∙ read-balance n s v;
      }

  -- What was read, carried to a state in which only the loop of `handlerProtocol` ran.
  pub Quiet-balance :
      (s t : State D) (b c : Bytes)
      → Quiet D s t
      → c ≡ b
      → stream D sent s ++ b ≡ received_of s
      → stream D sent t ++ c ≡ received_of t
  Quiet-balance s t b c q e h = rw (q.quiet_os, q.quiet_fd, q.quiet_out, e) h

  pub sync_lengths-Echoed : (s : State D) → Echoed s → Echoed (sync_lengths D s)
  unfolding sync_lengths
  sync_lengths-Echoed s v = record { drained = v.drained; balance = v.balance }

  pub touch-Echoed : (s : State D) → Echoed s → Echoed (touch D s)
  unfolding touch
  touch-Echoed s v = ground (arith, v.drained, v.balance)

  pub contents_empty : (r : D.Ring) → D.is_empty r ≡ true → contents D (D.reset r) ≡ contents D r
  contents_empty r e =
      R.contents-reset r ∙ sym (is_nil→[] (contents D r) (sym (R.is_empty_lem r) ∙ e))

  pub reset_out-Echoed : (s : State D) → Echoed s → Echoed (reset_out D s)
  reset_out-Echoed s v = elim (Bool-cases (D.is_empty s.conn.out_buffer)) [
    | inr e ↦ rw e v
    | inl e ↦ rw e (record {
      drained = v.drained;
      balance = ap (λ b. sent s.conn.fd s.os ++ b) (contents_empty s.conn.out_buffer e) ∙ v.balance;
    })
  ]

  pub reset_in-Echoed : (s : State D) → Echoed s → Echoed (reset_in D s)
  reset_in-Echoed s v = elim (Bool-cases (D.is_empty s.conn.in_buffer)) [
    | inr e ↦ rw e v
    | inl e ↦ rw e (record { drained = R.contents-reset s.conn.in_buffer; balance = v.balance })
  ]
