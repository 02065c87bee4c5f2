-- ===== src/Poller/Epoll/Dispatch.antt =====
-- poller/epoll.go: what `Poll` calls its handler with, and when it returns.
use gev.Base.{
  ℕ, ◌≡◌, refl, ap, ◌∙◌, Bool, true, false, not, ◌&&◌, ◌||◌, Option, none, some, List, [], ◌∷◌,
  arith, bit_or, ◌==◌, if◌then◌else◌, length,
}
use gev.Poller.{event_read, event_write, event_err, has}
use gev.Poller.Epoll.{
  r_events, pollhup, epollin, epollpri, epollerr, epollout, epollrdhup, scan, after_scan,
  poll_round, PollVars, ready,
}

-- The three assignments to `rEvents`, over the outcome of their tests.
abbrev combine : Bool → Bool → Bool → ℕ
combine e w r =
    let e1 = if e then event_err else 0 in
    let e2 = if w then bit_or e1 event_write else e1 in if r then bit_or e2 event_read else e2

combine_lem :
    (e w r : Bool)
    → (has (combine e w r) event_err ≡ e)
      × (has (combine e w r) event_write ≡ w)
      × (has (combine e w r) event_read ≡ r)
unfolding has
combine_lem true true true = (refl, refl, refl)
combine_lem true true false = (refl, refl, refl)
combine_lem true false true = (refl, refl, refl)
combine_lem true false false = (refl, refl, refl)
combine_lem false true true = (refl, refl, refl)
combine_lem false true false = (refl, refl, refl)
combine_lem false false true = (refl, refl, refl)
combine_lem false false false = (refl, refl, refl)

-- For all bits that the kernel may report, the handler sees an error exactly for a hang-up with nothing
-- to read, room to write exactly for an error or for room, and something to read exactly for input,
-- urgent input, or the peer's end.
r_events_lem :
    (raw : ℕ)
    → (has (r_events raw) event_err ≡ (has raw pollhup && not (has raw epollin)))
      × (has (r_events raw) event_write ≡ (has raw epollerr || has raw epollout))
      × (has (r_events raw) event_read ≡ has raw (bit_or (bit_or epollin epollpri) epollrdhup))
unfolding r_events
r_events_lem raw =
    combine_lem (has raw pollhup && not (has raw epollin)) (has raw epollerr || has raw epollout)
      (has raw (bit_or (bit_or epollin epollpri) epollrdhup))

module _ {W : Type 0} (event_fd : ℕ) (handler : Option ℕ → ℕ → W → W) (wake_read : W → W)
    (running : W → Bool) where
  -- A batch has an event of the eventfd.
  abbrev pub is_woken : List (ℕ × ℕ) → Bool
  is_woken [] = false
  is_woken ((fd, raw) ∷ es) = fd == event_fd || is_woken es

  -- The events of a batch, one after the other.
  abbrev pub handle_all : List (ℕ × ℕ) → W → W
  handle_all [] w = w
  handle_all ((fd, raw) ∷ es) w =
      handle_all es (if fd == event_fd then wake_read w else handler (some fd) (r_events raw) w)

  scan_lem :
      (es : List (ℕ × ℕ)) (wake : Bool) (w : W)
      → scan event_fd handler wake_read running es wake w ≡ (wake || is_woken es, handle_all es w)
  unfolding scan
  scan_lem [] wake w = ground arith
  scan_lem ((fd, raw) ∷ es) wake w =
      scan_lem es (if fd == event_fd then true else wake)
        (if fd == event_fd then wake_read w else handler (some fd) (r_events raw) w)
      ∙ ground arith

  after_scan_lem :
      (n : ℕ) (v : PollVars) (wake : Bool) (w : W)
      → let r = after_scan event_fd handler wake_read running n v (wake, w) in
        (r.2 ≡ (if wake then handler none 0 w else w))
        × (r.0 ≡ (wake && not (running r.2)))
        × (r.1.wake ≡ false)
  unfolding after_scan
  after_scan_lem n v true w = ground arith
  after_scan_lem n v false w = (refl, refl, refl)

  poll_round_eq :
      (e : ℕ × ℕ) (es : List (ℕ × ℕ)) (v : PollVars) (w : W)
      → poll_round event_fd handler wake_read running (ready (e ∷ es)) v w
        ≡ after_scan event_fd handler wake_read running
            (length (e ∷ es))
            v
            (v.wake || is_woken (e ∷ es), handle_all (e ∷ es) w)
  unfolding poll_round
  poll_round_eq e es v w =
      ap (after_scan event_fd handler wake_read running (length (e ∷ es)) v)
        (scan_lem (e ∷ es) v.wake w)

  -- A round with any `wake`.
  pub round_lem :
      (e : ℕ × ℕ) (es : List (ℕ × ℕ)) (v : PollVars) (w : W)
      → let r = poll_round event_fd handler wake_read running (ready (e ∷ es)) v w in
        let handled = handle_all (e ∷ es) w in
        let woken = v.wake || is_woken (e ∷ es) in
        (r.2 ≡ (if woken then handler none 0 handled else handled))
        × (r.0 ≡ (woken && not (running r.2)))
        × (r.1.wake ≡ false)
  round_lem e es v w =
      rw (poll_round_eq e es v w)
        (after_scan_lem (length (e ∷ es)) v (v.wake || is_woken (e ∷ es)) (handle_all (e ∷ es) w))

  -- One round of `Poll` over a batch that begins with `wake` clear: the events are handled in the order of the
  -- batch, those of the eventfd by a read of it; then, and only if the batch had one of those, the handler
  -- is called once for the wake-up, behind all others; `Poll` returns exactly if there was a wake-up after
  -- which the poller is no longer running; and `wake` is clear again. For all bits that the kernel may
  -- report, the handler sees an error exactly for a hang-up with nothing to read, room to write exactly
  -- for an error or for room, and something to read exactly for input, urgent input, or the peer's end.
  pub poll_round_lem :
      (e : ℕ × ℕ) (es : List (ℕ × ℕ)) (v : PollVars) (w : W)
      → v.wake ≡ false
      → let r = poll_round event_fd handler wake_read running (ready (e ∷ es)) v w in
        let handled = handle_all (e ∷ es) w in
        (r.2 ≡ (if is_woken (e ∷ es) then handler none 0 handled else handled))
        × (r.0 ≡ (is_woken (e ∷ es) && not (running r.2)))
        × (r.1.wake ≡ false)
        × ((raw : ℕ)
            → (has (r_events raw) event_err ≡ (has raw pollhup && not (has raw epollin)))
              × (has (r_events raw) event_write ≡ (has raw epollerr || has raw epollout))
              × (has (r_events raw) event_read
                  ≡ has raw (bit_or (bit_or epollin epollpri) epollrdhup)))
  poll_round_lem e es v w asleep =
      let (left, done, clear) = round_lem e es v w in
      let woken : (v.wake || is_woken (e ∷ es)) ≡ is_woken (e ∷ es) =
        ap (λ b. b || is_woken (e ∷ es)) asleep in
      (
        left
            ∙ ap (λ b. if b then handler none 0 (handle_all (e ∷ es) w) else handle_all (e ∷ es) w)
                woken,
        done
            ∙ ap
                (λ b.
                  b
                  && not (
                      running
                        (poll_round event_fd handler wake_read running (ready (e ∷ es)) v w).2))
                woken,
        clear,
        (λ raw. r_events_lem raw),
      )
