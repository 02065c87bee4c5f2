-- ===== src/Windows/Goroutines/Sent/Flow.antt =====
-- server_std.go: the bytes of a connection at each place where `writeLoop` stands.
use gev.Base.{◌≡◌, refl, sym, ap, ◌∙◌, subst, Bool, true, false, [], ◌++◌, append-nil, arith}
use gev.Deps.{Bytes}
use gev.Windows.Goroutines.{
  Pc, polling, swapping, running, sending, closing_send, flushing, closing_end, ended,
  writing_second,
}
use gev.Windows.Goroutines.Sent.{
  IsPrefix, AtSecond, is_quiet, is_closing, IsPrefix-append, IsPrefix-left,
}

-- What was sent (`out`), what waits, and the packets of the tasks that were run (`given`). Every such task
-- sent its packet; or the connection is closed and tasks are skipped; or a write failed, in a task or at
-- the end of a round, and `writeLoop` closes or has ended.
pub data Flow (pc : Pc) (connected : Bool) (out wait given : Bytes) : Type 0 where
  flowing :
      out ++ wait ≡ given
      → is_closing pc ≡ false
      → AtSecond pc wait
      → Flow pc connected out wait given
  skipping :
      connected ≡ false
      → is_quiet pc ≡ true
      → AtSecond pc wait
      → IsPrefix (out ++ wait) given
      → Flow pc connected out wait given
  broken_task :
      pc ≡ closing_send → wait ≡ [] → IsPrefix out given → Flow pc connected out wait given
  broken_flush : pc ≡ closing_end → IsPrefix out given → Flow pc connected out wait given
  over : pc ≡ ended → connected ≡ false → IsPrefix out given → Flow pc connected out wait given

-- Where `writeLoop` is in none of its writes, and has not ended.
abbrev pub is_between : Pc → Bool
is_between polling = true
is_between swapping = true
is_between running = true
is_between flushing = true
is_between _ = false

-- Where `writeLoop` writes what waits.
abbrev pub is_writing : Pc → Bool
is_writing flushing = true
is_writing (writing_second e) = true
is_writing _ = false

pub is_quiet_open : (pc : Pc) → is_quiet pc ≡ true → is_closing pc ≡ false
is_quiet_open pc h = ground arith

module _ {out wait given : Bytes} where
  -- The connection is closed.
  pub Flow-closes : (pc : Pc) (c : Bool) → Flow pc c out wait given → Flow pc false out wait given
  Flow-closes pc c (flowing e q a) = flowing e q a
  Flow-closes pc c (skipping d q a p) = skipping refl q a p
  Flow-closes pc c (broken_task q w p) = broken_task q w p
  Flow-closes pc c (broken_flush q p) = broken_flush q p
  Flow-closes pc c (over q d p) = over q refl p

  -- A step to another place.
  pub Flow-moves :
      {pc : Pc} (pc' : Pc) {c : Bool}
      → is_between pc ≡ true
      → is_quiet pc' ≡ true
      → AtSecond pc' wait
      → Flow pc c out wait given
      → Flow pc' c out wait given
  Flow-moves pc' b q a (flowing e _ _) = flowing e (ground arith) a
  Flow-moves pc' b q a (skipping d _ _ p) = skipping d q a p
  Flow-moves pc' b q a (broken_task w _ _) = absurd (ground arith)
  Flow-moves pc' b q a (broken_flush w _) = absurd (ground arith)
  Flow-moves pc' b q a (over w _ _) = absurd (ground arith)

  -- A task is skipped.
  pub Flow-skips :
      (b : Bytes) {pc : Pc} {c : Bool}
      → pc ≡ running
      → c ≡ false
      → Flow pc c out wait given
      → Flow running c out wait (given ++ b)
  Flow-skips b p d (flowing e _ _) = skipping d refl tt (b, ap (λ t. t ++ b) e)
  Flow-skips b p d (skipping _ _ _ h) = skipping d refl tt (IsPrefix-append (out ++ wait) given b h)
  Flow-skips b p d (broken_task w _ _) = absurd (ground arith)
  Flow-skips b p d (broken_flush w _) = absurd (ground arith)
  Flow-skips b p d (over w _ _) = absurd (ground arith)

  -- The `Close` of a task returns.
  pub Flow-resumes :
      {pc : Pc} {c : Bool}
      → pc ≡ closing_send
      → c ≡ false
      → Flow pc c out wait given
      → Flow running c out wait given
  Flow-resumes p d (flowing e q _) = absurd (ground arith)
  Flow-resumes p d (skipping _ q _ h) = absurd (ground arith)
  Flow-resumes p d (broken_task _ w h) =
      skipping d refl tt
        (subst (λ t. IsPrefix t given) (sym (append-nil out) ∙ ap (λ t. out ++ t) (sym w)) h)
  Flow-resumes p d (broken_flush w _) = absurd (ground arith)
  Flow-resumes p d (over w _ _) = absurd (ground arith)

  -- The `Close` behind a failed write of `writeLoop` returns.
  pub Flow-ends :
      {pc : Pc} {c : Bool}
      → pc ≡ closing_end
      → c ≡ false
      → Flow pc c out wait given
      → Flow ended c out wait given
  Flow-ends p d (flowing e q _) = absurd (ground arith)
  Flow-ends p d (skipping _ q _ h) = absurd (ground arith)
  Flow-ends p d (broken_task w _ _) = absurd (ground arith)
  Flow-ends p d (broken_flush _ h) = over refl d h
  Flow-ends p d (over w _ _) = absurd (ground arith)

  -- A task saw `connected` set.
  pub Flow-sees :
      {pc : Pc} {c : Bool}
      → pc ≡ running
      → c ≡ true
      → Flow pc c out wait given
      → Flow sending c out wait given
  Flow-sees p up (flowing e _ _) = flowing e refl tt
  Flow-sees p up (skipping d _ _ h) = absurd (ground arith)
  Flow-sees p up (broken_task w _ _) = absurd (ground arith)
  Flow-sees p up (broken_flush w _) = absurd (ground arith)
  Flow-sees p up (over w _ _) = absurd (ground arith)

  pub Flow-sending :
      {pc : Pc} {c : Bool} → pc ≡ sending → Flow pc c out wait given → out ++ wait ≡ given
  Flow-sending p (flowing e _ _) = e
  Flow-sending p (skipping _ q _ h) = absurd (ground arith)
  Flow-sending p (broken_task w _ _) = absurd (ground arith)
  Flow-sending p (broken_flush w _) = absurd (ground arith)
  Flow-sending p (over w _ _) = absurd (ground arith)

  pub Flow-second :
      {pc : Pc} {c : Bool} (e : Bytes) → pc ≡ writing_second e → Flow pc c out wait given → wait ≡ e
  Flow-second e p (flowing _ _ a) = subst (λ q. AtSecond q wait) p a
  Flow-second e p (skipping _ _ a _) = subst (λ q. AtSecond q wait) p a
  Flow-second e p (broken_task w _ _) = absurd (ground arith)
  Flow-second e p (broken_flush w _) = absurd (ground arith)
  Flow-second e p (over w _ _) = absurd (ground arith)

  -- In every place what was sent is the front of the packets.
  pub Flow-IsPrefix : {pc : Pc} {c : Bool} → Flow pc c out wait given → IsPrefix out given
  Flow-IsPrefix (flowing e _ _) = (wait, e)
  Flow-IsPrefix (skipping _ _ _ h) = IsPrefix-left out wait given h
  Flow-IsPrefix (broken_task _ _ h) = h
  Flow-IsPrefix (broken_flush _ h) = h
  Flow-IsPrefix (over _ _ h) = h

  pub Flow-open :
      {pc : Pc} {c : Bool}
      → c ≡ true
      → is_closing pc ≡ false
      → Flow pc c out wait given
      → out ++ wait ≡ given
  Flow-open up p (flowing e _ _) = e
  Flow-open up p (skipping d _ _ _) = absurd (ground arith)
  Flow-open up p (broken_task w _ _) = absurd (ground arith)
  Flow-open up p (broken_flush w _) = absurd (ground arith)
  Flow-open up p (over _ d _) = absurd (ground arith)
