-- ===== src/Samples/Chat/Rounds.antt =====
-- example/websocket/main.go: a round of the goroutine that sends to all sessions.
use gev.Base.{
  ℕ, ◌≡◌, refl, Bool, true, false, List, [], ◌∷◌, Option, none, some, is_nil, if◌then◌else◌,
}
use gev.Deps.{Deps}
use gev.Connection.Close.{send}
use gev.Reactor.{World, on_conn}
use gev.Samples.Push.{run_push}
use gev.Samples.Chat.{Sessions, send_each, broadcast_round, end_round}

module _ (D : Deps) where
  abbrev pub some_nil : Sessions D → Bool
  some_nil [] = false
  some_nil ((c, none) ∷ rest) = true
  some_nil ((c, some session) ∷ rest) = some_nil rest

  -- The connections of the sessions.
  abbrev pub targets : Sessions D → List (ℕ × ℕ)
  targets [] = []
  targets ((c, none) ∷ rest) = targets rest
  targets ((c, some session) ∷ rest) = (c, session.conn) ∷ targets rest

  -- With the mutex unlocked the round ends the program.
  unlocked_ends :
      (packed : Option D.Data) (sessions : Sessions D) (w : World D)
      → end_round D packed (send_each D packed sessions false w) ≡ none
  unfolding send_each end_round
  unlocked_ends packed [] w = refl
  unlocked_ends packed ((c, none) ∷ rest) w = refl
  unlocked_ends none ((c, some session) ∷ rest) w = refl
  unlocked_ends (some msg) ((c, some session) ∷ rest) w =
      unlocked_ends (some msg) rest (on_conn D session.conn (λ s. (send D msg none s).1) w)

  sends_all :
      (msg : D.Data) (sessions : Sessions D) (w : World D)
      → end_round D (some msg) (send_each D (some msg) sessions true w) ≡ (
          if some_nil sessions
          then none
          else some (run_push D (λ c. false) msg (targets sessions) w))
  unfolding send_each end_round run_push
  sends_all msg [] w = refl
  sends_all msg ((c, none) ∷ rest) w = unlocked_ends (some msg) rest w
  sends_all msg ((c, some session) ∷ rest) w =
      sends_all msg rest (on_conn D session.conn (λ s. (send D msg none s).1) w)

  none_packed :
      (sessions : Sessions D) (w : World D)
      → end_round D none (send_each D none sessions true w)
        ≡ (if is_nil sessions then some w else none)
  unfolding send_each end_round
  none_packed [] w = refl
  none_packed ((c, none) ∷ rest) w = unlocked_ends none rest w
  none_packed ((c, some session) ∷ rest) w = unlocked_ends none rest w

  -- A round whose message is packed sends it to the connection of each session, as `RunPush` does, where no
  -- session is nil; where one is, the round unlocks the mutex twice, which ends the program if no other
  -- goroutine has locked it. Where the message cannot be packed it does so unless there is no session.
  pub broadcast_round_lem :
      (msg : D.Data) (sessions : Sessions D) (w : World D)
      → (broadcast_round D (some msg) sessions w ≡ (
          if some_nil sessions
          then none
          else some (run_push D (λ c. false) msg (targets sessions) w)))
        × (broadcast_round D none sessions w ≡ (if is_nil sessions then some w else none))
  unfolding broadcast_round
  broadcast_round_lem msg sessions w = (sends_all msg sessions w, none_packed sessions w)
