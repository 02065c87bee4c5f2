-- ===== src/Examples/Chats.antt =====
-- example/websocket/main.go: two sessions on a loop with one open connection.
use gev.Base.{◌≡◌, true, [], ◌∷◌, none, some}
use gev.Deps.Simple.{sim}
use gev.Connection.Close.{handle_close}
use gev.Samples.Chat.{Session, Sessions, Packets, async_send, broadcast_round}
use gev.Samples.Chat.Answers.{async_send-handle_close}
use gev.Samples.Chat.Rounds.{broadcast_round_lem}
use gev.Examples.{state, world, echo}

abbrev packets : Packets sim
packets = record { pack_data = λ t b. some (9 ∷ b); pack_close_data = λ reason. some (8 ∷ []) }

abbrev session : Session sim
session = record { first = true; header = none; conn = 0 }

abbrev sessions : Sessions sim
sessions = (0, some session) ∷ (1, none) ∷ []

async_send-handle_close_example :
    async_send sim packets (1 ∷ []) (handle_close sim echo 7 (state ([], []))) ≡ none
async_send-handle_close_example =
    async_send-handle_close sim packets echo 7 (1 ∷ []) (state ([], []))

broadcast_round_lem_example :
    (broadcast_round sim (some (6 ∷ [])) sessions world ≡ none)
    × (broadcast_round sim none sessions world ≡ none)
broadcast_round_lem_example = broadcast_round_lem sim (6 ∷ []) sessions world
