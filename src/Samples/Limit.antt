-- ===== src/Samples/Limit.antt =====
-- example/maxconnection/main.go: a server that counts its clients and shuts down the connections that are too
-- many.
use gev.Base.{List, [], ◌∷◌, Option, some, if◌then◌else◌, ℤ, incr, decr, ltb_ℤ}
use gev.Deps.{Deps, Bytes}
use gev.Connection.{Call, call_shutdown_write}

pub record Server : Type 0 where
  pub client_num : ℤ
  pub max_connection : ℤ

module _ (D : Deps) where
  unfoldable pub on_connect : Server → Server × List (Call D)
  on_connect s =
      let s' = record s { client_num = incr s.client_num } in
      (s', if ltb_ℤ s'.max_connection s'.client_num then call_shutdown_write ∷ [] else [])

  unfoldable pub on_message :
      (Bytes → D.Data) → Bytes → Server → Server × List (Call D) × Option D.Data
  on_message of_bytes data_in s = (s, [], some (of_bytes data_in))

  unfoldable pub on_close : Server → Server
  on_close s = record s { client_num = decr s.client_num }
