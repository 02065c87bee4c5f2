-- ===== src/Samples/Echo.antt =====
-- example/echo/main.go: a server that sends back what it receives and counts its connections; the state of the
-- user is the count. `of_bytes` makes the `interface{}` of a `[]byte`.
pub mod Message
pub mod Still
pub mod Balance
pub mod Handling
pub mod Stream
use gev.Base.{[], some, ℤ, incr, decr}
use gev.Deps.{Deps, Bytes}
use gev.Connection.{Handler}

abbrev pub counting : Deps → Deps
counting D = record D { User = ℤ }

unfoldable pub handler : (D : Deps) → (Bytes → D.Data) → Handler (counting D)
handler D of_bytes = record {
  on_connect = λ c count. (incr count, []);
  on_message = λ c ctx received count. (count, [], some (of_bytes received));
  on_close = λ c count. (decr count, []);
  on_finish = λ f value count. (count, []);
}
