-- ===== src/Server/System/Invariant.antt =====
-- server.go with connection.go and eventloop/eventloop.go: the sockets of all loops of a server, over every
-- interleaving.
use Prim.Native.String.{String}
use gev.Base.{
  ℕ, zero, suc, ◌+◌, ◌<◌, ◌≡◌, refl, ap, subst, List, [], ◌∷◌, Option, some, get_elem?, ℤ, lookup,
  inr, arith, ◌==◌, pos_part, false, if◌then◌else◌,
}
use gev.Deps.{Deps, Sockaddr}
use gev.EventLoop.Laws.{IsCounted}
use gev.Connection.{Connection, Handler}
use gev.Protocol.{Protocol}
use gev.Reactor.Owned.{empty-IsOwned}
use gev.Connection.Idle.{new_connection}
use gev.Reactor.Reach.{handed_over, hand_over-IsSound}
use gev.Server.{Loop, Server, make_connection, hand_over}
use gev.Server.Creation.{AllFresh}
use gev.Server.System.{loop_world, accept, handed, work, ServerReach, start, later}
use gev.Server.System.Sound.{IsAtHome, ServerInv, kept, work-Inv, Local-Advance, some_inj}

module _ (D : Deps) where
  fresh_at :
      (ls : List (Loop D)) (i : ℕ) (l : Loop D)
      → AllFresh D ls
      → get_elem? ls i ≡ some l
      → IsCounted l []
  fresh_at [] i l all there = cc
  fresh_at (k ∷ ls) zero l (h, all) there = subst (λ x. IsCounted x []) (some_inj there) h
  fresh_at (k ∷ ls) (suc i) l (h, all) there = fresh_at ls i l all there

  module _ (home : ℕ → ℕ) (H : Handler D) (P : Protocol D) {St : Type 0}
      (strategy : St → List ℤ → Option (ℕ × St)) (addr_text : Sockaddr String → String) where
    Inv : Server D St → Type 0
    Inv s = ServerInv D home H P strategy addr_text s

    -- The new connection is in no loop yet.
    accept-Inv :
        (fd : ℕ) (sa : Sockaddr String) (s : Server D St) (st : St) (l : Loop D)
        → Inv s
        → Inv (make_connection D addr_text fd sa st l s)
    unfolding Inv make_connection
    accept-Inv fd sa s st l h j k at_j =
        kept D home H P strategy addr_text s.next_conn (s.next_conn + 1) j (loop_world D k s)
          (loop_world D k (make_connection D addr_text fd sa st l s)) refl (inr refl)
          (λ c is_home small. ap (λ b. if b then made else s.conns c) (older c s.next_conn small))
          (h j k at_j)
      where
        made : Connection D
        made =
            (new_connection D s.next_conn fd l (addr_text sa) (pos_part s.idle_time) s.user
              s.os).conn

        older : (c n : ℕ) → c < n → (c == n) ≡ false
        older c n small = ground arith

    handed-Inv :
        (c fd i : ℕ) (l : Loop D) (s : Server D St)
        → Inv s
        → get_elem? s.work_loops i ≡ some l
        → Inv (hand_over D c fd i l s)
    unfolding Inv hand_over
    handed-Inv c fd i l s h there =
        let v = h i l there in
        work-Inv D home H P strategy addr_text s i l (handed_over D c fd (loop_world D l s)) h there
          (record {
            at_home = record {
              sockets = v.sockets;
              sound = hand_over-IsSound D H P c fd (loop_world D l s) v.sockets v.sound;
              homed = v.homed;
            };
            others = λ k other. refl;
          })

    fresh-Inv : (s0 : Server D St) → AllFresh D s0.work_loops → Inv s0
    unfolding Inv lookup
    fresh-Inv s0 fresh i l there = record {
      sockets = [];
      sound = record {
        counts = fresh_at s0.work_loops i l fresh there;
        owned = empty-IsOwned D s0.conns;
      };
      homed = λ fd c h. no_socket fd c h;
    }
      where
        no_socket : (fd c : ℕ) → lookup {V = ℕ} fd [] ≡ some c → (home c ≡ i) × (c < s0.next_conn)
        no_socket fd c h = absurd (none_some fd c h)
          where
            none_some : (fd c : ℕ) → lookup {V = ℕ} fd [] ≡ some c → ⊥
            none_some fd c h = cc

    -- A server whose loops are new: after any interleaving, without `Stop`, of what its loops do, of the connections
    -- that it makes and of their tasks that it queues, where tasks, calls and timers are those of the loop that a
    -- connection was given to, a task of `Send` or `Close` runs only for a connection that is closed or registered,
    -- and the task of a new connection only while that is open on its descriptor, for which its loop has no
    -- socket, the count of each loop is the number of its sockets, no descriptor has two in one loop, and
    -- each socket leads to an open connection on its descriptor that was given to this loop: no connection
    -- is in two loops.
    pub ServerReach-IsAtHome :
        {s0 s : Server D St}
        → AllFresh D s0.work_loops
        → ServerReach D H P strategy addr_text home s0 s
        → (i : ℕ) (l : Loop D) → get_elem? s.work_loops i ≡ some l
        → IsAtHome D home s.next_conn i (loop_world D l s)
    unfolding Inv
    ServerReach-IsAtHome {s0} fresh start = fresh-Inv s0 fresh
    ServerReach-IsAtHome fresh (later {t} run (accept fd sa i st l chosen there is_home)) =
        accept-Inv fd sa t st l (ServerReach-IsAtHome fresh run)
    ServerReach-IsAtHome fresh (later {t} run (handed c fd i l there is_home small)) =
        handed-Inv c fd i l t (ServerReach-IsAtHome fresh run) there
    ServerReach-IsAtHome fresh (later {t} run (work i l {w} there local)) =
        work-Inv D home H P strategy addr_text t i l w (ServerReach-IsAtHome fresh run) there (
          Local-Advance D home H P strategy addr_text t.next_conn i (loop_world D l t) w
            (ServerReach-IsAtHome fresh run i l there) local)
