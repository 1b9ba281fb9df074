-- ===== src/Game/Server/Ticking.antt =====
-- game/game_server.cpp: the timer of a stopped server.
use lightnet.Common.{◌==◌, ℕ, ◌≡◌, refl, ◌≢◌, false, some, List, [], ◌∷◌, arith}
use lightnet.Timer.{add_timer, cancel, count}
use lightnet.Timer.Queue.{count-erase}
use lightnet.Game.Player.{Float32}
use lightnet.Game.Server.{start, stop, on_tick, GameServer}

-- A server that is not running, started and then stopped: the tick timer that `start` has added is not
-- active any more, the server does not run, a tick changes nothing and sends nothing, and a second
-- `stop` does nothing; and a second `start` in place of the `stop` would do nothing.
stop-start :
    (inet_ntop : ℕ → List ℕ) (F : Float32) (now later : ℕ) (s : GameServer)
    → s.running ≡ false
    → s.wheel.next_id ≢ 0
    → (count s.wheel.next_id (stop (start now s)).wheel.active ≡ false)
      × ((stop (start now s)).running ≡ false)
      × (on_tick inet_ntop F (stop (start now s)) ≡ some (stop (start now s), []))
      × (stop (stop (start now s)) ≡ stop (start now s))
      × (start later (start now s) ≡ start now s)
unfolding start stop on_tick add_timer cancel
stop-start inet_ntop F now later s idle fresh =
    let ticking : (s.wheel.next_id == 0) ≡ false = ground (arith, fresh) in
    rw idle (
      rw ticking
        (count-erase s.wheel.next_id (s.wheel.next_id ∷ s.wheel.active), refl, refl, refl, refl))
