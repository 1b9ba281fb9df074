-- ===== src/Game/Server.antt =====
-- game/game_server.h and game/game_server.cpp: the rooms behind the UDP socket, and the timer that ticks
-- them. The callback of the timer is named 0. What the rooms send is listed; `none` is a write past a
-- buffer's end, as in Game.Dispatch, whose parameters are those here.
pub mod Ticking
use lightnet.Common.{
  ltb, leb, ◌==◌, if◌then◌else◌, ltb→lt, lt→ltb, le→ltb, le→leb, lt→leb, ltb→ge, leb→le, leb→gt,
  ==→eq, ==→ne, eq→==, ==-refl, Bool-cases, Option-cases, some_pair-fst, some_pair-snd, bytes_eq,
  bytes_eq_refl, bytes_eq→eq, ◌>>=◌, ◌>>◌, guard, >>=-eq-some, guard-eq-some, >>=-elim, eq_of_some,
  length, take, drop, replicate, get_or, All, length-append, length-take, length-drop,
  length-replicate, take-append-drop, take_all, drop_all, drop-nil, take-append_le, drop-append_le,
  take-append_ge, drop-append_ge, take_front, drop_front, drop-drop, drop-take, length-map,
  take_first, drop_first, get_or-append, to_signed, to_unsigned, InRange, to_signed-to_unsigned,
  to_unsigned-lt, codes, IsByte, le_bytes, of_le, length-le_bytes, le_bytes-IsByte, of_le-le_bytes,
  ℤ, pos, negsuc, ℕ, zero, suc, ◌+◌, ◌-◌, ◌*◌, ◌/◌, ◌%◌, ◌^◌, ◌≤◌, ◌<◌, min, max, ◌≡◌, refl, sym,
  ap, ◌∙◌, subst, ◌≢◌, ◌↔◌, ◌⊎◌, inl, inr, Bool, true, false, not, ◌&&◌, ◌||◌, Option, none, some,
  List, [], ◌∷◌, ◌++◌, map, append_assoc, append-nil, arith,
}
use lightnet.Timer.{TimerWheel, add_timer, cancel}
use lightnet.Net.UdpServer.{UdpServer}
use lightnet.Net.UdpServer
use lightnet.Game.Player.{Float32, Peer}
use lightnet.Game.Send.{Datagram}
use lightnet.Game.Manager.{GameRoomManager}
use lightnet.Game.Codec.{decode}
use lightnet.Game.Dispatch.{handle_packet, tick_all}

pub record GameServer : Type 0 where
  pub udp : UdpServer
  pub rooms : GameRoomManager
  pub wheel : TimerWheel
  pub tick_interval_ms : ℕ
  pub tick_timer : ℕ
  pub running : Bool

-- The timer is added at the clock `now`.
unfoldable pub start : ℕ → GameServer → GameServer
start now s =
    let (wheel, id) = add_timer s.wheel now s.tick_interval_ms (some 0) true in
    if s.running
    then s
    else record s { running = true; udp = UdpServer.start s.udp; wheel = wheel; tick_timer = id }

unfoldable pub stop : GameServer → GameServer
stop s =
    if s.running
    then (if s.tick_timer == 0
        then record s { running = false }
        else record s { running = false; wheel = cancel s.wheel s.tick_timer; tick_timer = 0 })
    else s

abbrev Served : Type 0
Served = Option (GameServer × List Datagram)

abbrev pub with_rooms : GameServer → Option (GameRoomManager × List Datagram) → Served
with_rooms s handled = do (rooms, sent) ← handled; some (record s { rooms = rooms }, sent)

module _ (inet_ntop : ℕ → List ℕ) (F : Float32) where
  -- The two readings of the clock are those that a pong carries.
  unfoldable pub on_datagram : List ℕ → Peer → ℕ → ℕ → GameServer → Served
  on_datagram bytes peer received_ns sent_ns s = elim (decode bytes) [
    | none ↦ some (s, [])
    | some packet ↦ with_rooms s (handle_packet inet_ntop F s.rooms packet peer received_ns sent_ns)
  ]

  unfoldable pub on_tick : GameServer → Served
  on_tick s = if s.running then with_rooms s (tick_all inet_ntop F s.rooms) else some (s, [])
