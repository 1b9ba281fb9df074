-- ===== src/Tests/Peers.antt =====
-- Runs of the room manager of game/.
use lightnet.Common.{arith, ltb, leb, ℕ, max, ◌≡◌, refl, some, List, [], ◌∷◌}
use lightnet.Http.Text.{to_string}
use lightnet.Game.Packet.{default_header, c2s_respawn, GamePacket}
use lightnet.Game.Player.{Float32, Peer, spawn}
use lightnet.Game.Room.{GameRoom, find_player, new_room}
use lightnet.Game.Manager.{new_manager, find_room, resolve_and_refresh_peer, join, GameRoomManager}
use lightnet.Game.Manager.Links.{IsTable}
use lightnet.Game.Manager.Reach.{starts, joins, resolves, Linked-IsTable}
use lightnet.Game.Dispatch.{handle_bound}
use lightnet.Game.Dispatch.Respawn.{respawned, handle_bound_alive}
use lightnet.Game.Send.{Datagram}
use lightnet.Game.Send.Delivery.{IsSendable, TellsEach}

-- A text for each address: its decimal digits.
abbrev digits : ℕ → List ℕ
digits n = to_string n

abbrev inert : Float32
inert = record {
  plus = max;
  minus = λ a b. 0;
  times = max;
  over = λ a b. a;
  negate = λ a. a;
  sqrt = λ a. a;
  sin = λ a. 0;
  cos = λ a. 0;
  below = ltb;
  at_most = leb;
  of_int = λ n. 0;
}

abbrev here : Peer
here = record { address = 7; port = 4000 }

abbrev there : Peer
there = record { address = 7; port = 4001 }

abbrev empty : GameRoomManager
empty = new_manager 33

abbrev joined : GameRoomManager
joined = (join digits inert empty here).0

-- The player of `here`, from another port, is named in the header.
abbrev moved : GamePacket
moved = record {
  header = record default_header { msg_type = c2s_respawn; room_id = 1; player_id = 1 };
  payload = [];
}

abbrev lonely : GameRoom
lonely = record (new_room 1 33) { players = spawn inert here 1 0 ∷ [] }

abbrev with_lonely : GameRoomManager
with_lonely = record empty { rooms = lonely ∷ [] }

lonely-IsSendable : IsSendable lonely
unfolding new_room spawn
lonely-IsSendable = omega arith

handle_bound_alive_example :
    (sent : List Datagram) × (handle_bound digits inert with_lonely moved
        (record { room_id = 1; player_id = 1 })
      ≡ some (with_lonely, sent))
    × TellsEach lonely (respawned 1) lonely.players sent
unfolding find_room find_player spawn new_room
handle_bound_alive_example =
    handle_bound_alive digits inert with_lonely moved (record { room_id = 1; player_id = 1 })
      {room = lonely} {p = spawn inert here 1 0} refl refl refl refl (omega arith) lonely-IsSendable

Linked-IsTable_example : IsTable digits (resolve_and_refresh_peer digits joined there moved).0
Linked-IsTable_example =
    Linked-IsTable digits 33 (resolve_and_refresh_peer digits joined there moved).0
      (resolves joined there moved (joins inert (new_manager 33) here starts))
