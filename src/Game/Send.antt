-- ===== src/Game/Send.antt =====
-- game/room_manager.cpp: the functions that send, each to one peer or to every player of a room.
-- A datagram that is sent is a result; `none` is a write past a buffer's end, in the codec.
pub mod Delivery
use lightnet.Common.{◌>>=◌, ℕ, Option, some, List, [], ◌∷◌}
use lightnet.Buffer.{peek}
use lightnet.Game.Packet.{
  GameMsgType, s2c_join_ack, s2c_snapshot, s2c_event, s2c_chat, s2c_match_state,
  GameSnapshotPayload, GameEventPayload, GameChatPayload,
}
use lightnet.Game.Payload.{encode_join_ack, encode_event, encode_chat, encode_match_state}
use lightnet.Game.Snapshot.{encode_snapshot}
use lightnet.Game.Codec.{build_packet}
use lightnet.Game.Player.{Peer, GamePlayer}
use lightnet.Game.Room.{GameRoom, match_state}

pub record Datagram : Type 0 where
  pub bytes : List ℕ
  pub to : Peer

-- One datagram to one peer.
pub send_one : GameMsgType → ℕ → ℕ → ℕ → ℕ → List ℕ → Peer → Option Datagram
send_one type room_id player_id seq tick payload peer = do
  buf ← build_packet type room_id player_id seq tick payload
  some (record { bytes = peek buf; to = peer })

-- One datagram to each player of a list.
pub send_each : GameMsgType → ℕ → ℕ → ℕ → List ℕ → List GamePlayer → Option (List Datagram)
unfolding send_one
send_each type room_id seq tick payload [] = some []
send_each type room_id seq tick payload (p ∷ ps) = do
  d ← send_one type room_id p.player_id seq tick payload p.peer
  ds ← send_each type room_id seq tick payload ps
  some (d ∷ ds)

pub send_snapshot : GameRoom → GameSnapshotPayload → Option (List Datagram)
send_snapshot room snap =
    send_each s2c_snapshot room.room_id snap.server_tick snap.server_tick (encode_snapshot snap)
      room.players

pub send_event : GameRoom → GameEventPayload → Option (List Datagram)
send_event room event =
    send_each s2c_event room.room_id 0 room.server_tick (encode_event event) room.players

pub send_chat : GameRoom → GameChatPayload → Option (List Datagram)
send_chat room chat =
    send_each s2c_chat room.room_id 0 room.server_tick (encode_chat chat) room.players

pub send_match_state : GameRoom → Option (List Datagram)
send_match_state room =
    send_each s2c_match_state room.room_id 0 room.server_tick
      (encode_match_state (match_state room)) room.players

pub send_join_ack : ℕ → Peer → ℕ → ℕ → ℕ → Option Datagram
send_join_ack tick_interval_ms peer room_id player_id server_tick =
    send_one s2c_join_ack room_id player_id 0 server_tick
      (encode_join_ack (record {
        room_id = room_id;
        player_id = player_id;
        server_tick = server_tick;
        tick_interval_ms = tick_interval_ms;
      }))
      peer
