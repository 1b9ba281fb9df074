-- ===== src/Game/Snapshot.antt =====
-- game/game_codec.cpp: the snapshot payload, a count and the players one after the other.
pub mod RoundTrip
use lightnet.Common.{ℕ, zero, suc, ◌%◌, List, [], ◌∷◌, Option, none, some, length, ◌>>=◌}
use lightnet.Game.Packet.{GamePacket, GamePlayerSnapshot, GameSnapshotPayload}
use lightnet.Game.Wire.{
  append_u8, append_u16, append_u32, append_i16, append_f32, read_u8, read_u16, read_u32, read_i16,
  read_f32,
}
use lightnet.Game.Payload.{append_pad, read_pad}

encode_player : List ℕ → GamePlayerSnapshot → List ℕ
encode_player out pl =
    let out = append_u32 out pl.player_id in
    let out = append_f32 (append_f32 (append_f32 out pl.x) pl.y) pl.z in
    let out = append_i16 (append_i16 out pl.yaw) pl.pitch in
    let out = append_u16 (append_u16 out pl.hp) pl.state_flags in
    let out = append_u32 out pl.last_input_seq in
    let out = append_u8 (append_u8 out pl.weapon_id) pl.pad0 in
    append_u16 (append_u16 out pl.kills) pl.deaths

encode_players : List ℕ → List GamePlayerSnapshot → List ℕ
encode_players out [] = out
encode_players out (pl ∷ pls) = encode_players (encode_player out pl) pls

-- The count is cut to a byte; the players are all written.
pub encode_snapshot : GameSnapshotPayload → List ℕ
encode_snapshot s =
    let out = append_pad (append_u8 (append_u32 [] s.server_tick) (length s.players % 256)) in
    encode_players out s.players

decode_player : List ℕ → Option (GamePlayerSnapshot × List ℕ)
decode_player p = do
  (player_id, p) ← read_u32 p
  (x, p) ← read_f32 p
  (y, p) ← read_f32 p
  (z, p) ← read_f32 p
  (yaw, p) ← read_i16 p
  (pitch, p) ← read_i16 p
  (hp, p) ← read_u16 p
  (state_flags, p) ← read_u16 p
  (last_input_seq, p) ← read_u32 p
  (weapon_id, p) ← read_u8 p
  (pad0, p) ← read_u8 p
  (kills, p) ← read_u16 p
  (deaths, p) ← read_u16 p
  some (
    record {
      player_id = player_id;
      x = x;
      y = y;
      z = z;
      yaw = yaw;
      pitch = pitch;
      hp = hp;
      state_flags = state_flags;
      last_input_seq = last_input_seq;
      weapon_id = weapon_id;
      pad0 = pad0;
      kills = kills;
      deaths = deaths;
    },
    p,
  )

-- The loop, with the rounds that are left.
decode_players : ℕ → List ℕ → Option (List GamePlayerSnapshot)
decode_players zero p = some []
decode_players (suc n) p = do (pl, p) ← decode_player p; pls ← decode_players n p; some (pl ∷ pls)

pub decode_snapshot : GamePacket → Option GameSnapshotPayload
decode_snapshot packet = do
  (server_tick, p) ← read_u32 packet.payload
  (count, p) ← read_u8 p
  p ← read_pad p
  players ← decode_players count p
  some (record { server_tick = server_tick; players = players })
