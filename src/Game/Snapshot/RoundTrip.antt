-- ===== src/Game/Snapshot/RoundTrip.antt =====
-- game/game_codec.cpp: what the decoder reads back of an encoded snapshot.
use lightnet.Common.{
  ℕ, zero, suc, ◌≤◌, ◌<◌, ◌^◌, ◌%◌, ◌≡◌, refl, ap, ◌∙◌, sym, List, [], ◌∷◌, ◌++◌, some, arith,
  length, take, All, ◌>>=◌, le_bytes, append_assoc, append-nil,
}
use lightnet.Game.Packet.{GamePacketHeader, GamePlayerSnapshot, GameSnapshotPayload, IsPlayer}
use lightnet.Game.Wire.{
  append_u8, append_u16, append_u32, append_i16, append_f32, read_u8, read_u16-le_bytes,
  read_u32-le_bytes, read_f32-le_bytes, read_i16-le_bytes,
}
use lightnet.Game.Snapshot.{
  encode_player, encode_players, encode_snapshot, decode_player, decode_players, decode_snapshot,
}

encode_player_front :
    (out : List ℕ) (pl : GamePlayerSnapshot) → encode_player out pl ≡ out ++ encode_player [] pl
unfolding encode_player append_u32 append_f32 append_i16 append_u16 append_u8
encode_player_front out pl = simp append_assoc

decode_player-encode_player :
    (pl : GamePlayerSnapshot)
    → IsPlayer pl
    → (rest : List ℕ) → decode_player (encode_player [] pl ++ rest) ≡ some (pl, rest)
unfolding decode_player encode_player append_u32 append_f32 append_i16 append_u16 append_u8 read_u8
decode_player-encode_player pl h rest = simp (
  append_assoc,
  read_u32-le_bytes pl.player_id h.player_fit,
  read_f32-le_bytes pl.x h.x_fit,
  read_f32-le_bytes pl.y h.y_fit,
  read_f32-le_bytes pl.z h.z_fit,
  read_i16-le_bytes pl.yaw h.yaw_fit,
  read_i16-le_bytes pl.pitch h.pitch_fit,
  read_u16-le_bytes pl.hp h.hp_fit,
  read_u16-le_bytes pl.state_flags h.flags_fit,
  read_u32-le_bytes pl.last_input_seq h.seq_fit,
  read_u16-le_bytes pl.kills h.kills_fit,
  read_u16-le_bytes pl.deaths h.deaths_fit,
)

encode_players_front :
    (out : List ℕ) (pls : List GamePlayerSnapshot)
    → encode_players out pls ≡ out ++ encode_players [] pls
unfolding encode_players
encode_players_front out [] = sym (append-nil out)
encode_players_front out (pl ∷ pls) =
    encode_players_front (encode_player out pl) pls
    ∙ ap (λ o. o ++ encode_players [] pls) (encode_player_front out pl)
    ∙ append_assoc out (encode_player [] pl) (encode_players [] pls)
    ∙ ap (◌++◌ out) (sym (encode_players_front (encode_player [] pl) pls))

-- The loop reads as many players as it has rounds for.
decode_players-encode_players :
    (n : ℕ) (pls : List GamePlayerSnapshot)
    → All IsPlayer pls
    → n ≤ length pls
    → decode_players n (encode_players [] pls) ≡ some (take n pls)
unfolding decode_players
decode_players-encode_players zero pls hs h = refl
decode_players-encode_players (suc n) [] hs h = absurd (omega arith)
decode_players-encode_players (suc n) (pl ∷ pls) (hp, hs) h =
    let e : encode_players [] (pl ∷ pls) ≡ encode_player [] pl ++ encode_players [] pls =
      unfold encode_players in encode_players_front (encode_player [] pl) pls in
    rw (
      e,
      decode_player-encode_player pl hp (encode_players [] pls),
      ◌>>=◌,
      decode_players-encode_players n pls hs (omega arith),
    )

encode_snapshot_layout :
    (s : GameSnapshotPayload)
    → encode_snapshot s
      ≡ le_bytes 4 s.server_tick
        ++ ((length s.players % 256) ∷ 0 ∷ 0 ∷ 0 ∷ encode_players [] s.players)
unfolding encode_snapshot append_u32 append_u8
encode_snapshot_layout s = encode_players_front _ s.players ∙ simp append_assoc

module _ (header : GamePacketHeader) where
  -- A snapshot whose fields fit their types comes back with its tick and, of its players, as many
  -- from the front as their number modulo 256: all of them, if there are at most 255.
  pub decode_snapshot-encode :
      (s : GameSnapshotPayload)
      → s.server_tick < 2 ^ 32
      → All IsPlayer s.players
      → decode_snapshot (record { header = header; payload = encode_snapshot s })
        ≡ some (record s { players = take (length s.players % 256) s.players })
  unfolding decode_snapshot read_u8
  decode_snapshot-encode s h hs = rw (encode_snapshot_layout s) (
      simp (
        read_u32-le_bytes s.server_tick h,
        decode_players-encode_players (length s.players % 256) s.players hs (omega arith),
      ))
