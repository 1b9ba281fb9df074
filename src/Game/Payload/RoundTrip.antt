-- ===== src/Game/Payload/RoundTrip.antt =====
-- game/game_codec.cpp: what each decoder makes of what its encoder wrote.
use lightnet.Common.{
  ℕ, ◌^◌, ◌≡◌, refl, to_unsigned, List, [], ◌∷◌, ◌++◌, take, some, arith, true, leb, le→leb, length,
  le_bytes, append_assoc, length-append, length-le_bytes, to_signed-to_unsigned, to_unsigned-lt,
}
use lightnet.Game.Packet.{
  GamePacket, GamePacketHeader, GameInputPayload, GameFirePayload, GameJoinAckPayload,
  GameEventPayload, IsInput, IsFire, IsJoinAck, IsEvent, IsEventType, event_type_of-event_type_code,
}
use lightnet.Game.Wire.{
  append_u8, append_u16, append_u32, append_i8, append_i16, append_f32, read_u8, read_u16-le_bytes,
  read_u32-le_bytes, read_f32-le_bytes, read_i16-le_bytes, read_i8-cons, read_u16_last,
  read_u32_last, read_f32_last,
}
use lightnet.Game.Payload.{
  encode_input, decode_input, decode_input_pos, encode_fire, decode_fire, encode_join_ack,
  decode_join_ack, encode_event, decode_event,
}

pub length-encode_event : (e : GameEventPayload) → length (encode_event e) ≡ 16
unfolding encode_event append_u32 append_u8
length-encode_event e = simp (length-append, length-le_bytes)

module _ (header : GamePacketHeader) where
  abbrev carrying : List ℕ → GamePacket
  carrying bytes = record { header = header; payload = bytes }

  -- A join answer whose fields fit their types comes back unchanged.
  pub decode_join_ack-encode :
      (a : GameJoinAckPayload)
      → IsJoinAck a
      → decode_join_ack (carrying (encode_join_ack a)) ≡ some a
  unfolding decode_join_ack encode_join_ack append_u32
  decode_join_ack-encode a h = simp (
    append_assoc,
    read_u32-le_bytes a.room_id h.room_fit,
    read_u32-le_bytes a.player_id h.player_fit,
    read_u32-le_bytes a.server_tick h.tick_fit,
    read_u32_last a.tick_interval_ms h.interval_fit,
  )

  -- A shot whose fields fit their types comes back unchanged.
  pub decode_fire-encode :
      (f : GameFirePayload) → IsFire f → decode_fire (carrying (encode_fire f)) ≡ some f
  unfolding decode_fire encode_fire append_u32 append_f32 append_u8 read_u8
  decode_fire-encode f h = simp (
    append_assoc,
    read_u32-le_bytes f.client_tick h.tick_fit,
    read_f32-le_bytes f.origin_x h.origin_x_fit,
    read_f32-le_bytes f.origin_y h.origin_y_fit,
    read_f32-le_bytes f.origin_z h.origin_z_fit,
    read_f32-le_bytes f.dir_x h.dir_x_fit,
    read_f32-le_bytes f.dir_y h.dir_y_fit,
    read_f32_last f.dir_z h.dir_z_fit,
  )

  -- An event whose fields fit their types, with a value from -2 ^ 31 up, and of a named type comes
  -- back unchanged.
  pub decode_event-encode :
      (e : GameEventPayload)
      → IsEvent e
      → IsEventType e.event_type
      → decode_event (carrying (encode_event e)) ≡ some e
  unfolding decode_event encode_event append_u32 append_u8 read_u8
  decode_event-encode e h named = simp (
    append_assoc,
    event_type_of-event_type_code e.event_type named,
    read_u32-le_bytes e.target_id h.target_fit,
    read_u32-le_bytes (to_unsigned (2 ^ 31) e.value) (to_unsigned-lt (2 ^ 31) e.value h.value_fit),
    to_signed-to_unsigned (2 ^ 31) e.value h.value_fit,
    read_u32_last e.extra h.extra_fit,
  )

  pos_room :
      (i : GameInputPayload)
      → leb 16 (
          length (
            le_bytes 4 i.pos_x
            ++ (le_bytes 4 i.pos_y ++ (le_bytes 4 i.pos_z ++ (i.has_pos ∷ 0 ∷ 0 ∷ 0 ∷ [])))))
        ≡ true
  pos_room i =
      let tail : List ℕ = i.has_pos ∷ 0 ∷ 0 ∷ 0 ∷ [] in
      le→leb _ _ (
        omega (
          arith,
          length-append (le_bytes 4 i.pos_x) (le_bytes 4 i.pos_y ++ (le_bytes 4 i.pos_z ++ tail)),
          length-append (le_bytes 4 i.pos_y) (le_bytes 4 i.pos_z ++ tail),
          length-append (le_bytes 4 i.pos_z) tail,
          length-le_bytes 4 i.pos_x,
          length-le_bytes 4 i.pos_y,
          length-le_bytes 4 i.pos_z,
        ))

  decode_pos-encode :
      (i : GameInputPayload) (out : GameInputPayload)
      → IsInput i
      → decode_input_pos
          (le_bytes 4 i.pos_x
            ++ (le_bytes 4 i.pos_y ++ (le_bytes 4 i.pos_z ++ (i.has_pos ∷ 0 ∷ 0 ∷ 0 ∷ []))))
          out
        ≡ some
            (record out { pos_x = i.pos_x; pos_y = i.pos_y; pos_z = i.pos_z; has_pos = i.has_pos })
  unfolding decode_input_pos read_u8
  decode_pos-encode i out h = simp (
    read_f32-le_bytes i.pos_x h.x_fit,
    read_f32-le_bytes i.pos_y h.y_fit,
    read_f32-le_bytes i.pos_z h.z_fit,
  )

  -- An input whose fields fit their types comes back unchanged, whatever the record held that it is
  -- decoded into.
  pub decode_input-encode :
      (i out : GameInputPayload) → IsInput i → decode_input (carrying (encode_input i)) out ≡ some i
  unfolding decode_input encode_input append_u32 append_u8 append_i8 append_i16 append_f32
  decode_input-encode i out h =
      simp
        (
          append_assoc,
          read_u32-le_bytes i.input_seq h.seq_fit,
          read_u32-le_bytes i.client_tick h.tick_fit,
          read_i8-cons i.move_x h.move_x_fit,
          read_i8-cons i.move_y h.move_y_fit,
          read_i16-le_bytes i.yaw h.yaw_fit,
          read_i16-le_bytes i.pitch h.pitch_fit,
          read_u16-le_bytes i.buttons h.buttons_fit,
        )
        (rw (pos_room i) (
          decode_pos-encode i
            (record i { pos_x = out.pos_x; pos_y = out.pos_y; pos_z = out.pos_z; has_pos = 0 }) h))

  take-encode_input :
      (i : GameInputPayload)
      → take 16 (encode_input i)
        ≡ le_bytes 4 i.input_seq
          ++ (le_bytes 4 i.client_tick
              ++ (to_unsigned 128 i.move_x
                  ∷ to_unsigned 128 i.move_y
                  ∷ (le_bytes 2 (to_unsigned 32768 i.yaw)
                      ++ (le_bytes 2 (to_unsigned 32768 i.pitch) ++ le_bytes 2 i.buttons))))
  unfolding encode_input append_u32 append_u8 append_i8 append_i16 append_u16 append_f32 le_bytes
  take-encode_input i = refl

  -- Of an input in the old format, cut after 16 bytes, all fields but the position come back; the
  -- position is that of the record it is decoded into, and `has_pos` is 0.
  pub decode_input_old :
      (i out : GameInputPayload)
      → IsInput i
      → decode_input (carrying (take 16 (encode_input i))) out
        ≡ some (record i { pos_x = out.pos_x; pos_y = out.pos_y; pos_z = out.pos_z; has_pos = 0 })
  unfolding decode_input encode_input append_u32 append_u8 append_i8 append_i16 append_f32
  decode_input_old i out h = rw (take-encode_input i) (
      simp (
        read_u32-le_bytes i.input_seq h.seq_fit,
        read_u32-le_bytes i.client_tick h.tick_fit,
        read_i8-cons i.move_x h.move_x_fit,
        read_i8-cons i.move_y h.move_y_fit,
        read_i16-le_bytes i.yaw h.yaw_fit,
        read_i16-le_bytes i.pitch h.pitch_fit,
        read_u16_last i.buttons h.buttons_fit,
      ))
