-- ===== src/Game/Codec/Strict.antt =====
-- game/game_codec.cpp: what `decode` demands of a datagram.
use lightnet.Common.{
  eq_of_some, ltb, ◌==◌, ==→eq, guard, >>=-elim, eq_of_some, guard-eq-some, length, take,
  length-take, ℕ, ◌+◌, ◌≤◌, ◌≡◌, sym, ap, ◌∙◌, true, not, some, List, arith,
}
use lightnet.Game.Packet.{GamePacket, magic, protocol_version, header_size}
use lightnet.Game.Wire.{read_u8, read_u16, read_u32, read_u8_takes, read_u16_takes, read_u32_takes}
use lightnet.Game.Codec.{decode}

-- Of a packet that is decoded: its version, and the length that its header gives.
pub record IsAccepted (bytes : List ℕ) (packet : GamePacket) : Type 0 where
  pub version_is : packet.header.version ≡ protocol_version
  pub payload_is : length packet.payload ≡ packet.header.payload_len
  pub room_for : 28 + packet.header.payload_len ≤ length bytes

within : {n k : ℕ} → not (ltb k n) ≡ true → n ≤ k
within h = ground arith

taken : (n : ℕ) (xs : List ℕ) → n ≤ length xs → length (take n xs) ≡ n
taken n xs h = omega (arith, length-take n xs)

module _ (bytes : List ℕ) {packet : GamePacket} where
  -- A decoded packet has the current version and a payload as long as its header says, and the
  -- datagram holds at least 28 bytes more than that payload.
  pub decode-IsAccepted : decode bytes ≡ some packet → IsAccepted bytes packet
  unfolding decode
  decode-IsAccepted e =
      let goal = IsAccepted bytes packet in
      >>=-elim (guard (not (ltb (length bytes) header_size))) _ goal e λ _ _ e.
        >>=-elim (read_u32 bytes) _ goal e λ m d0 e.
          >>=-elim (guard (m.0 == magic)) _ goal e λ _ _ e.
            >>=-elim (read_u8 m.1) _ goal e λ v d1 e.
              >>=-elim (guard (v.0 == protocol_version)) _ goal e λ _ current e.
                >>=-elim (read_u8 v.1) _ goal e λ t d2 e. >>=-elim (read_u16 t.1) _ goal e λ f d3 e.
                  >>=-elim (read_u32 f.1) _ goal e λ r d4 e.
                    >>=-elim (read_u32 r.1) _ goal e λ p d5 e.
                      >>=-elim (read_u32 p.1) _ goal e λ s d6 e.
                        >>=-elim (read_u32 s.1) _ goal e λ k d7 e.
                          >>=-elim (read_u16 k.1) _ goal e λ n d8 e.
                            >>=-elim (read_u16 n.1) _ goal e λ z d9 e.
                              >>=-elim (guard (not (ltb (length z.1) n.0))) _ goal e λ _ whole e.
                                let enough : n.0 ≤ length z.1 = within (guard-eq-some _ whole) in
                                let found = sym (eq_of_some e) in
                                record {
                                  version_is =
                                      ap (λ q. q.header.version) found
                                      ∙ ==→eq _ _ (guard-eq-some _ current);
                                  payload_is =
                                      ap (λ q. length q.payload) found
                                      ∙ taken n.0 z.1 enough
                                      ∙ ap (λ q. q.header.payload_len) (sym found);
                                  room_for = omega (
                                    arith,
                                    enough,
                                    ap (λ q. q.header.payload_len) found,
                                    read_u32_takes bytes m d0,
                                    read_u8_takes m.1 v d1,
                                    read_u8_takes v.1 t d2,
                                    read_u16_takes t.1 f d3,
                                    read_u32_takes f.1 r d4,
                                    read_u32_takes r.1 p d5,
                                    read_u32_takes p.1 s d6,
                                    read_u32_takes s.1 k d7,
                                    read_u16_takes k.1 n d8,
                                    read_u16_takes n.1 z d9,
                                  );
                                }
