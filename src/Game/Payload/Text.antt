-- ===== src/Game/Payload/Text.antt =====
-- game/game_codec.cpp: the payloads that hold text, which is cut at a limit.
use lightnet.Common.{
  ℕ, ◌≤◌, ◌<◌, ◌^◌, ◌%◌, ◌≡◌, ap, ◌∙◌, List, [], ◌++◌, some, arith, false, leb, leb→le, leb→gt,
  Bool-cases, inl, inr, sym, ltb, le→ltb, length, take, min, ◌>>=◌, le_bytes, append_assoc,
  length-take, take_all,
}
use lightnet.Game.Packet.{GamePacketHeader, GameChatPayload}
use lightnet.Game.Wire.{append_u16, append_u32, read_u16-le_bytes, read_u32-le_bytes}
use lightnet.Game.Payload.{
  append_text, read_text, encode_chat, decode_chat, encode_profile, decode_profile,
}

text_bytes :
    (limit : ℕ) (text : List ℕ)
    → limit < 2 ^ 16
    → min (length text) limit % 2 ^ 16 ≡ min (length text) limit
text_bytes limit text h = omega arith

take-min : (limit : ℕ) (text : List ℕ) → take (min (length text) limit) text ≡ take limit text
take-min limit text = elim (Bool-cases (leb (length text) limit)) [
  | inl short ↦
      let e : min (length text) limit ≡ length text = omega (arith, leb→le _ _ short) in
      rw e
        (take_all (length text) text (omega arith) ∙ sym (take_all limit text (leb→le _ _ short)))
  | inr long ↦ let e : min (length text) limit ≡ limit = omega (arith, leb→gt _ _ long) in rw e
]

read_text-append_text :
    (limit : ℕ) (text : List ℕ)
    → limit < 2 ^ 16
    → read_text (append_text limit [] text) ≡ some (take limit text)
unfolding read_text append_text append_u16
read_text-append_text limit text h =
    let n : ℕ = min (length text) limit in
    let fits : n < 2 ^ 16 = omega arith in
    let whole : length (take n text) ≤ n = omega (arith, length-take n text) in
    let enough : ltb (length (take n text)) n ≡ false =
      le→ltb _ _ (omega (arith, length-take n text)) in
    rw
      (
        text_bytes limit text h,
        read_u16-le_bytes n fits,
        ◌>>=◌,
        enough,
        take_all n (take n text) whole,
      )
      (ap some (take-min limit text))

append_text_front :
    (limit : ℕ) (out text : List ℕ) → append_text limit out text ≡ out ++ append_text limit [] text
unfolding append_text append_u16
append_text_front limit out text = append_assoc out _ _

module _ (header : GamePacketHeader) where
  -- A chat message whose sender's id fits 32 bits comes back with its sender and the first 200 bytes
  -- of its text.
  pub decode_chat-encode :
      (c : GameChatPayload)
      → c.sender_id < 2 ^ 32
      → decode_chat (record { header = header; payload = encode_chat c })
        ≡ some (record { sender_id = c.sender_id; text = take 200 c.text })
  unfolding decode_chat encode_chat append_u32
  decode_chat-encode c h = rw (
    append_text_front 200 (le_bytes 4 c.sender_id) c.text,
    read_u32-le_bytes c.sender_id h,
    ◌>>=◌,
    read_text-append_text 200 c.text (omega arith),
    ◌>>=◌,
  )

  -- A profile comes back with the first 32 bytes of the name.
  pub decode_profile-encode :
      (name : List ℕ)
      → decode_profile (record { header = header; payload = encode_profile name })
        ≡ some (take 32 name)
  unfolding decode_profile encode_profile
  decode_profile-encode name = read_text-append_text 32 name (omega arith)
