-- ===== src/Game/Send/Delivery.antt =====
-- game/room_manager.cpp: what the receivers of an event make of the datagrams.
use lightnet.Common.{◌^◌, ◌<◌, ◌≡◌, refl, All, some, List, [], ◌∷◌, arith}
use lightnet.Game.Packet.{s2c_event, GamePacket, GameEventPayload, IsEvent, IsEventType}
use lightnet.Game.Payload.{encode_event, decode_event}
use lightnet.Game.Payload.RoundTrip.{length-encode_event, decode_event-encode}
use lightnet.Game.Codec.{decode}
use lightnet.Game.Codec.RoundTrip.{build_packet-decode}
use lightnet.Game.Player.{GamePlayer}
use lightnet.Game.Room.{GameRoom}
use lightnet.Game.Send.{Datagram, send_one, send_each, send_event}

-- The datagram goes to the player, and decodes to a packet of the room for the player that has the event
-- in it.
pub record Tells (room : GameRoom) (event : GameEventPayload) (p : GamePlayer) (d : Datagram)
    : Type 0 where
  pub packet : GamePacket
  pub to_player : d.to ≡ p.peer
  pub decoded : decode d.bytes ≡ some packet
  pub typed : packet.header.msg_type ≡ s2c_event
  pub room_named : packet.header.room_id ≡ room.room_id
  pub player_named : packet.header.player_id ≡ p.player_id
  pub dated : packet.header.tick ≡ room.server_tick
  pub holds_event : decode_event packet ≡ some event

-- One datagram for each player, in their order, and no other.
abbrev pub TellsEach : GameRoom → GameEventPayload → List GamePlayer → List Datagram → Type 0
TellsEach room event [] [] = Unit {0}
TellsEach room event [] (d ∷ ds) = ⊥
TellsEach room event (p ∷ ps) [] = ⊥
TellsEach room event (p ∷ ps) (d ∷ ds) = Tells room event p d × TellsEach room event ps ds

-- The ids and the clock of the room fit their types.
pub record IsSendable (room : GameRoom) : Type 0 where
  pub room_fit : room.room_id < 2 ^ 32
  pub tick_fit : room.server_tick < 2 ^ 32
  pub players_fit : All (λ (p : GamePlayer). p.player_id < 2 ^ 32) room.players

send_one-Tells :
    (room : GameRoom) (event : GameEventPayload) (p : GamePlayer)
    → IsSendable room
    → p.player_id < 2 ^ 32
    → IsEvent event
    → IsEventType event.event_type
    → (d : Datagram) × (send_one s2c_event room.room_id p.player_id 0 room.server_tick
          (encode_event event)
          p.peer
        ≡ some d)
      × Tells room event p d
unfolding send_one
send_one-Tells room event p s fit i named =
    let (buf, e, d) =
      build_packet-decode s2c_event room.room_id p.player_id 0 room.server_tick (encode_event event)
        tt s.room_fit fit (omega arith) s.tick_fit (omega (arith, length-encode_event event)) in
    (
      _,
      rw e refl,
      record {
        packet = _;
        to_player = refl;
        decoded = d;
        typed = refl;
        room_named = refl;
        player_named = refl;
        dated = refl;
        holds_event = decode_event-encode _ event i named;
      },
    )

send_each-TellsEach :
    (room : GameRoom) (event : GameEventPayload) (ps : List GamePlayer)
    → IsSendable room
    → All (λ (p : GamePlayer). p.player_id < 2 ^ 32) ps
    → IsEvent event
    → IsEventType event.event_type
    → (ds : List Datagram) × (send_each s2c_event room.room_id 0 room.server_tick
          (encode_event event)
          ps
        ≡ some ds)
      × TellsEach room event ps ds
unfolding send_each
send_each-TellsEach room event [] s a i named = ([], refl, tt)
send_each-TellsEach room event (p ∷ ps) s (fit, fits) i named =
    let (d, e, t) = send_one-Tells room event p s fit i named in
    let (ds, es, ts) = send_each-TellsEach room event ps s fits i named in
    (d ∷ ds, rw (e, es) refl, (t, ts))

-- An event whose fields fit reaches every player of the room.
pub send_event-TellsEach :
    (room : GameRoom) (event : GameEventPayload)
    → IsSendable room
    → IsEvent event
    → IsEventType event.event_type
    → (ds : List Datagram) × (send_event room event ≡ some ds)
      × TellsEach room event room.players ds
unfolding send_event
send_event-TellsEach room event s i named =
    send_each-TellsEach room event room.players s s.players_fit i named
