-- ===== src/Game/Player.antt =====
-- game/room.h and game/room.cpp: a player, and what the room's functions write to one.
-- A float is its 32-bit pattern, and the arithmetic of `float` with sqrt, sin and cos is a parameter:
-- the rules of the game below are stated for any such arithmetic.
pub mod Sound
use lightnet.Common.{
  ltb, leb, ◌==◌, if◌then◌else◌, ltb→lt, lt→ltb, le→ltb, le→leb, lt→leb, ltb→ge, leb→le, leb→gt,
  ==→eq, ==→ne, eq→==, ==-refl, Bool-cases, Option-cases, some_pair-fst, some_pair-snd, bytes_eq,
  bytes_eq_refl, bytes_eq→eq, ◌>>=◌, ◌>>◌, guard, >>=-eq-some, guard-eq-some, >>=-elim, eq_of_some,
  length, take, drop, replicate, get_or, All, length-append, length-take, length-drop,
  length-replicate, take-append-drop, take_all, drop_all, drop-nil, take-append_le, drop-append_le,
  take-append_ge, drop-append_ge, take_front, drop_front, drop-drop, drop-take, length-map,
  take_first, drop_first, get_or-append, to_signed, to_unsigned, InRange, to_signed-to_unsigned,
  to_unsigned-lt, codes, IsByte, le_bytes, of_le, length-le_bytes, le_bytes-IsByte, of_le-le_bytes,
  ℤ, pos, negsuc, ℕ, zero, suc, ◌+◌, ◌-◌, ◌*◌, ◌/◌, ◌%◌, ◌^◌, ◌≤◌, ◌<◌, min, max, ◌≡◌, refl, sym,
  ap, ◌∙◌, subst, ◌≢◌, ◌↔◌, ◌⊎◌, inl, inr, Bool, true, false, not, ◌&&◌, ◌||◌, Option, none, some,
  List, [], ◌∷◌, ◌++◌, map, append_assoc, append-nil, arith,
}
use lightnet.Http.Text.{to_string}
use lightnet.Game.Packet.{GameInputPayload, GameFirePayload, GamePlayerSnapshot}

pub record Float32 : Type 0 where
  pub plus : ℕ → ℕ → ℕ
  pub minus : ℕ → ℕ → ℕ
  pub times : ℕ → ℕ → ℕ
  pub over : ℕ → ℕ → ℕ
  pub negate : ℕ → ℕ
  pub sqrt : ℕ → ℕ
  pub sin : ℕ → ℕ
  pub cos : ℕ → ℕ
  -- The tests `<` and `<=`, false where an operand is no number.
  pub below : ℕ → ℕ → Bool
  pub at_most : ℕ → ℕ → Bool
  -- The conversion of an integer.
  pub of_int : ℤ → ℕ

-- The address of a peer, `sockaddr_in`.
pub record Peer : Type 0 where
  pub address : ℕ
  pub port : ℕ

pub record GamePlayer : Type 0 where
  pub player_id : ℕ
  pub peer : Peer
  pub x : ℕ
  pub y : ℕ
  pub z : ℕ
  pub yaw : ℤ
  pub pitch : ℤ
  pub move_x : ℤ
  pub move_y : ℤ
  pub hp : ℕ
  pub last_input_seq : ℕ
  pub client_tick : ℕ
  pub alive : Bool
  pub weapon_id : ℕ
  pub kills : ℕ
  pub deaths : ℕ
  pub name : List ℕ
  pub respawn_timer : ℕ
  pub client_pos_authoritative : Bool

-- 6, 80, 1.2, 25, 5, pi / 180 and 100.
abbrev move_speed : ℕ
move_speed = 0x40c00000

abbrev pub max_hit_range : ℕ
max_hit_range = 0x42a00000

abbrev pub hit_radius : ℕ
hit_radius = 0x3f99999a

abbrev pub fire_damage : ℕ
fire_damage = 25

abbrev respawn_delay : ℕ
respawn_delay = 0x40a00000

abbrev deg2rad : ℕ
deg2rad = 0x3c8efa35

abbrev yaw_scale : ℕ
yaw_scale = 0x42c80000

module _ (F : Float32) where
  -- The player that `add_player` puts in a room of `idx` players.
  unfoldable pub spawn : Peer → ℕ → ℕ → GamePlayer
  spawn peer player_id idx = record {
    player_id = player_id;
    peer = peer;
    x = F.times (F.of_int (pos (idx % 4))) 0x40400000;
    y = 0x41500000;
    z = F.times (F.of_int (pos (idx / 4))) 0x40400000;
    yaw = pos 0;
    pitch = pos 0;
    move_x = pos 0;
    move_y = pos 0;
    hp = 100;
    last_input_seq = 0;
    client_tick = 0;
    alive = true;
    weapon_id = 0;
    kills = 0;
    deaths = 0;
    name = codes "Player" ++ to_string player_id;
    respawn_timer = 0;
    client_pos_authoritative = false;
  }

  abbrev pub norm : ℕ → ℕ → ℕ → ℕ
  norm dx dy dz = F.sqrt (F.plus (F.plus (F.times dx dx) (F.times dy dy)) (F.times dz dz))

  -- The position that the client claims, taken over or approached by one step.
  pub take_position : Bool → GameInputPayload → GamePlayer → GamePlayer
  take_position first_input input p =
      let dx : ℕ = F.minus input.pos_x p.x in
      let dy : ℕ = F.minus input.pos_y p.y in
      let dz : ℕ = F.minus input.pos_z p.z in
      let dist : ℕ = norm dx dy dz in
      let max_step : ℕ = if first_input then 0x42c80000 else 0x40400000 in
      let s : ℕ = F.over max_step dist in
      if F.at_most dist max_step
      then record p { x = input.pos_x; y = input.pos_y; z = input.pos_z }
      else if F.below 0x38d1b717 dist
      then record p {
        x = F.plus p.x (F.times dx s);
        y = F.plus p.y (F.times dy s);
        z = F.plus p.z (F.times dz s);
      }
      else p

  -- The writes of `apply_input` behind its checks.
  pub take_input : GameInputPayload → GamePlayer → GamePlayer
  unfolding take_position
  take_input input p =
      let told : GamePlayer = record p {
        last_input_seq = input.input_seq;
        client_tick = input.client_tick;
        move_x = input.move_x;
        move_y = input.move_y;
        yaw = input.yaw;
        pitch = input.pitch;
        client_pos_authoritative = not (input.has_pos == 0);
      } in
      if input.has_pos == 0 then told else take_position (p.last_input_seq == 0) input told

  -- One step of `simulate_movement` for one player.
  pub walk : Bool → ℕ → GamePlayer → GamePlayer
  walk match_over dt_sec p =
      let yaw : ℕ = F.times (F.over (F.of_int p.yaw) yaw_scale) deg2rad in
      let fx : ℕ = F.sin yaw in
      let fz : ℕ = F.cos yaw in
      let rx : ℕ = F.cos yaw in
      let rz : ℕ = F.negate (F.sin yaw) in
      let nx : ℕ = F.over (F.of_int p.move_x) 0x42fe0000 in
      let nz : ℕ = F.over (F.of_int p.move_y) 0x42fe0000 in
      if not p.alive || match_over then p else if p.client_pos_authoritative then p else record p {
        x =
            F.plus p.x
              (F.times (F.times (F.plus (F.times fx nz) (F.times rx nx)) move_speed) dt_sec);
        z =
            F.plus p.z
              (F.times (F.times (F.plus (F.times fz nz) (F.times rz nx)) move_speed) dt_sec);
      }

  -- One step of `simulate_respawn` for one player.
  pub cool_down : ℕ → GamePlayer → GamePlayer
  cool_down dt_sec p =
      let left : ℕ = F.minus p.respawn_timer dt_sec in
      if p.alive
      then p
      else if F.below 0 p.respawn_timer
      then record p { respawn_timer = if F.below left 0 then 0 else left }
      else p

  -- The writes of `apply_respawn` behind its checks.
  pub rise : ℕ → GamePlayer → GamePlayer
  rise player_id p = record p {
    alive = true;
    hp = 100;
    x = F.of_int (pos ((player_id % 4) * 3));
    y = 0x41500000;
    z = F.of_int (pos ((player_id / 4) * 3 % 2 ^ 32));
    move_x = pos 0;
    move_y = pos 0;
  }

-- The writes of `apply_fire` to the target.
unfoldable pub wound : GamePlayer → GamePlayer
wound t =
    if leb t.hp fire_damage
    then record t {
      hp = 0;
      alive = false;
      respawn_timer = respawn_delay;
      deaths = (t.deaths + 1) % 2 ^ 16;
    }
    else record t { hp = t.hp - fire_damage }

-- What `apply_fire` writes to the shooter when the target dies.
unfoldable pub score : GamePlayer → GamePlayer
score s = record s { kills = (s.kills + 1) % 2 ^ 16 }

pub profiled : List ℕ → GamePlayer → GamePlayer
profiled name p = record p { name = elim name [ [] ↦ p.name | c ∷ cs ↦ take 32 (c ∷ cs) ] }

pub snapshot_of : GamePlayer → GamePlayerSnapshot
snapshot_of p = record {
  player_id = p.player_id;
  x = p.x;
  y = p.y;
  z = p.z;
  yaw = p.yaw;
  pitch = p.pitch;
  hp = p.hp;
  state_flags = if p.alive then 0 else 1;
  last_input_seq = p.last_input_seq;
  weapon_id = p.weapon_id;
  pad0 = 0;
  kills = p.kills;
  deaths = p.deaths;
}
