-- ===== src/Game/Room.antt =====
-- game/room.h and game/room.cpp: one match.
-- `players_` is the list of its players, in the order that its iteration has; the key of an entry is
-- the player's own id, which no code changes. A pointer into the map is the id that finds it.
pub mod Players
pub mod Invariant
pub mod Fire
pub mod Nearest
pub mod Input
use lightnet.Common.{
  ltb, leb, ◌==◌, if◌then◌else◌, ltb→lt, lt→ltb, le→ltb, le→leb, lt→leb, ltb→ge, leb→le, leb→gt,
  ==→eq, ==→ne, eq→==, ==-refl, Bool-cases, Option-cases, some_pair-fst, some_pair-snd, bytes_eq,
  bytes_eq_refl, bytes_eq→eq, ◌>>=◌, ◌>>◌, guard, >>=-eq-some, guard-eq-some, >>=-elim, eq_of_some,
  length, take, drop, replicate, get_or, All, length-append, length-take, length-drop,
  length-replicate, take-append-drop, take_all, drop_all, drop-nil, take-append_le, drop-append_le,
  take-append_ge, drop-append_ge, take_front, drop_front, drop-drop, drop-take, length-map,
  take_first, drop_first, get_or-append, to_signed, to_unsigned, InRange, to_signed-to_unsigned,
  to_unsigned-lt, codes, IsByte, le_bytes, of_le, length-le_bytes, le_bytes-IsByte, of_le-le_bytes,
  ℤ, pos, negsuc, ℕ, zero, suc, ◌+◌, ◌-◌, ◌*◌, ◌/◌, ◌%◌, ◌^◌, ◌≤◌, ◌<◌, min, max, ◌≡◌, refl, sym,
  ap, ◌∙◌, subst, ◌≢◌, ◌↔◌, ◌⊎◌, inl, inr, Bool, true, false, not, ◌&&◌, ◌||◌, Option, none, some,
  List, [], ◌∷◌, ◌++◌, map, append_assoc, append-nil, arith,
}
use lightnet.Game.Packet.{
  GameInputPayload, GameFirePayload, GameSnapshotPayload, GameMatchStatePayload,
}
use lightnet.Game.Player.{
  Float32, Peer, GamePlayer, max_hit_range, hit_radius, fire_damage, spawn, norm, take_input, walk,
  cool_down, rise, wound, score, profiled, snapshot_of,
}

pub record GameRoom : Type 0 where
  pub room_id : ℕ
  pub server_tick : ℕ
  pub tick_interval_ms : ℕ
  pub time_left_sec : ℕ
  pub match_accum : ℕ
  pub match_over : Bool
  pub players : List GamePlayer

unfoldable pub new_room : ℕ → ℕ → GameRoom
new_room room_id tick_interval_ms = record {
  room_id = room_id;
  server_tick = 0;
  tick_interval_ms = tick_interval_ms;
  time_left_sec = 300;
  match_accum = 0;
  match_over = false;
  players = [];
}

unfoldable pub find_player : ℕ → List GamePlayer → Option GamePlayer
find_player id [] = none
find_player id (p ∷ ps) = if p.player_id == id then some p else find_player id ps

-- Writes through the pointer that `find_player` returns.
unfoldable pub modify : ℕ → (GamePlayer → GamePlayer) → List GamePlayer → List GamePlayer
modify id f [] = []
modify id f (p ∷ ps) = if p.player_id == id then f p ∷ ps else p ∷ modify id f ps

unfoldable pub remove : ℕ → List GamePlayer → List GamePlayer
remove id [] = []
remove id (p ∷ ps) = if p.player_id == id then ps else p ∷ remove id ps

unfoldable pub is_some {ℓ} : {A : Type ℓ} → Option A → Bool
is_some none = false
is_some (some _) = true

-- The room after a shot, the target's id or 0, and `*out_hp` and `*out_killed`.
pub record Shot : Type 0 where
  pub room : GameRoom
  pub target_id : ℕ
  pub hp : ℕ
  pub killed : Bool

abbrev pub missed : GameRoom → Shot
missed room = record { room = room; target_id = 0; hp = 0; killed = false }

-- The writes for a hit, the target's and then the shooter's.
unfoldable pub hit : GameRoom → ℕ → GamePlayer → Shot
hit room shooter_id t =
    let after : List GamePlayer = modify t.player_id wound room.players in
    let killed : Bool = leb t.hp fire_damage in
    record {
      room = record room { players = if killed then modify shooter_id score after else after };
      target_id = t.player_id;
      hp = (wound t).hp;
      killed = killed;
    }

-- What follows the search for a target.
unfoldable pub shoot : GameRoom → ℕ → Option GamePlayer → Shot
shoot room shooter_id none = missed room
shoot room shooter_id (some t) = hit room shooter_id t

unfoldable pub remove_player : GameRoom → ℕ → GameRoom × Bool
remove_player room id =
    (record room { players = remove id room.players }, is_some (find_player id room.players))

pub apply_weapon : GameRoom → ℕ → ℕ → GameRoom
apply_weapon room id weapon_id = elim (find_player id room.players) [
  | none ↦ room
  | some p ↦ if not p.alive then room else if ltb 5 weapon_id then room else record room {
    players = modify id (λ p. record p { weapon_id = weapon_id }) room.players;
  }
]

pub apply_profile : GameRoom → ℕ → List ℕ → GameRoom
apply_profile room id name = elim (find_player id room.players) [
  | none ↦ room
  | some p ↦ record room { players = modify id (profiled name) room.players }
]

pub match_state : GameRoom → GameMatchStatePayload
match_state room = record {
  time_left_sec = room.time_left_sec;
  match_over = if room.match_over then 1 else 0;
}

module _ (F : Float32) where
  unfoldable pub add_player : GameRoom → Peer → ℕ → GameRoom × ℕ
  add_player room peer player_id =
      if player_id == 0 || is_some (find_player player_id room.players) then (room, 0) else (
        record room {
          players = room.players ++ (spawn F peer player_id (length room.players) ∷ []);
        },
        player_id,
      )

  pub apply_input : GameRoom → ℕ → GameInputPayload → GameRoom
  apply_input room id input = elim (find_player id room.players) [
    | none ↦ room
    | some p ↦
        if not p.alive || room.match_over
        then room
        else if leb input.input_seq p.last_input_seq
        then room
        else record room { players = modify id (take_input F input) room.players }
  ]

  -- The distance along the aim at which a player stands, if the shot meets it.
  unfoldable pub meets : GameFirePayload → GamePlayer → Option ℕ
  meets fire p =
      let chest : ℕ = F.plus p.y 0x3f800000 in
      let tx : ℕ = F.minus p.x fire.origin_x in
      let ty : ℕ = F.minus chest fire.origin_y in
      let tz : ℕ = F.minus p.z fire.origin_z in
      let t : ℕ =
        F.plus (F.plus (F.times tx fire.dir_x) (F.times ty fire.dir_y)) (F.times tz fire.dir_z) in
      let px : ℕ = F.plus fire.origin_x (F.times fire.dir_x t) in
      let py : ℕ = F.plus fire.origin_y (F.times fire.dir_y t) in
      let pz : ℕ = F.plus fire.origin_z (F.times fire.dir_z t) in
      let dist : ℕ = norm F (F.minus p.x px) (F.minus chest py) (F.minus p.z pz) in
      if F.below t 0x3f000000 || F.below max_hit_range t
      then none
      else if F.at_most dist hit_radius
      then some t
      else none

  -- One round of the loop of `find_hit_target`, on the best target so far and its distance.
  unfoldable pub better :
      ℕ → GameFirePayload → GamePlayer → Option GamePlayer × ℕ → Option GamePlayer × ℕ
  better shooter_id fire p (best, best_t) =
      if p.player_id == shooter_id || not p.alive then (best, best_t) else elim (meets fire p) [
        | none ↦ (best, best_t)
        | some t ↦ if F.below t best_t then (some p, t) else (best, best_t)
      ]

  unfoldable pub find_hit_loop :
      ℕ → GameFirePayload → List GamePlayer → Option GamePlayer × ℕ → Option GamePlayer × ℕ
  find_hit_loop shooter_id fire [] best = best
  find_hit_loop shooter_id fire (p ∷ ps) best =
      find_hit_loop shooter_id fire ps (better shooter_id fire p best)

  unfoldable pub find_hit_target : GameRoom → ℕ → GameFirePayload → Option GamePlayer
  unfolding find_hit_loop
  find_hit_target room shooter_id fire =
      (find_hit_loop shooter_id fire room.players (none, max_hit_range)).0

  -- The shot from where the server knows the shooter to be, along the client's aim.
  pub validated : GamePlayer → GameFirePayload → ℕ → GameFirePayload
  validated s fire len = record fire {
    origin_x = s.x;
    origin_y = F.plus s.y 0x3fc00000;
    origin_z = s.z;
    dir_x = F.over fire.dir_x len;
    dir_y = F.over fire.dir_y len;
    dir_z = F.over fire.dir_z len;
  }

  unfoldable pub apply_fire : GameRoom → ℕ → GameFirePayload → Shot
  apply_fire room shooter_id fire =
      let len : ℕ = norm F fire.dir_x fire.dir_y fire.dir_z in
      if room.match_over then missed room else elim (find_player shooter_id room.players) [
        | none ↦ missed room
        | some s ↦
            if not s.alive
            then missed room
            else if F.below len 0x38d1b717
            then missed room
            else shoot room shooter_id (find_hit_target room s.player_id (validated s fire len))
      ]

  pub apply_respawn : GameRoom → ℕ → GameRoom
  apply_respawn room id = elim (find_player id room.players) [
    | none ↦ room
    | some p ↦
        if p.alive || room.match_over
        then room
        else if F.below 0 p.respawn_timer
        then room
        else record room { players = modify id (rise F id) room.players }
  ]

  -- `while (match_accum_ >= 1.0f && time_left_sec_ > 0)`, with the seconds that are left.
  pub count_down : ℕ → ℕ → ℕ × ℕ
  count_down zero accum = (0, accum)
  count_down (suc left) accum =
      let rest = count_down left (F.minus accum 0x3f800000) in
      if F.at_most 0x3f800000 accum then rest else (suc left, accum)

  pub run_clock : ℕ → GameRoom → GameRoom
  unfolding count_down
  run_clock dt room =
      let (left, accum) = count_down room.time_left_sec (F.plus room.match_accum dt) in
      if room.match_over
      then room
      else record room { time_left_sec = left; match_accum = accum; match_over = left == 0 }

  pub tick : GameRoom → GameRoom × GameSnapshotPayload
  unfolding run_clock
  tick room =
      let dt : ℕ = F.over (F.of_int (pos room.tick_interval_ms)) 0x447a0000 in
      let counted : GameRoom = record room { server_tick = (room.server_tick + 1) % 2 ^ 32 } in
      let timed : GameRoom = run_clock dt counted in
      let players : List GamePlayer =
        map (walk F timed.match_over dt) (map (cool_down F dt) timed.players) in
      (
        record timed { players = players },
        record { server_tick = timed.server_tick; players = map snapshot_of players },
      )
