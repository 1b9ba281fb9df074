-- ===== src/Tests/Rooms.antt =====
-- Runs of the rooms of game/.
use lightnet.Common.{ltb, leb, ltb→lt, lt→ltb, max, ◌≡◌, refl, ◌⊎◌, [], ◌∷◌, arith}
use lightnet.Game.Packet.{GameFirePayload}
use lightnet.Game.Player.{spawn, wound, Float32, Peer}
use lightnet.Game.Room.{
  modify, new_room, find_player, missed, hit, shoot, meets, better, find_hit_loop, find_hit_target,
  apply_fire, GameRoom,
}
use lightnet.Game.Room.Nearest.{IsOrder, IsNearest, find_hit_target-IsNearest}
use lightnet.Game.Room.Players.{ids, IsDistinct}
use lightnet.Game.Room.Invariant.{IsRoom, opens, calls, joins, fires, step, Reachable-IsRoom}
use lightnet.Game.Room.Fire.{IsHit, apply_fire-IsHit}

-- An arithmetic in which every product is 2 and every root is 1.
abbrev coarse : Float32
coarse = record {
  plus = max;
  minus = λ a b. 0;
  times = λ a b. 0x40000000;
  over = λ a b. a;
  negate = λ a. a;
  sqrt = λ a. 0x3f800000;
  sin = λ a. 0;
  cos = λ a. 0;
  below = ltb;
  at_most = leb;
  of_int = λ n. 0;
}

abbrev here : Peer
here = record { address = 0x7f000001; port = 4000 }

abbrev there : Peer
there = record { address = 0x7f000001; port = 4001 }

abbrev shot : GameFirePayload
shot = record {
  client_tick = 1;
  weapon_id = 0;
  origin_x = 0;
  origin_y = 0;
  origin_z = 0;
  dir_x = 0;
  dir_y = 0;
  dir_z = 0x3f800000;
}

abbrev pair : GameRoom
pair = record (new_room 1 33) { players = spawn coarse here 7 0 ∷ spawn coarse there 9 1 ∷ [] }

pair-IsDistinct : IsDistinct (ids pair.players)
unfolding spawn
pair-IsDistinct = (((λ e. cc), tt), (tt, tt))

apply_fire-IsHit_example :
    (apply_fire coarse pair 7 shot ≡ missed pair) ⊎ IsHit pair 7 (apply_fire coarse pair 7 shot)
apply_fire-IsHit_example = apply_fire-IsHit coarse pair 7 shot pair-IsDistinct

-- The shot of player 7 meets player 9.
shot_meets :
    ((apply_fire coarse pair 7 shot).target_id ≡ 9) × ((apply_fire coarse pair 7 shot).hp ≡ 75)
unfolding new_room apply_fire spawn find_player find_hit_target find_hit_loop better meets shoot hit
    modify wound
shot_meets = (refl, refl)

abbrev joined : GameRoom
joined = step coarse (step coarse (new_room 1 33) (joins here 7)) (joins there 9)

Reachable-IsRoom_example : IsRoom (step coarse joined (fires 7 shot)).players
Reachable-IsRoom_example = Reachable-IsRoom coarse 1 33 (step coarse joined (fires 7 shot)) (
    calls joined (fires 7 shot) (
      calls (step coarse (new_room 1 33) (joins here 7)) (joins there 9)
        (calls (new_room 1 33) (joins here 7) opens)))

coarse-IsOrder : IsOrder coarse
coarse-IsOrder = record {
  irreflexive = λ a. ground arith;
  transitive = λ a b c h k. lt→ltb a c (omega (arith, ltb→lt a b h, ltb→lt b c k));
}

find_hit_target-IsNearest_example :
    IsNearest coarse 7 shot pair.players (find_hit_target coarse pair 7 shot)
find_hit_target-IsNearest_example = find_hit_target-IsNearest coarse 7 shot pair coarse-IsOrder
