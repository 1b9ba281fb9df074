-- ===== src/Game/Manager/Reach.antt =====
-- game/room_manager.cpp: the peer table through joining, leaving and the resolving of packets.
use lightnet.Common.{
  ◌==◌, Bool-cases, Option-cases, length, ℕ, ◌≡◌, refl, ap, ◌∙◌, inl, inr, ◌||◌, some, List, [],
  ◌∷◌, ◌++◌,
}
use lightnet.Game.Packet.{GamePacket}
use lightnet.Game.Player.{Float32, Peer, GamePlayer, spawn}
use lightnet.Game.Room.{GameRoom, find_player, modify, remove, remove_player, new_room, add_player}
use lightnet.Game.Room.Players.{find_player-modify}
use lightnet.Game.Manager.{
  open_room, modify_room, new_manager, lookup, unbind, bind, find_room, refresh_peer, peer_key,
  find_binding, leave_by_peer, rebind, resolve_by_header, resolve_and_refresh_peer, enter, join,
  PlayerBinding, GameRoomManager,
}
use lightnet.Game.Manager.Table.{
  find_room-modify_room, find_room-append, find_player-remove, find_room-id, add_player-room_id,
  add_player_keeps, add_player_seats, spawn-peer,
}
use lightnet.Game.Manager.Links.{
  Entry, IsLinked, IsTable, put-IsLinked, same_seat, move-IsLinked, All-map, All-unbind, lookup-All,
}

module _ (inet_ntop : ℕ → List ℕ) where
  leave-IsTable :
      (m : GameRoomManager) (peer : Peer)
      → IsTable inet_ntop m
      → IsTable inet_ntop (leave_by_peer inet_ntop m peer)
  unfolding leave_by_peer find_binding remove_player
  leave-IsTable m peer t = elim (Option-cases (lookup (peer_key inet_ntop peer) m.peer_index)) [
    | inl absent ↦ rw (absent, leave_by_peer) t
    | inr (b, bound) ↦
        let l =
          lookup-All (IsLinked inet_ntop m.rooms) (peer_key inet_ntop peer) m.peer_index t bound in
        let f : GameRoom → GameRoom = λ r. record r { players = remove b.player_id r.players } in
        rw (bound, leave_by_peer)
          (All-unbind (IsLinked inet_ntop m.rooms)
            (IsLinked inet_ntop (modify_room b.room_id f m.rooms)) (peer_key inet_ntop peer)
            m.peer_index
            (λ e ne h.
              put-IsLinked inet_ntop b.room_id f m.rooms e l.opened
                (find_room-id b.room_id m.rooms l.opened)
                (λ at_rid p seat. (
                  p,
                  find_player-remove e.1.player_id b.player_id l.room.players (λ at_pid. ne (
                        same_seat inet_ntop m.rooms e (peer_key inet_ntop peer, b) h l at_rid
                          at_pid))
                      ∙ seat,
                  refl,
                ))
                h)
            t)
  ]

  open_room-IsTable : (m : GameRoomManager) → IsTable inet_ntop m → IsTable inet_ntop (open_room m)
  open_room-IsTable m t = elim (Option-cases (find_room 1 m.rooms)) [
    | inr (room, here) ↦ rw (here, open_room) t
    | inl closed ↦
        rw (closed, open_room)
          (All-map (IsLinked inet_ntop m.rooms)
            (IsLinked inet_ntop (m.rooms ++ (new_room 1 m.tick_interval_ms ∷ []))) m.peer_index
            (λ e l. record {
              room = l.room;
              player = l.player;
              opened = find_room-append e.1.room_id m.rooms _ l.opened;
              seated = l.seated;
              addressed = l.addressed;
            })
            t)
  ]

  enter-IsTable :
      (F : Float32) (m : GameRoomManager) (peer : Peer)
      → IsTable inet_ntop m
      → IsTable inet_ntop (enter inet_ntop F m peer).0
  unfolding enter bind
  enter-IsTable F m peer t = elim (Option-cases (find_room 1 m.rooms)) [
    | inl closed ↦ rw (closed, enter) t
    | inr (room, here) ↦
        let id : ℕ = m.next_player_id in
        let entered : GameRoom = (add_player F room peer id).0 in
        let rid : entered.room_id ≡ 1 =
          add_player-room_id F room peer id ∙ find_room-id 1 m.rooms here in
        let stay : (e : Entry)
            → IsLinked inet_ntop m.rooms e
            → IsLinked inet_ntop (modify_room 1 (λ r. entered) m.rooms) e =
          λ e l.
            put-IsLinked inet_ntop 1 (λ r. entered) m.rooms e here rid
              (λ _ p seat. (p, add_player_keeps F room peer id e.1.player_id seat, refl)) l in
        elim (Bool-cases ((add_player F room peer id).1 == 0)) [
          | inl full ↦ rw (here, full, enter) (All-map _ _ m.peer_index stay t)
          | inr given ↦
              rw (here, given, enter)
                (
                  record {
                    room = entered;
                    player = spawn F peer id (length room.players);
                    opened = find_room-modify_room 1 (λ r. entered) m.rooms here rid;
                    seated = add_player_seats F room peer id given;
                    addressed =
                        ap (peer_key inet_ntop) (spawn-peer F peer id (length room.players));
                  },
                  All-unbind _ _ (peer_key inet_ntop peer) m.peer_index (λ e ne l. stay e l) t,
                )
        ]
  ]

  join-IsTable :
      (F : Float32) (m : GameRoomManager) (peer : Peer)
      → IsTable inet_ntop m
      → IsTable inet_ntop (join inet_ntop F m peer).0
  unfolding join
  join-IsTable F m peer t = elim (Option-cases (find_binding inet_ntop m peer)) [
    | inr (b, bound) ↦ rw (bound, join) t
    | inl absent ↦ rw (absent, join) (enter-IsTable F (open_room m) peer (open_room-IsTable m t))
  ]

  rebind-IsTable :
      (m : GameRoomManager) (peer : Peer) (b : PlayerBinding) {room : GameRoom} {p : GamePlayer}
      → find_room b.room_id m.rooms ≡ some room
      → find_player b.player_id room.players ≡ some p
      → IsTable inet_ntop m
      → IsTable inet_ntop (rebind inet_ntop m peer b p)
  unfolding rebind bind refresh_peer
  rebind-IsTable m peer b {room} {p} here found t =
      let old : List ℕ = peer_key inet_ntop p.peer in
      let set : GamePlayer → GamePlayer = λ q. record q { peer = peer } in
      let f : GameRoom → GameRoom = λ r. record r { players = modify b.player_id set r.players } in
      let l : IsLinked inet_ntop m.rooms (old, b) = record {
        room = room;
        player = p;
        opened = here;
        seated = found;
        addressed = refl;
      } in
      (
        record {
          room = f room;
          player = set p;
          opened =
              find_room-modify_room b.room_id f m.rooms here (find_room-id b.room_id m.rooms here);
          seated = find_player-modify b.player_id set room.players (λ q. refl) found;
          addressed = refl;
        },
        All-unbind (IsLinked inet_ntop (modify_room b.room_id f m.rooms)) _
            (peer_key inet_ntop peer) (unbind old m.peer_index) (λ e ne h. h)
            (All-unbind (IsLinked inet_ntop m.rooms) _ old m.peer_index
              (λ e ne h. move-IsLinked inet_ntop m peer old b e l (λ k. absurd (ne k)) h) t),
      )

  header-IsTable :
      (m : GameRoomManager) (peer : Peer) (b : PlayerBinding)
      → IsTable inet_ntop m
      → IsTable inet_ntop (resolve_by_header inet_ntop m peer b).0
  unfolding resolve_by_header
  header-IsTable m peer b t = elim (Bool-cases (b.room_id == 0 || b.player_id == 0)) [
    | inl nobody ↦ rw nobody t
    | inr named ↦ elim (Option-cases (find_room b.room_id m.rooms)) [
      | inl closed ↦ rw (named, closed, resolve_by_header) t
      | inr (room, here) ↦ elim (Option-cases (find_player b.player_id room.players)) [
        | inl absent ↦ rw (named, here, absent, resolve_by_header) t
        | inr (p, found) ↦
            rw (named, here, found, resolve_by_header) (rebind-IsTable m peer b here found t)
      ]
    ]
  ]

  refresh-IsTable :
      (m : GameRoomManager) (peer : Peer) (b : PlayerBinding)
      → find_binding inet_ntop m peer ≡ some b
      → IsTable inet_ntop m
      → IsTable inet_ntop (refresh_peer b peer m)
  unfolding find_binding refresh_peer
  refresh-IsTable m peer b bound t =
      All-map (IsLinked inet_ntop m.rooms) _ m.peer_index
        (λ e h.
          move-IsLinked inet_ntop m peer (peer_key inet_ntop peer) b e
            (lookup-All (IsLinked inet_ntop m.rooms) (peer_key inet_ntop peer) m.peer_index t bound)
            (λ k. refl) h)
        t

  resolve-IsTable :
      (m : GameRoomManager) (peer : Peer) (packet : GamePacket)
      → IsTable inet_ntop m
      → IsTable inet_ntop (resolve_and_refresh_peer inet_ntop m peer packet).0
  unfolding resolve_and_refresh_peer
  resolve-IsTable m peer packet t = elim (Option-cases (find_binding inet_ntop m peer)) [
    | inl absent ↦ rw (absent, resolve_and_refresh_peer) (header-IsTable m peer _ t)
    | inr (b, bound) ↦ rw (bound, resolve_and_refresh_peer) (refresh-IsTable m peer b bound t)
  ]

  -- The managers that joining, leaving and the resolving of packets bring about, in any order.
  pub data Linked (interval : ℕ) : GameRoomManager → Type 0 where
    starts : Linked interval (new_manager interval)
    joins :
        (F : Float32) (m : GameRoomManager) (peer : Peer)
        → Linked interval m
        → Linked interval (join inet_ntop F m peer).0
    leaves :
        (m : GameRoomManager) (peer : Peer)
        → Linked interval m
        → Linked interval (leave_by_peer inet_ntop m peer)
    resolves :
        (m : GameRoomManager) (peer : Peer) (packet : GamePacket)
        → Linked interval m
        → Linked interval (resolve_and_refresh_peer inet_ntop m peer packet).0

  -- However peers join, leave and change their addresses, each entry of the peer table names a room
  -- that is there and a player in it, and stands under the key of that player's address.
  pub Linked-IsTable :
      (interval : ℕ) (m : GameRoomManager) → Linked interval m → IsTable inet_ntop m
  unfolding new_manager
  Linked-IsTable interval m starts = tt
  Linked-IsTable interval m (joins F before peer l) =
      join-IsTable F before peer (Linked-IsTable interval before l)
  Linked-IsTable interval m (leaves before peer l) =
      leave-IsTable before peer (Linked-IsTable interval before l)
  Linked-IsTable interval m (resolves before peer packet l) =
      resolve-IsTable before peer packet (Linked-IsTable interval before l)
