-- ===== src/Game/Manager/Bindings.antt =====
-- game/room_manager.cpp: the table of peers through joining, leaving and a change of address.
use lightnet.Common.{
  ◌==◌, Bool-cases, Option-cases, bytes_eq, bytes_eq_refl, bytes_eq→eq, ℕ, ◌≡◌, refl, sym, ap, ◌∙◌,
  ◌≢◌, inl, inr, Bool, true, ◌||◌, Option, none, some, List, [], ◌∷◌, arith,
}
use lightnet.Game.Packet.{GamePacket}
use lightnet.Game.Player.{Float32, Peer, GamePlayer}
use lightnet.Game.Room.{find_player, add_player}
use lightnet.Game.Manager.{
  lookup, unbind, bind, find_room, refresh_peer, peer_key, find_binding, leave_by_peer, rebind,
  resolve_by_header, resolve_and_refresh_peer, enter, join, PlayerBinding, GameRoomManager,
  open_room, JoinResult,
}

lookup-unbind :
    (key : List ℕ) (index : List (List ℕ × PlayerBinding)) → lookup key (unbind key index) ≡ none
unfolding lookup unbind
lookup-unbind key [] = refl
lookup-unbind key ((k, b) ∷ rest) = ground (arith, lookup-unbind key rest)

lookup-unbind_other :
    (key other : List ℕ) (index : List (List ℕ × PlayerBinding))
    → key ≢ other
    → lookup other (unbind key index) ≡ lookup other index
unfolding lookup unbind
lookup-unbind_other key other [] ne = refl
lookup-unbind_other key other ((k, b) ∷ rest) ne = elim (Bool-cases (bytes_eq k key)) [
  | inl gone ↦ elim (Bool-cases (bytes_eq k other)) [
    | inl same ↦ absurd (ne (sym (bytes_eq→eq k key gone) ∙ bytes_eq→eq k other same))
    | inr differs ↦ rw (gone, differs) (lookup-unbind_other key other rest ne)
  ]
  | inr stays ↦ elim (Bool-cases (bytes_eq k other)) [
    | inl same ↦ rw (stays, same) refl
    | inr differs ↦ rw (stays, differs) (lookup-unbind_other key other rest ne)
  ]
]

lookup-bind :
    (key : List ℕ) (b : PlayerBinding) (index : List (List ℕ × PlayerBinding))
    → lookup key (bind key b index) ≡ some b
unfolding lookup bind
lookup-bind key b index = rw (bytes_eq_refl key) refl

lookup-bind_other :
    (key other : List ℕ) (b : PlayerBinding) (index : List (List ℕ × PlayerBinding))
    → key ≢ other
    → lookup other (bind key b index) ≡ lookup other index
unfolding lookup bind
lookup-bind_other key other b index ne = elim (Bool-cases (bytes_eq key other)) [
  | inl same ↦ absurd (ne (bytes_eq→eq key other same))
  | inr differs ↦ rw differs (lookup-unbind_other key other index ne)
]

abbrev binding_of : JoinResult → PlayerBinding
binding_of r = record { room_id = r.room_id; player_id = r.player_id }

module _ (inet_ntop : ℕ → List ℕ) where
  -- After a peer has left, it is bound to no player, and the bindings of all peers with another key
  -- are what they were.
  leave_by_peer_lem :
      (m : GameRoomManager) (peer : Peer)
      → (find_binding inet_ntop (leave_by_peer inet_ntop m peer) peer ≡ none)
        × ((other : Peer)
            → peer_key inet_ntop peer ≢ peer_key inet_ntop other
            → find_binding inet_ntop (leave_by_peer inet_ntop m peer) other
              ≡ find_binding inet_ntop m other)
  unfolding leave_by_peer find_binding
  leave_by_peer_lem m peer = elim (Option-cases (lookup (peer_key inet_ntop peer) m.peer_index)) [
    | inl absent ↦ rw (absent, leave_by_peer) (absent, λ other ne. refl)
    | inr (b, bound) ↦
        rw (bound, leave_by_peer)
          (
            lookup-unbind (peer_key inet_ntop peer) m.peer_index,
            λ other ne.
                lookup-unbind_other (peer_key inet_ntop peer) (peer_key inet_ntop other)
                  m.peer_index ne,
          )
  ]

  join_bound :
      (F : Float32) (m : GameRoomManager) (peer : Peer) {b : PlayerBinding}
      → find_binding inet_ntop m peer ≡ some b
      → join inet_ntop F m peer
        ≡ (m, record { room_id = b.room_id; player_id = b.player_id; ok = true })
  unfolding join
  join_bound F m peer e = rw (e, join) refl

  join_unbound :
      (F : Float32) (m : GameRoomManager) (peer : Peer)
      → find_binding inet_ntop m peer ≡ none
      → join inet_ntop F m peer ≡ enter inet_ntop F (open_room m) peer
  unfolding join
  join_unbound F m peer e = rw (e, join) refl

  enter-binds :
      (F : Float32) (m : GameRoomManager) (peer : Peer)
      → (enter inet_ntop F m peer).1.ok ≡ true
      → find_binding inet_ntop (enter inet_ntop F m peer).0 peer
        ≡ some (binding_of (enter inet_ntop F m peer).1)
  unfolding enter find_binding
  enter-binds F m peer ok = elim (Option-cases (find_room 1 m.rooms)) [
    | inl closed ↦ absurd (cc (rw (closed, enter) at ok))
    | inr (room, here) ↦ elim (Bool-cases ((add_player F room peer m.next_player_id).1 == 0)) [
      | inl full ↦ absurd (cc (rw (here, full, enter) at ok))
      | inr given ↦
          rw (here, given, enter)
            (lookup-bind (peer_key inet_ntop peer)
              (record { room_id = 1; player_id = m.next_player_id }) m.peer_index)
    ]
  ]

  -- A peer whose joining succeeds is then bound to the room and the player that the result names.
  join-binds :
      (F : Float32) (m : GameRoomManager) (peer : Peer)
      → (join inet_ntop F m peer).1.ok ≡ true
      → find_binding inet_ntop (join inet_ntop F m peer).0 peer
        ≡ some (binding_of (join inet_ntop F m peer).1)
  join-binds F m peer ok = elim (Option-cases (find_binding inet_ntop m peer)) [
    | inr (b, bound) ↦ rw (join_bound F m peer bound) bound
    | inl absent ↦
        rw (join_unbound F m peer absent)
          (enter-binds F (open_room m) peer (rw (join_unbound F m peer absent) at ok))
  ]

  -- A peer whose joining succeeds and that joins again is given the same room and player, and nothing
  -- changes.
  join_again :
      (F : Float32) (m : GameRoomManager) (peer : Peer)
      → (join inet_ntop F m peer).1.ok ≡ true
      → join inet_ntop F (join inet_ntop F m peer).0 peer ≡ join inet_ntop F m peer
  join_again F m peer ok =
      let first : GameRoomManager × JoinResult = join inet_ntop F m peer in
      join_bound F first.0 peer (join-binds F m peer ok)
      ∙ ap
          (λ (o : Bool).
            (first.0, record { room_id = first.1.room_id; player_id = first.1.player_id; ok = o }))
          (sym ok)

  -- A player that `resolve_and_refresh_peer` finds by the header's ids is bound to the address that the
  -- packet came from, and its old address, if it has another key, to nobody.
  rebind_lem :
      (m : GameRoomManager) (peer : Peer) (b : PlayerBinding) (p : GamePlayer)
      → (find_binding inet_ntop (rebind inet_ntop m peer b p) peer ≡ some b)
        × (peer_key inet_ntop peer ≢ peer_key inet_ntop p.peer
            → find_binding inet_ntop (rebind inet_ntop m peer b p) p.peer ≡ none)
  unfolding rebind find_binding
  rebind_lem m peer b p = (
    lookup-bind (peer_key inet_ntop peer) b (unbind (peer_key inet_ntop p.peer) m.peer_index),
    λ ne.
        lookup-bind_other (peer_key inet_ntop peer) (peer_key inet_ntop p.peer) b
          (unbind (peer_key inet_ntop p.peer) m.peer_index) ne
        ∙ lookup-unbind (peer_key inet_ntop p.peer) m.peer_index,
  )

  -- What `resolve_and_refresh_peer` leaves: the peer bound as the result says, or the manager as it was.
  abbrev pub Resolves : GameRoomManager → Peer → GameRoomManager × Option PlayerBinding → Type 0
  Resolves m peer (m', none) = m' ≡ m
  Resolves m peer (m', some b) = find_binding inet_ntop m' peer ≡ some b

  refresh_peer-bindings :
      (m : GameRoomManager) (peer : Peer) (b : PlayerBinding)
      → find_binding inet_ntop (refresh_peer b peer m) peer ≡ find_binding inet_ntop m peer
  unfolding find_binding refresh_peer
  refresh_peer-bindings m peer b = refl

  resolve_by_header-Resolves :
      (m : GameRoomManager) (peer : Peer) (b : PlayerBinding)
      → Resolves m peer (resolve_by_header inet_ntop m peer b)
  unfolding resolve_by_header
  resolve_by_header-Resolves m peer b = elim (Bool-cases (b.room_id == 0 || b.player_id == 0)) [
    | inl nobody ↦ rw nobody refl
    | inr named ↦ elim (Option-cases (find_room b.room_id m.rooms)) [
      | inl closed ↦ rw (named, closed, resolve_by_header) refl
      | inr (room, here) ↦ elim (Option-cases (find_player b.player_id room.players)) [
        | inl absent ↦ rw (named, here, absent, resolve_by_header) refl
        | inr (p, found) ↦ rw (named, here, found, resolve_by_header) (rebind_lem m peer b p).0
      ]
    ]
  ]

  -- Where `resolve_and_refresh_peer` returns a binding, the peer is bound so afterwards, whether it was
  -- bound before or has been found by the header's ids; where it returns none, nothing has changed.
  pub resolve-Resolves :
      (m : GameRoomManager) (peer : Peer) (packet : GamePacket)
      → Resolves m peer (resolve_and_refresh_peer inet_ntop m peer packet)
  unfolding resolve_and_refresh_peer
  resolve-Resolves m peer packet = elim (Option-cases (find_binding inet_ntop m peer)) [
    | inl absent ↦
        rw (absent, resolve_and_refresh_peer)
          (resolve_by_header-Resolves m peer
            (record { room_id = packet.header.room_id; player_id = packet.header.player_id }))
    | inr (b, bound) ↦ rw (bound, resolve_and_refresh_peer) (refresh_peer-bindings m peer b ∙ bound)
  ]
