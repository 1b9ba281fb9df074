-- ===== src/Game/Room/Input.antt =====
-- game/room.cpp: an input that arrives twice, and the match clock.
use lightnet.Common.{
  leb, ◌==◌, le→leb, Bool-cases, Option-cases, pos, ℕ, zero, suc, ◌≤◌, ◌≡◌, refl, sym, ap, ◌∙◌, inl,
  inr, true, false, not, ◌||◌, some, arith,
}
use lightnet.Game.Packet.{GameInputPayload}
use lightnet.Game.Player.{Float32, GamePlayer, take_input}
use lightnet.Game.Player.Sound.{take_input-Keeps, take_input-seq}
use lightnet.Game.Room.{GameRoom, find_player, modify, apply_input, count_down, run_clock, tick}
use lightnet.Game.Room.Players.{find_player-modify}

module _ (F : Float32) where
  stale_input :
      (room : GameRoom) (id : ℕ) (i : GameInputPayload) {p : GamePlayer}
      → find_player id room.players ≡ some p
      → i.input_seq ≤ p.last_input_seq
      → apply_input F room id i ≡ room
  unfolding apply_input
  stale_input room id i {p} found old = elim (Bool-cases (not p.alive || room.match_over)) [
    | inl out ↦ rw (found, apply_input, out) refl
    | inr plays ↦ rw (found, apply_input, plays, le→leb _ _ old) refl
  ]

  -- An input that is applied a second time, as when its datagram arrives twice, changes nothing more.
  apply_input_twice :
      (room : GameRoom) (id : ℕ) (i : GameInputPayload)
      → apply_input F (apply_input F room id i) id i ≡ apply_input F room id i
  unfolding apply_input
  apply_input_twice room id i = elim (Option-cases (find_player id room.players)) [
    | inl absent ↦
        let same : apply_input F room id i ≡ room = rw (absent, apply_input) refl in
        ap (λ r. apply_input F r id i) same
    | inr (p, found) ↦ elim (Bool-cases (not p.alive || room.match_over)) [
      | inl out ↦
          let same : apply_input F room id i ≡ room = rw (found, apply_input, out) refl in
          ap (λ r. apply_input F r id i) same
      | inr plays ↦ elim (Bool-cases (leb i.input_seq p.last_input_seq)) [
        | inl old ↦
            let same : apply_input F room id i ≡ room = rw (found, apply_input, plays, old) refl in
            ap (λ r. apply_input F r id i) same
        | inr fresh ↦
            let after : GameRoom = record room {
              players = modify id (take_input F i) room.players;
            } in
            let same : apply_input F room id i ≡ after =
              rw (found, apply_input, plays, fresh) refl in
            ap (λ r. apply_input F r id i) same
            ∙ stale_input after id i
                (find_player-modify id (take_input F i) room.players (take_input-Keeps F i).keeps_id
                  found)
                (omega (arith, take_input-seq F i p))
            ∙ sym same
      ]
    ]
  ]

  count_down-le : (left accum : ℕ) → (count_down F left accum).0 ≤ left
  unfolding count_down
  count_down-le zero accum = omega arith
  count_down-le (suc left) accum =
      let ih = count_down-le left (F.minus accum 0x3f800000) in ground arith

  -- What a tick does to the match: when it is over it stays so, with the time it had; otherwise the
  -- time that is left does not grow, and the match is over exactly when none is left.
  tick_clock :
      (room : GameRoom)
      → (room.match_over ≡ true
          → ((tick F room).0.match_over ≡ true)
            × ((tick F room).0.time_left_sec ≡ room.time_left_sec))
        × (room.match_over ≡ false
            → ((tick F room).0.match_over ≡ ((tick F room).0.time_left_sec == 0))
              × ((tick F room).0.time_left_sec ≤ room.time_left_sec))
  unfolding tick run_clock
  tick_clock room = (
    λ over. ground arith,
    λ on. (
      ground arith,
      ground (
        arith,
        count_down-le room.time_left_sec
            (F.plus room.match_accum (F.over (F.of_int (pos room.tick_interval_ms)) 0x447a0000)),
      ),
    ),
  )
