-- ===== src/Game/Room/Players.antt =====
-- game/room.cpp: lookups and writes in `players_`.
use lightnet.Common.{
  true, ◌==◌, ==→eq, ==→ne, ==-refl, Bool-cases, eq_of_some, All, ℕ, ◌≡◌, refl, sym, ap, ◌∙◌, subst,
  ◌≢◌, inl, inr, none, some, List, [], ◌∷◌, ◌++◌, map, arith,
}
use lightnet.Game.Player.{Float32, GamePlayer}
use lightnet.Game.Player.Sound.{KeepsId}
use lightnet.Game.Room.{GameRoom, find_player, modify, remove, apply_respawn}

abbrev pub ids : List GamePlayer → List ℕ
ids [] = []
ids (p ∷ ps) = p.player_id ∷ ids ps

abbrev pub IsDistinct : List ℕ → Type 0
IsDistinct [] = Unit {0}
IsDistinct (n ∷ ns) = All (λ k. k ≢ n) ns × IsDistinct ns

pub ids-map :
    (f : GamePlayer → GamePlayer) (ps : List GamePlayer) → KeepsId f → ids (map f ps) ≡ ids ps
ids-map f [] k = refl
ids-map f (p ∷ ps) k = rw (k p, ids-map f ps k) refl

pub ids-modify :
    (id : ℕ) (f : GamePlayer → GamePlayer) (ps : List GamePlayer)
    → KeepsId f
    → ids (modify id f ps) ≡ ids ps
unfolding modify
ids-modify id f [] k = refl
ids-modify id f (p ∷ ps) k = elim (Bool-cases (p.player_id == id)) [
  | inl e ↦ rw (e, k p) refl
  | inr e ↦ rw (e, ids-modify id f ps k) refl
]

pub find_player-id :
    (id : ℕ) (ps : List GamePlayer) {p : GamePlayer} → find_player id ps ≡ some p → p.player_id ≡ id
unfolding find_player
find_player-id id [] e = cc
find_player-id id (q ∷ ps) e = elim (Bool-cases (q.player_id == id)) [
  | inl here ↦ ap (λ a. a.player_id) (sym (eq_of_some (rw here at e))) ∙ ==→eq _ _ here
  | inr there ↦ find_player-id id ps (rw there at e)
]

find_player-All {κ} :
    (P : GamePlayer → Type κ) (id : ℕ) (ps : List GamePlayer) {p : GamePlayer}
    → All P ps
    → find_player id ps ≡ some p
    → P p
unfolding find_player
find_player-All P id [] a e = absurd (cc e)
find_player-All P id (q ∷ ps) (h, hs) e = elim (Bool-cases (q.player_id == id)) [
  | inl here ↦ subst P (eq_of_some (rw here at e)) h
  | inr there ↦ find_player-All P id ps hs (rw there at e)
]

pub find_player_missing :
    (id : ℕ) (ps : List GamePlayer) → find_player id ps ≡ none → All (λ k. k ≢ id) (ids ps)
unfolding find_player
find_player_missing id [] e = tt
find_player_missing id (q ∷ ps) e = elim (Bool-cases (q.player_id == id)) [
  | inl here ↦ absurd (cc (rw here at e))
  | inr there ↦ (==→ne _ _ there, find_player_missing id ps (rw there at e))
]

find_player_here :
    (id : ℕ) (p : GamePlayer) (ps : List GamePlayer)
    → p.player_id ≡ id
    → find_player id (p ∷ ps) ≡ some p
unfolding find_player
find_player_here id p ps e = ground arith

pub find_player-modify :
    (id : ℕ) (f : GamePlayer → GamePlayer) (ps : List GamePlayer) {p : GamePlayer}
    → KeepsId f
    → find_player id ps ≡ some p
    → find_player id (modify id f ps) ≡ some (f p)
unfolding find_player modify
find_player-modify id f [] k e = cc
find_player-modify id f (q ∷ ps) k e = elim (Bool-cases (q.player_id == id)) [
  | inl here ↦ rw here (
      find_player_here id (f q) ps (k q ∙ ==→eq _ _ here)
      ∙ ap (λ (a : GamePlayer). some (f a)) (eq_of_some (rw here at e)))
  | inr there ↦ rw (there, there) (find_player-modify id f ps k (rw there at e))
]

pub find_player-modify_other :
    (k id : ℕ) (f : GamePlayer → GamePlayer) (ps : List GamePlayer)
    → KeepsId f
    → k ≢ id
    → find_player k (modify id f ps) ≡ find_player k ps
unfolding find_player modify
find_player-modify_other k id f [] keeps ne = refl
find_player-modify_other k id f (q ∷ ps) keeps ne = elim (Bool-cases (q.player_id == id)) [
  | inl here ↦ ground (arith, keeps q)
  | inr there ↦ rw (there, find_player-modify_other k id f ps keeps ne) refl
]

pub modify-All {κ} :
    (P : GamePlayer → Type κ) (id : ℕ) (f : GamePlayer → GamePlayer) (ps : List GamePlayer)
    → ((p : GamePlayer) → p.player_id ≡ id → P p → P (f p))
    → All P ps
    → All P (modify id f ps)
unfolding modify
modify-All P id f [] h a = tt
modify-All P id f (q ∷ ps) h (a, as') = elim (Bool-cases (q.player_id == id)) [
  | inl here ↦ rw here (h q (==→eq _ _ here) a, as')
  | inr there ↦ rw there (a, modify-All P id f ps h as')
]

pub map-All {κ} :
    (P : GamePlayer → Type κ) (f : GamePlayer → GamePlayer) (ps : List GamePlayer)
    → ((p : GamePlayer) → P p → P (f p))
    → All P ps
    → All P (map f ps)
map-All P f [] h a = tt
map-All P f (q ∷ ps) h (a, as') = (h q a, map-All P f ps h as')

pub remove-All {κ} :
    (P : GamePlayer → Type κ) (id : ℕ) (ps : List GamePlayer) → All P ps → All P (remove id ps)
unfolding remove
remove-All P id [] a = tt
remove-All P id (q ∷ ps) (a, as') = elim (Bool-cases (q.player_id == id)) [
  | inl here ↦ rw here as'
  | inr there ↦ rw there (a, remove-All P id ps as')
]

remove-ids :
    (n id : ℕ) (ps : List GamePlayer)
    → All (λ k. k ≢ n) (ids ps)
    → All (λ k. k ≢ n) (ids (remove id ps))
unfolding remove
remove-ids n id [] a = tt
remove-ids n id (q ∷ ps) (a, as') = elim (Bool-cases (q.player_id == id)) [
  | inl here ↦ rw here as'
  | inr there ↦ rw there (a, remove-ids n id ps as')
]

pub remove-IsDistinct :
    (id : ℕ) (ps : List GamePlayer) → IsDistinct (ids ps) → IsDistinct (ids (remove id ps))
unfolding remove
remove-IsDistinct id [] d = tt
remove-IsDistinct id (q ∷ ps) (n, d) = elim (Bool-cases (q.player_id == id)) [
  | inl here ↦ rw here d
  | inr there ↦ rw there (remove-ids q.player_id id ps n, remove-IsDistinct id ps d)
]

pub All-snoc {κ} :
    (P : GamePlayer → Type κ) (ps : List GamePlayer) (p : GamePlayer)
    → All P ps
    → P p
    → All P (ps ++ (p ∷ []))
All-snoc P [] p a h = (h, tt)
All-snoc P (q ∷ ps) p (a, as') h = (a, All-snoc P ps p as' h)

ids-snoc :
    (n : ℕ) (ps : List GamePlayer) (p : GamePlayer)
    → All (λ k. k ≢ n) (ids ps)
    → p.player_id ≢ n
    → All (λ k. k ≢ n) (ids (ps ++ (p ∷ [])))
ids-snoc n [] p a h = (h, tt)
ids-snoc n (q ∷ ps) p (a, as') h = (a, ids-snoc n ps p as' h)

pub snoc-IsDistinct :
    (ps : List GamePlayer) (p : GamePlayer)
    → IsDistinct (ids ps)
    → All (λ k. k ≢ p.player_id) (ids ps)
    → IsDistinct (ids (ps ++ (p ∷ [])))
snoc-IsDistinct [] p d new = (tt, tt)
snoc-IsDistinct (q ∷ ps) p (n, d) (ne, new) =
    (ids-snoc q.player_id ps p n (λ e. ne (sym e)), snoc-IsDistinct ps p d new)

Found-cons :
    (q : GamePlayer) (all ps : List GamePlayer)
    → All (λ k. k ≢ q.player_id) (ids ps)
    → All (λ p. find_player p.player_id all ≡ some p) ps
    → All (λ p. find_player p.player_id (q ∷ all) ≡ some p) ps
unfolding find_player
Found-cons q all [] n a = tt
Found-cons q all (p ∷ ps) (n, ns) (a, as') = (ground (arith, n, a), Found-cons q all ps ns as')

-- With distinct ids, each player is found under its own.
pub IsDistinct-found :
    (ps : List GamePlayer) → IsDistinct (ids ps) → All (λ p. find_player p.player_id ps ≡ some p) ps
unfolding find_player
IsDistinct-found [] d = tt
IsDistinct-found (q ∷ ps) (n, d) =
    (rw (==-refl q.player_id) refl, Found-cons q ps ps n (IsDistinct-found ps d))

-- A living player is not revived.
pub apply_respawn_alive :
    (F : Float32) (room : GameRoom) (id : ℕ) {p : GamePlayer}
    → find_player id room.players ≡ some p
    → p.alive ≡ true
    → apply_respawn F room id ≡ room
unfolding apply_respawn
apply_respawn_alive F room id found lives = rw (found, apply_respawn, lives) refl
