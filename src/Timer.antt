-- ===== src/Timer.antt =====
-- core/timer_wheel.h and core/timer_wheel.cpp: one-shot and repeating timers in a heap.
-- `std::priority_queue` is the list of its nodes by expiry: only its top is ever read or removed.
-- Among nodes with one expiry the C++ leaves open which is on top; here it is the one pushed first.
-- Each reading of the clock is an argument. What a callback does to the wheel is a list of commands.
pub mod Queue
pub mod Tick
pub mod Spin
pub mod Fires
use lightnet.Common.{
  ltb, leb, ◌==◌, if◌then◌else◌, ltb→lt, lt→ltb, le→ltb, le→leb, lt→leb, ltb→ge, leb→le, leb→gt,
  ==→eq, ==→ne, eq→==, ==-refl, Bool-cases, Option-cases, some_pair-fst, some_pair-snd, bytes_eq,
  bytes_eq_refl, bytes_eq→eq, ◌>>=◌, ◌>>◌, guard, length, take, drop, replicate, get_or, All,
  length-append, length-take, length-drop, length-replicate, take-append-drop, take_all, drop_all,
  drop-nil, take-append_le, drop-append_le, take-append_ge, drop-append_ge, take_front, drop_front,
  drop-drop, drop-take, length-map, take_first, drop_first, get_or-append, to_signed, to_unsigned,
  InRange, to_signed-to_unsigned, to_unsigned-lt, codes, IsByte, le_bytes, of_le, length-le_bytes,
  le_bytes-IsByte, of_le-le_bytes, ℤ, pos, negsuc, ℕ, zero, suc, ◌+◌, ◌-◌, ◌*◌, ◌/◌, ◌%◌, ◌^◌, ◌≤◌,
  ◌<◌, min, max, ◌≡◌, refl, sym, ap, ◌∙◌, subst, ◌≢◌, ◌↔◌, ◌⊎◌, inl, inr, Bool, true, false, not,
  ◌&&◌, ◌||◌, Option, none, some, List, [], ◌∷◌, ◌++◌, map, append_assoc, append-nil, arith,
}

pub record TimerNode : Type 0 where
  pub id : ℕ
  pub expire_ms : ℕ
  pub interval_ms : ℕ
  pub repeat : Bool
  -- An empty `std::function` is `none`; any other is named by a number.
  pub callback : Option ℕ

pub record TimerWheel : Type 0 where
  pub timers : List TimerNode
  pub active : List ℕ
  pub next_id : ℕ
  pub last_tick_ms : ℕ

pub new_wheel : ℕ → TimerWheel
new_wheel now = record { timers = []; active = []; next_id = 1; last_tick_ms = now }

unfoldable pub push : TimerNode → List TimerNode → List TimerNode
push n [] = n ∷ []
push n (m ∷ ms) = if ltb n.expire_ms m.expire_ms then n ∷ m ∷ ms else m ∷ push n ms

-- `active_.count(id)` and `active_.erase(id)`.
unfoldable pub count : ℕ → List ℕ → Bool
count id [] = false
count id (a ∷ as') = a == id || count id as'

unfoldable pub erase : ℕ → List ℕ → List ℕ
erase id [] = []
erase id (a ∷ as') = let rest = erase id as' in if a == id then rest else a ∷ rest

unfoldable pub add_timer : TimerWheel → ℕ → ℕ → Option ℕ → Bool → TimerWheel × ℕ
unfolding push
add_timer w now delay_ms cb repeat =
    let node : TimerNode = record {
      id = w.next_id;
      expire_ms = (now + delay_ms) % 2 ^ 64;
      interval_ms = if repeat then delay_ms else 0;
      repeat = repeat;
      callback = cb;
    } in
    (
      record w {
        timers = push node w.timers;
        active = w.next_id ∷ w.active;
        next_id = (w.next_id + 1) % 2 ^ 64;
      },
      w.next_id,
    )

unfoldable pub cancel : TimerWheel → ℕ → TimerWheel
unfolding erase
cancel w id = record w { active = erase id w.active }

-- What a callback asks of the wheel; a new timer comes with the clock that it reads.
pub data Command : Type 0 where
  cancels : ℕ → Command
  adds : ℕ → ℕ → Option ℕ → Bool → Command

unfoldable pub obey : TimerWheel → List Command → TimerWheel
unfolding cancel add_timer
obey w [] = w
obey w (cancels id ∷ cs) = obey (cancel w id) cs
obey w (adds now delay cb repeat ∷ cs) = obey (add_timer w now delay cb repeat).0 cs

-- The loop of `tick` ends with the ids of the timers that it fired, oldest first, those with an empty
-- callback among them, or it lacks fuel, which is no behaviour of the code.
pub data Outcome : Type 0 where
  ended : TimerWheel → List ℕ → Outcome
  out_of_fuel : Outcome

abbrev having_fired : ℕ → Outcome → Outcome
having_fired id (ended w fired) = ended w (id ∷ fired)
having_fired id out_of_fuel = out_of_fuel

module _ (body : ℕ → List Command) where
  unfoldable pub fire : TimerWheel → Option ℕ → TimerWheel
  unfolding obey
  fire w none = w
  fire w (some name) = obey w (body name)

  -- After the callback: a repeating timer that is still active goes back, any other is over.
  unfoldable pub rearm : ℕ → TimerWheel → TimerNode → TimerWheel
  unfolding push count erase
  rearm now w node =
      if node.repeat && count node.id w.active
      then record w {
        timers = push (record node { expire_ms = (now + node.interval_ms) % 2 ^ 64 }) w.timers;
      }
      else record w { active = erase node.id w.active }

  -- One round on the popped node; `next` is the rest of the loop.
  abbrev pub expire : (TimerWheel → Outcome) → ℕ → TimerWheel → TimerNode → Outcome
  expire next now w node =
      if count node.id w.active
      then having_fired node.id (next (rearm now (fire w node.callback) node))
      else next w

  abbrev pub visit : (TimerWheel → Outcome) → ℕ → TimerWheel → List TimerNode → Outcome
  visit next now w [] = ended w []
  visit next now w (node ∷ rest) =
      if leb node.expire_ms now
      then expire next now (record w { timers = rest }) node
      else ended w []

  unfoldable pub tick_loop : ℕ → ℕ → TimerWheel → Outcome
  tick_loop zero now w = out_of_fuel
  tick_loop (suc fuel) now w = visit (tick_loop fuel now) now w w.timers

  unfoldable pub tick : ℕ → ℕ → TimerWheel → Outcome
  tick fuel now w = tick_loop fuel now (record w { last_tick_ms = now })

pub next_timeout_ms : TimerWheel → ℕ → ℕ
next_timeout_ms w now = elim w.timers [
  | [] ↦ 1000
  | top ∷ _ ↦ if leb top.expire_ms now then 0 else min (top.expire_ms - now) 1000
]
