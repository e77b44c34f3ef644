-- ===== src/Cpx/SendTask.antt =====
-- The coroutine `cpx_send_task` of nanocockpit/lib/cpx/cpx.c, cut at its waits, with the contexts that
-- call `cpx_send_async`. What is resumed runs in the order in which it was resumed. The field `done`
-- of `send_done` is set by PMSIS, after the task was pushed: that and the call of
-- `co_event_callback` are separate steps here, and that no sender runs between them is a hypothesis
-- of the theorems.
pub mod Inv
pub mod Run
pub mod Finish
use aideck_gap8_examples.Base.{
  ℕ, ◌≡◌, Bool, true, false, Option, none, some, List, [], ◌∷◌, ◌++◌, ◌==◌, if◌then◌else◌,
}

-- Where a context is: not sending, started, waiting for its turn, or for its packet.
pub data Point : Type 0 where
  absent started turn on_air : Point

-- `send_done`: whether it is done, whether its task is pushed and was not called yet, and those that
-- wait on it. Then those that are resumed, and the packet that `cpx_spi_send_async` has, with all that
-- it was given.
pub record Sends : Type 0 where
  pub done : Bool
  pub pushed : Bool
  pub waiting : List ℕ
  pub resumed : List ℕ
  pub point : ℕ → Point
  pub in_flight : Option ℕ
  pub sent : List ℕ

-- After `cpx_start`, which pushes `send_done`.
abbrev pub initial : Sends
initial = record {
  done = false;
  pushed = true;
  waiting = [];
  resumed = [];
  point = λ c. absent;
  in_flight = none;
  sent = [];
}

abbrev pub move : ℕ → Point → (ℕ → Point) → ℕ → Point
move ctx p point c = if c == ctx then p else point c

-- `cpx_send_async`
unfoldable pub send_async : ℕ → Sends → Sends
send_async ctx s = record s { point = move ctx started s.point; resumed = s.resumed ++ ctx ∷ [] }

-- The test of the loop, and what follows up to the next wait. `co_event_init` empties the list of
-- those that wait.
unfoldable pub try_send : ℕ → Sends → Sends
try_send ctx s =
    if s.done
    then record s {
      done = false;
      waiting = ctx ∷ [];
      point = move ctx on_air s.point;
      in_flight = some ctx;
      sent = s.sent ++ ctx ∷ [];
    }
    else record s { waiting = s.waiting ++ ctx ∷ []; point = move ctx turn s.point }

-- `cpx_send_task` from where it is.
unfoldable pub resume : ℕ → Sends → Sends
unfolding try_send
resume ctx s = elim (s.point ctx) [
  | absent ↦ s
  | started ↦ try_send ctx s
  | turn ↦ try_send ctx s
  | on_air ↦ record s { point = move ctx absent s.point }
]

-- The scheduler runs what was resumed first.
unfoldable pub run : Sends → Sends
unfolding resume
run s = elim s.resumed [ [] ↦ s | ctx ∷ rest ↦ resume ctx (record s { resumed = rest }) ]

-- The packet is sent, and `cpx_spi_task` pushes `send_done`.
unfoldable pub complete : Sends → Sends
complete s = elim s.in_flight [ none ↦ s | some ctx ↦ record s { in_flight = none; pushed = true } ]

-- PMSIS marks the task that was pushed as done.
unfoldable pub mark_done : Sends → Sends
mark_done s = if s.pushed then record s { done = true } else s

-- PMSIS calls `co_event_callback` for it.
unfoldable pub call_back : Sends → Sends
call_back s =
    if s.pushed
    then record s { pushed = false; resumed = s.resumed ++ s.waiting; waiting = [] }
    else s

-- What happens, in some order.
pub data Event : Type 0 where
  sends : ℕ → Event
  runs completes marks calls_back : Event

unfoldable pub step : Sends → Event → Sends
step s (sends ctx) = send_async ctx s
step s runs = run s
step s completes = complete s
step s marks = mark_done s
step s calls_back = call_back s

unfoldable pub steps : Sends → List Event → Sends
steps s [] = s
steps s (e ∷ more) = steps (step s e) more
