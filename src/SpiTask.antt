-- ===== src/SpiTask.antt =====
-- The coroutine `cpx_spi_task` of nanocockpit/lib/cpx/cpx_spi.c with the functions that feed it:
-- its resume points, its events and the requests of its clients. Requests, done tasks and the
-- coroutine's context are addresses, and 0 is NULL.
pub mod Bits
pub mod Suspended
pub mod Inv
pub mod Steps
pub mod Complete
pub mod Suspend
pub mod Resume
pub mod Transfer
pub mod Notified
pub mod Run
mod Tests
use aideck_gap8_examples.Base.{
  ℕ, Bool, true, false, List, [], ◌∷◌, ◌==◌, ◌!=◌, if◌then◌else◌, Outcome, ok, exit, ◌>>=◌,
}
use aideck_gap8_examples.Spi
use aideck_gap8_examples.Spi.{mtu, null, send_in_progress, receive_in_progress, wrong_buffer_size}
use aideck_gap8_examples.EventGroup
use aideck_gap8_examples.EventGroup.{Mask, Group, WaitMode, any, all, any_of, both}

-- `cpx_spi_events_e`
abbrev pub event_nina_rtt : Mask
event_nina_rtt = true ∷ []

abbrev pub event_send : Mask
event_send = false ∷ true ∷ []

abbrev pub event_receive : Mask
event_receive = false ∷ false ∷ true ∷ []

abbrev pub events_all : Mask
events_all = true ∷ true ∷ true ∷ []

-- Where the coroutine is suspended: before its first statement, at the three waits for events, or
-- until a transfer is done.
pub data Point : Type 0 where
  start wait_transmit wait_receive wait_nina header head tail : Point

-- A transfer that was started, with the requests it is for.
pub data Call : Type 0 where
  header_of head_of tail_of : ℕ → ℕ → Call

pub data Fault : Type 0 where
  spi : Spi.Fault → Fault
  group : EventGroup.Fault → Fault
  not_pending : Fault

abbrev pub from_group {ℓ} : {A : Type ℓ} → Outcome EventGroup.Fault A → Outcome Fault A
from_group (ok a) = ok a
from_group (exit f) = exit (group f)

-- `cpx_spi_t` with the static variables of the task: `now_send` and `now_receive` are its
-- `send_req` and `receive_req`. The tasks that `pi_task_push` was given are listed latest first,
-- those of senders and of receivers apart, and the transfers too.
pub record Task : Type 0 where
  pub events : Group
  pub send_req : ℕ
  pub send_done : ℕ
  pub receive_req : ℕ
  pub receive_done : ℕ
  pub now_send : ℕ
  pub now_receive : ℕ
  pub gap8_rtt : Bool
  pub point : Point
  pub sends_pushed : List ℕ
  pub receives_pushed : List ℕ
  pub calls : List Call

-- `cpx_spi_init`, with the level of the pin of NINA, and `cpx_spi_start`, which pushes `ctx`.
unfoldable pub init : ℕ → Bool → Task
init ctx nina_rtt = record {
  events =
      if nina_rtt
      then EventGroup.set (EventGroup.init (ctx ∷ [])) event_nina_rtt
      else EventGroup.init (ctx ∷ []);
  send_req = null;
  send_done = null;
  receive_req = null;
  receive_done = null;
  now_send = null;
  now_receive = null;
  gap8_rtt = false;
  point = start;
  sends_pushed = [];
  receives_pushed = [];
  calls = [];
}

-- `cpx_spi_send_async`
unfoldable pub send_async : Task → ℕ → ℕ → Outcome Fault Task
send_async t req done_task =
    if t.send_req != null
    then exit (spi send_in_progress)
    else ok (record t {
      send_req = req;
      send_done = done_task;
      events = EventGroup.set t.events event_send;
    })

-- `cpx_spi_receive_async`; `buffer_size` is the field of the request.
unfoldable pub receive_async : Task → ℕ → ℕ → ℕ → Outcome Fault Task
receive_async t req buffer_size done_task =
    if t.receive_req != null
    then exit (spi receive_in_progress)
    else if buffer_size != mtu
    then exit (spi wrong_buffer_size)
    else ok (record t {
      receive_req = req;
      receive_done = done_task;
      events = EventGroup.set t.events event_receive;
    })

-- `nina_rtt_callback`
unfoldable pub nina_rtt_callback : Task → Task
nina_rtt_callback t = record t { events = EventGroup.set t.events event_nina_rtt }

-- `CO_WAIT_GROUP`, up to the suspension.
unfoldable pub suspend : ℕ → Task → Point → Mask → WaitMode → Outcome Fault Task
suspend ctx t point wait_mask mode = do
  events ← from_group (EventGroup.wait t.events ctx wait_mask mode)
  ok (record t { events = events; point = point })

-- 1) Wait until someone wants to transmit data.
unfoldable pub await_transmit : ℕ → Task → Outcome Fault Task
await_transmit ctx t = suspend ctx t wait_transmit (true ∷ true ∷ []) any

-- 2) Wait until we are also ready to receive.
unfoldable pub await_receive : ℕ → Task → Outcome Fault Task
await_receive ctx t = suspend ctx t wait_receive event_receive all

-- 3), 4) Notify NINA if there is something to send, and wait until it is ready.
unfoldable pub await_nina : ℕ → Task → Outcome Fault Task
await_nina ctx t =
    let gap8_rtt =
      (if any_of (EventGroup.get t.events event_send) event_send then true else t.gap8_rtt) in
    suspend ctx (record t { gap8_rtt = gap8_rtt }) wait_nina event_nina_rtt all

-- 5), 6) Fetch the requests, and transfer the headers.
unfoldable pub begin_transfer : Task → Task
begin_transfer t =
    let events = EventGroup.get t.events events_all in
    let send = (if any_of events event_send then t.send_req else null) in
    let receive = (if any_of events event_receive then t.receive_req else null) in
    record t {
      now_send = send;
      now_receive = receive;
      calls = header_of send receive ∷ t.calls;
      point = header;
    }

-- 7) to 9) Lower the pin, arm the event of NINA again, and transfer the payload's head.
unfoldable pub transfer_head : Task → Task
transfer_head t = record t {
  gap8_rtt = false;
  events = (EventGroup.clear t.events event_nina_rtt).0;
  calls = head_of t.now_send t.now_receive ∷ t.calls;
  point = head;
}

-- 10) Transfer the payload's tail.
unfoldable pub transfer_tail : Task → Task
transfer_tail t = record t { calls = tail_of t.now_send t.now_receive ∷ t.calls; point = tail }

-- 11) The send was completed.
unfoldable pub complete_send : Task → Task
complete_send t =
    if t.now_send != null
    then record t {
      send_req = null;
      sends_pushed = t.send_done ∷ t.sends_pushed;
      events = (EventGroup.clear t.events event_send).0;
    }
    else t

-- 12) The receive was completed.
unfoldable pub complete_receive : Task → Task
complete_receive t =
    if t.now_receive != null
    then record t {
      receive_req = null;
      receives_pushed = t.receive_done ∷ t.receives_pushed;
      events = (EventGroup.clear t.events event_receive).0;
    }
    else t

-- What the coroutine does when its pushed resumption runs.
unfoldable pub proceed : ℕ → Task → Outcome Fault Task
proceed ctx t = elim t.point [
  | start ↦ await_transmit ctx t
  | wait_transmit ↦ await_receive ctx t
  | wait_receive ↦ await_nina ctx t
  | wait_nina ↦ ok (begin_transfer t)
  | header ↦ exit not_pending
  | head ↦ exit not_pending
  | tail ↦ exit not_pending
]

-- What it does when the transfer that it waits for is done.
unfoldable pub transferred : ℕ → Task → Outcome Fault Task
transferred ctx t = elim t.point [
  | start ↦ exit not_pending
  | wait_transmit ↦ exit not_pending
  | wait_receive ↦ exit not_pending
  | wait_nina ↦ exit not_pending
  | header ↦ ok (transfer_head t)
  | head ↦ ok (transfer_tail t)
  | tail ↦ await_transmit ctx (complete_receive (complete_send t))
]

-- The scheduler runs a resumption that was pushed.
unfoldable pub resume : ℕ → Task → Outcome Fault Task
resume ctx t = elim t.events.pushed [
  | [] ↦ exit not_pending
  | c ∷ more ↦ proceed ctx (record t { events = record t.events { pushed = more } })
]

-- What happens to the task, in some order.
pub data Event : Type 0 where
  nina_edge resumed transfer_done : Event
  sends : ℕ → ℕ → Event
  receives : ℕ → ℕ → ℕ → Event

unfoldable pub step : ℕ → Task → Event → Outcome Fault Task
step ctx t nina_edge = ok (nina_rtt_callback t)
step ctx t resumed = resume ctx t
step ctx t transfer_done = transferred ctx t
step ctx t (sends req done_task) = send_async t req done_task
step ctx t (receives req buffer_size done_task) = receive_async t req buffer_size done_task

unfoldable pub run : ℕ → Task → List Event → Outcome Fault Task
run ctx t [] = ok t
run ctx t (e ∷ more) = do t' ← step ctx t e; run ctx t' more
