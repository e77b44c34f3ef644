-- ===== src/CoEvent.antt =====
-- The events of nanocockpit/lib/coroutine.h, on which any number of coroutines wait. A context is
-- named by the address of its field `waiting`, which links it into the event's list.
pub mod Callback
mod Tests
use aideck_gap8_examples.Base.{
  ℕ, zero, suc, Bool, true, false, List, [], ◌∷◌, ◌++◌, ◌==◌, if◌then◌else◌, Outcome, ok, exit,
  ◌>>=◌,
}
use aideck_gap8_examples.Spi.{null}
use aideck_gap8_examples.LinkedList
use aideck_gap8_examples.LinkedList.{ListHead, Fault, out_of_fuel}

-- `co_event_t`; `done` is what `pi_task_is_done` says of its task, and `pushed` lists the contexts
-- whose resumption was pushed, in order.
pub record Event : Type 0 where
  pub done : Bool
  pub waiting : ListHead
  pub pushed : List ℕ

-- `co_event_init`, as far as the list goes; its task is then not done.
unfoldable pub init : Event → Event
init e = record e { done = false; waiting = LinkedList.head_init e.waiting }

-- `co_event_callback`
unfoldable pub callback : ℕ → Event → Outcome Fault Event
callback zero e = if e.waiting.first == null then ok e else exit out_of_fuel
callback (suc fuel) e =
    let popped = LinkedList.pop_front e.waiting in
    let rest =
      callback fuel (record e { waiting = popped.0; pushed = e.pushed ++ popped.1 ∷ [] }) in
    if popped.1 == null then ok (record e { waiting = popped.0 }) else rest

-- `co_event_wait`, without an interrupt between its two halves.
unfoldable pub wait : ℕ → Event → ℕ → Outcome Fault Event
wait fuel e ctx = do
  waiting ← LinkedList.append fuel e.waiting ctx
  if e.done
      then (do
        cleared ← LinkedList.clear (suc fuel) waiting
        ok (record e { waiting = cleared; pushed = e.pushed ++ ctx ∷ [] }))
      else ok (record e { waiting = waiting })
