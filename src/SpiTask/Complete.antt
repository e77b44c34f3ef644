-- ===== src/SpiTask/Complete.antt =====
-- What `cpx_spi_task` of nanocockpit/lib/cpx/cpx_spi.c does at the end of a transfer.
use aideck_gap8_examples.Base.{◌≡◌, ◌≢◌, refl, ◌∙◌, ◌∷◌, ℕ_discrete, arith}
use aideck_gap8_examples.Spi.{null}
use aideck_gap8_examples.EventGroup.{clear}
use aideck_gap8_examples.SpiTask.{Task, event_send, event_receive, complete_send, complete_receive}
use aideck_gap8_examples.SpiTask.Bits.{any_of-without_same, any_of-without_other}
use aideck_gap8_examples.SpiTask.Suspended.{Idle}
use aideck_gap8_examples.SpiTask.Inv.{Matches, Transferring}
use aideck_gap8_examples.SpiTask.Steps.{send_tasks, receive_tasks, apart}

-- A step of the coroutine that neither takes nor completes a request.
abbrev pub Same : Task → Task → Type 0
Same t u =
    Matches u
    × (u.calls ≡ t.calls)
    × (send_tasks u ≡ send_tasks t)
    × (receive_tasks u ≡ receive_tasks t)

-- Step 11 of the loop.
pub complete_send_lem :
    (t : Task)
    → Transferring t
    → Matches t
    → (u : Task) × (complete_send t ≡ u)
      × Idle u.events
      × (u.now_receive ≡ t.now_receive)
      × (u.receive_req ≡ t.receive_req)
      × Same t u
unfolding complete_send clear
complete_send_lem t k m = elim (ℕ_discrete t.now_send null) [
  | yes e ↦ (t, ground (arith, e), k.idle, refl, refl, (m, refl, refl, refl))
  | no ne ↦
      let set_send : t.send_req ≢ null = (let s = k.sending in ground (arith, ne, s)) in
      (
        record t {
          send_req = null;
          sends_pushed = t.send_done ∷ t.sends_pushed;
          events = (clear t.events event_send).0;
        },
        ground (arith, ne),
        record { free = k.idle.free; nothing = k.idle.nothing },
        refl,
        refl,
        (
          record {
            send_matches = any_of-without_same t.events.mask event_send;
            receive_matches =
                any_of-without_other t.events.mask event_send event_receive apart.2
                ∙ m.receive_matches;
          },
          refl,
          ground (arith, set_send),
          refl,
        ),
      )
]

-- Step 12 of the loop.
pub complete_receive_lem :
    (t : Task)
    → Idle t.events
    → Matches t
    → t.now_receive ≢ null
    → t.receive_req ≢ null
    → (u : Task) × (complete_receive t ≡ u) × Idle u.events × Same t u
unfolding complete_receive clear
complete_receive_lem t i m ne set_receive = (
  record t {
    receive_req = null;
    receives_pushed = t.receive_done ∷ t.receives_pushed;
    events = (clear t.events event_receive).0;
  },
  ground (arith, ne),
  record { free = i.free; nothing = i.nothing },
  (
    record {
      send_matches =
          any_of-without_other t.events.mask event_receive event_send apart.3 ∙ m.send_matches;
      receive_matches = any_of-without_same t.events.mask event_receive;
    },
    refl,
    refl,
    ground (arith, set_receive),
  ),
)
