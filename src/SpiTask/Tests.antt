-- ===== src/SpiTask/Tests.antt =====
-- A send and a receive through `cpx_spi_task` of nanocockpit/lib/cpx/cpx_spi.c, up to their
-- completion.
use aideck_gap8_examples.Base.{
  ℕ, ◌≡◌, refl, false, List, [], ◌∷◌, Outcome, ok, exit, take, drop, arith,
}
use aideck_gap8_examples.EventGroup
use aideck_gap8_examples.EventGroup.{any_of, all_of, none_set, either, both, without}
use aideck_gap8_examples.SpiTask.{
  Fault, Task, Event, nina_edge, resumed, sends, receives, init, step, run, send_async,
  receive_async, nina_rtt_callback, resume, proceed, transferred, suspend, await_transmit,
  await_receive, await_nina, begin_transfer, transfer_head, transfer_tail, complete_send,
  complete_receive, transfer_done,
}
use aideck_gap8_examples.SpiTask.Inv.{AreServed, Matches}
use aideck_gap8_examples.SpiTask.Steps.{send_tasks, receive_tasks}
use aideck_gap8_examples.SpiTask.Notified.{Notified}
use aideck_gap8_examples.SpiTask.Run.{Possible-ok, init-run}

abbrev events : List Event
events =
    resumed
    ∷ sends 80 96
    ∷ resumed
    ∷ receives 112 4088 128
    ∷ resumed
    ∷ nina_edge
    ∷ resumed
    ∷ transfer_done
    ∷ transfer_done
    ∷ transfer_done
    ∷ []

-- The state after some of them.
abbrev reached : Outcome Fault Task → Task
reached (ok t) = t
reached (exit f) = init 64 false

abbrev state : ℕ → Task
state n = reached (run 64 (init 64 false) (take n events))

busy : Path (List ℕ) (64 ∷ []) [] → ⊥
busy e = ground (arith, e)

init-run_example :
    (t : Task) × (run 64 (init 64 false) events ≡ ok t)
    × AreServed t.calls
    × Matches t
    × (send_tasks t ≡ 96 ∷ [])
    × (receive_tasks t ≡ 128 ∷ [])
    × Notified t
unfolding init EventGroup.init EventGroup.set EventGroup.update EventGroup.test EventGroup.wait
    EventGroup.wait_begin EventGroup.wait_end EventGroup.get EventGroup.clear any_of all_of none_set
    either both without run step send_async receive_async nina_rtt_callback resume proceed
    transferred suspend await_transmit await_receive await_nina begin_transfer transfer_head
    transfer_tail complete_send complete_receive
init-run_example = init-run 64 false events (omega arith) (
  busy,
  Possible-ok 64 (state 0) (state 1) resumed (drop 1 events) refl (
    (refl, omega arith),
    Possible-ok 64 (state 1) (state 2) (sends 80 96) (drop 2 events) refl (
      busy,
      Possible-ok 64 (state 2) (state 3) resumed (drop 3 events) refl (
        (refl, omega arith, refl),
        Possible-ok 64 (state 3) (state 4) (receives 112 4088 128) (drop 4 events) refl (
          busy,
          Possible-ok 64 (state 4) (state 5) resumed (drop 5 events) refl (
            tt,
            Possible-ok 64 (state 5) (state 6) nina_edge (drop 6 events) refl (
              busy,
              Possible-ok 64 (state 6) (state 7) resumed (drop 7 events) refl (
                tt,
                Possible-ok 64 (state 7) (state 8) transfer_done (drop 8 events) refl (
                  tt,
                  Possible-ok 64 (state 8) (state 9) transfer_done (drop 9 events) refl (
                    tt,
                    Possible-ok 64 (state 9) (state 10) transfer_done (drop 10 events) refl tt,
                  ),
                ),
              ),
            ),
          ),
        ),
      ),
    ),
  ),
)

-- At the end both tasks have been pushed, and no request is left.
both_completed :
    ((state 10).sends_pushed ≡ 96 ∷ [])
    × ((state 10).receives_pushed ≡ 128 ∷ [])
    × ((state 10).send_req ≡ 0)
    × ((state 10).receive_req ≡ 0)
unfolding init EventGroup.init EventGroup.set EventGroup.update EventGroup.test EventGroup.wait
    EventGroup.wait_begin EventGroup.wait_end EventGroup.get EventGroup.clear any_of all_of none_set
    either both without run step send_async receive_async nina_rtt_callback resume proceed
    transferred suspend await_transmit await_receive await_nina begin_transfer transfer_head
    transfer_tail complete_send complete_receive
both_completed = (refl, refl, refl, refl)
