-- ===== src/SpiTask/Suspend.antt =====
-- The wait for events at the top of the loop of `cpx_spi_task` in nanocockpit/lib/cpx/cpx_spi.c,
-- and waits for events in it.
use aideck_gap8_examples.Base.{ℕ, ◌≡◌, refl, ap, ◌∙◌, true, [], ◌∷◌}
use aideck_gap8_examples.EventGroup.{Group, Mask, WaitMode, any, any_of}
use aideck_gap8_examples.SpiTask.{
  Task, Point, wait_transmit, event_send, event_receive, suspend, await_transmit,
}
use aideck_gap8_examples.SpiTask.Suspended.{Idle, Suspended, wait-Suspended}
use aideck_gap8_examples.SpiTask.Inv.{AreServed, Matches, At}
use aideck_gap8_examples.SpiTask.Steps.{Leads, send_tasks, receive_tasks}

module _ (ctx : ℕ) where
  -- A wait for events, from a task on whose events nobody waits.
  pub suspend-Leads :
      (t : Task) (p : Point) (m : Mask) (mode : WaitMode)
      → Idle t.events
      → Matches t
      → AreServed t.calls
      → ((g : Group)
          → Suspended ctx g m mode
          → g.mask ≡ t.events.mask
          → At ctx p (record t { events = g; point = p }))
      → Leads ctx t (suspend ctx t p m mode) (send_tasks t) (receive_tasks t)
  unfolding suspend
  suspend-Leads t p m mode i k served place =
      let (g, w, same, s) = wait-Suspended ctx t.events m mode i in
      (
        record t { events = g; point = p },
        rw w,
        record {
          matches = record {
            send_matches = ap (λ b. any_of b event_send) same ∙ k.send_matches;
            receive_matches = ap (λ b. any_of b event_receive) same ∙ k.receive_matches;
          };
          served = served;
          place = place g s same;
        },
        refl,
        refl,
      )

  pub transmit-Leads :
      (t : Task)
      → Idle t.events
      → Matches t
      → AreServed t.calls
      → Leads ctx t (await_transmit ctx t) (send_tasks t) (receive_tasks t)
  unfolding await_transmit
  transmit-Leads t i m served =
      suspend-Leads t wait_transmit (true ∷ true ∷ []) any i m served (λ g k same. k)
