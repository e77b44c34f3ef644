-- ===== src/SpiTask/Resume.antt =====
-- What `cpx_spi_task` of nanocockpit/lib/cpx/cpx_spi.c does when it is resumed after an event.
use aideck_gap8_examples.Base.{
  ℕ, ◌≡◌, ◌≢◌, refl, sym, ap, ◌∙◌, inl, inr, true, List, [], ◌∷◌, if◌then◌else◌, Outcome, ok, arith,
}
use aideck_gap8_examples.Spi.{null}
use aideck_gap8_examples.EventGroup
use aideck_gap8_examples.EventGroup.{
  Group, Mask, WaitMode, any, all, any_of, all_of, none_set, either, without, both, set, get, clear,
  wait,
}
use aideck_gap8_examples.SpiTask.{
  Fault, Task, Point, start, wait_transmit, wait_receive, wait_nina, header, head, tail, event_send,
  event_receive, event_nina_rtt, events_all, await_transmit, await_receive, await_nina,
  begin_transfer, proceed, resume,
}
use aideck_gap8_examples.SpiTask.Bits.{any_of-both, any_of-all_of}
use aideck_gap8_examples.SpiTask.Suspended.{Idle, Suspended}
use aideck_gap8_examples.SpiTask.Inv.{AreServed, Matches, At}
use aideck_gap8_examples.SpiTask.Steps.{Leads, send_tasks, receive_tasks}
use aideck_gap8_examples.SpiTask.Suspend.{suspend-Leads, transmit-Leads}

-- The task with its one resumption taken.
abbrev popped : Task → Task
popped t = record t { events = record t.events { pushed = [] } }

popped-Matches : (t : Task) → Matches t → Matches (popped t)
popped-Matches t m = record { send_matches = m.send_matches; receive_matches = m.receive_matches }

module _ (ctx : ℕ) where
  -- A resumption that was pushed: the condition holds.
  ready :
      (g : Group) (m : Mask) (mode : WaitMode)
      → Suspended ctx g m mode
      → g.pushed ≢ []
      → (g.wait_ctx ≡ null) × (g.pushed ≡ ctx ∷ []) × (EventGroup.test g.mask m mode ≡ true)
  ready g m mode s ne = elim s.phase [ inl (w, p) ↦ absurd (ne p) | inr h ↦ h ]

  resume-proceed : (t : Task) → t.events.pushed ≡ ctx ∷ [] → resume ctx t ≡ proceed ctx (popped t)
  unfolding resume
  resume-proceed t e = rw e

  Leads-eq :
      (t : Task) (r r' : Outcome Fault Task) (s q : List ℕ)
      → r ≡ r'
      → Leads ctx t r' s q
      → Leads ctx t r s q
  Leads-eq t r r' s q e (u, f, v, a, b) = (u, e ∙ f, v, a, b)

  proceed-start : (t : Task) → t.point ≡ start → proceed ctx t ≡ await_transmit ctx t
  unfolding proceed
  proceed-start t e = rw e

  proceed-wait_transmit : (t : Task) → t.point ≡ wait_transmit → proceed ctx t ≡ await_receive ctx t
  unfolding proceed
  proceed-wait_transmit t e = rw e

  proceed-wait_receive : (t : Task) → t.point ≡ wait_receive → proceed ctx t ≡ await_nina ctx t
  unfolding proceed
  proceed-wait_receive t e = rw e

  proceed-wait_nina : (t : Task) → t.point ≡ wait_nina → proceed ctx t ≡ ok (begin_transfer t)
  unfolding proceed
  proceed-wait_nina t e = rw e

  receive-waits :
      (t : Task)
      → Idle t.events
      → Matches t
      → AreServed t.calls
      → Leads ctx t (await_receive ctx t) (send_tasks t) (receive_tasks t)
  unfolding await_receive
  receive-waits t i m served =
      suspend-Leads ctx t wait_receive event_receive all i m served (λ g k same. k)

  nina-waits :
      (t : Task)
      → Idle t.events
      → Matches t
      → AreServed t.calls
      → EventGroup.test t.events.mask event_receive all ≡ true
      → Leads ctx t (await_nina ctx t) (send_tasks t) (receive_tasks t)
  unfolding await_nina EventGroup.test none_set
  nina-waits t i m served e =
      let u : Task = record t {
        gap8_rtt = if any_of (get t.events event_send) event_send then true else t.gap8_rtt;
      } in
      suspend-Leads ctx u wait_nina event_nina_rtt all i
        (record { send_matches = m.send_matches; receive_matches = m.receive_matches }) served
        (λ g k same. (
          k,
          ap (λ b. any_of b event_receive) same ∙ any_of-all_of t.events.mask event_receive e refl,
        ))

  fetched :
      (t : Task)
      → any_of (get t.events events_all) event_receive ≡ any_of t.events.mask event_receive
  unfolding get all_of none_set
  fetched t = any_of-both t.events.mask events_all event_receive refl

  begin-Leads :
      (t : Task)
      → Idle t.events
      → Matches t
      → AreServed t.calls
      → any_of t.events.mask event_receive ≡ true
      → Leads ctx t (ok (begin_transfer t)) (send_tasks t) (receive_tasks t)
  unfolding begin_transfer
  begin-Leads t i m served e =
      let receiving : (if any_of (get t.events events_all) event_receive
            then t.receive_req
            else null)
          ≡ t.receive_req =
        rw (fetched t, e) in
      let present : t.receive_req ≢ null = (λ z. ground (arith, m.receive_matches, e)) in
      (
        begin_transfer t,
        refl,
        record {
          matches = record { send_matches = m.send_matches; receive_matches = m.receive_matches };
          served = (λ z. present (sym receiving ∙ z), served);
          place = record {
            idle = i;
            receiving = receiving;
            is_set = present;
            sending = ground arith;
          };
        },
        refl,
        refl,
      )

  -- What the resumption of the coroutine leads to, where it is suspended.
  pub resumed_from :
      (p : Point) (t : Task)
      → t.point ≡ p
      → Matches t
      → AreServed t.calls
      → At ctx p t
      → t.events.pushed ≢ []
      → Leads ctx t (resume ctx t) (send_tasks t) (receive_tasks t)
  resumed_from start t e m served (w, p) ne =
      Leads-eq t (resume ctx t) (await_transmit ctx (popped t)) (send_tasks t) (receive_tasks t)
        (resume-proceed t p ∙ proceed-start (popped t) e)
        (transmit-Leads ctx (popped t) (record { free = w; nothing = refl }) (popped-Matches t m)
          served)
  resumed_from wait_transmit t e m served k ne =
      let (w, p, c) = ready t.events (true ∷ true ∷ []) any k ne in
      Leads-eq t (resume ctx t) (await_receive ctx (popped t)) (send_tasks t) (receive_tasks t)
        (resume-proceed t p ∙ proceed-wait_transmit (popped t) e)
        (receive-waits (popped t) (record { free = w; nothing = refl }) (popped-Matches t m) served)
  resumed_from wait_receive t e m served k ne =
      let (w, p, c) = ready t.events event_receive all k ne in
      Leads-eq t (resume ctx t) (await_nina ctx (popped t)) (send_tasks t) (receive_tasks t)
        (resume-proceed t p ∙ proceed-wait_receive (popped t) e)
        (nina-waits (popped t) (record { free = w; nothing = refl }) (popped-Matches t m) served c)
  resumed_from wait_nina t e m served (k, h) ne =
      let (w, p, c) = ready t.events event_nina_rtt all k ne in
      Leads-eq t (resume ctx t) (ok (begin_transfer (popped t))) (send_tasks t) (receive_tasks t)
        (resume-proceed t p ∙ proceed-wait_nina (popped t) e)
        (begin-Leads (popped t) (record { free = w; nothing = refl }) (popped-Matches t m) served h)
  resumed_from header t e m served k ne = absurd (ne k.idle.nothing)
  resumed_from head t e m served k ne = absurd (ne k.idle.nothing)
  resumed_from tail t e m served k ne = absurd (ne k.idle.nothing)
