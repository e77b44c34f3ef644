-- ===== src/SpiTask/Run.antt =====
-- Runs of `cpx_spi_task` of nanocockpit/lib/cpx/cpx_spi.c, with the calls of its clients and the
-- edges of the pin of NINA at any moment between two steps.
use aideck_gap8_examples.Base.{
  ℕ, ◌≡◌, ◌≢◌, refl, sym, ap, subst, ◌∙◌, Bool, true, false, List, [], ◌∷◌, Outcome, ok, arith,
}
use aideck_gap8_examples.Spi.{mtu, null}
use aideck_gap8_examples.EventGroup
use aideck_gap8_examples.EventGroup.{any, all, any_of}
use aideck_gap8_examples.SpiTask.{
  Fault, Task, Event, nina_edge, resumed, transfer_done, sends, receives, init, step, run,
}
use aideck_gap8_examples.SpiTask.Inv.{AreServed, Matches, Inv, IsTransfer}
use aideck_gap8_examples.SpiTask.Steps.{
  Leads, send_tasks, receive_tasks, nina-Leads, send-Leads, receive-Leads,
}
use aideck_gap8_examples.SpiTask.Notified.{
  Notified, Yields, run-Yields, under_way, sends_transferred, receives_transferred,
}
use aideck_gap8_examples.SpiTask.Resume.{resumed_from}
use aideck_gap8_examples.SpiTask.Transfer.{transferred_from}

-- When an event can take place: a client has no request of the kind under way and brings one, with
-- a buffer of the right size; the coroutine is resumed when that was pushed; a transfer ends when
-- one is under way.
abbrev pub Enabled : Task → Event → Type 0
Enabled t nina_edge = Unit
Enabled t resumed = t.events.pushed ≢ []
Enabled t transfer_done = IsTransfer t.point
Enabled t (sends req done_task) = (t.send_req ≡ null) × (req ≢ null)
Enabled t (receives req size done_task) = (t.receive_req ≡ null) × (req ≢ null) × (size ≡ mtu)

-- The done tasks of senders and of receivers, with those of an event.
abbrev pub send_arrival : Event → List ℕ → List ℕ
send_arrival nina_edge before = before
send_arrival resumed before = before
send_arrival transfer_done before = before
send_arrival (sends req done_task) before = done_task ∷ before
send_arrival (receives req size done_task) before = before

abbrev pub receive_arrival : Event → List ℕ → List ℕ
receive_arrival nina_edge before = before
receive_arrival resumed before = before
receive_arrival transfer_done before = before
receive_arrival (sends req done_task) before = before
receive_arrival (receives req size done_task) before = done_task ∷ before

ok-injective : {t u : Task} → Path (Outcome Fault Task) (ok t) (ok u) → t ≡ u
ok-injective e = ground (arith, e)

module _ (ctx : ℕ) (set_ctx : ctx ≢ null) where
  -- One step, by the event.
  step_lem :
      (t : Task) (e : Event)
      → Inv ctx t
      → Enabled t e
      → Leads ctx t
          (step ctx t e)
          (send_arrival e (send_tasks t))
          (receive_arrival e (receive_tasks t))
  unfolding step
  step_lem t nina_edge v h = nina-Leads ctx set_ctx t v
  step_lem t resumed v h = resumed_from ctx t.point t refl v.matches v.served v.place h
  step_lem t transfer_done v h = transferred_from ctx t.point t refl h v.matches v.served v.place
  step_lem t (sends req done_task) v (free, ne) = send-Leads ctx set_ctx t req done_task v free ne
  step_lem t (receives req size done_task) v (free, ne, e) =
      subst
        (λ n.
          Leads ctx t (step ctx t (receives req n done_task)) (send_tasks t)
            (done_task ∷ receive_tasks t))
        (sym e) (receive-Leads ctx set_ctx t req done_task v free ne)

-- A sequence of events, each of which can take place in the state that the ones before it lead to.
abbrev pub Possible : ℕ → Task → List Event → Type 0
Possible ctx t [] = Unit
Possible ctx t (e ∷ more) =
    Enabled t e × ((t' : Task) → step ctx t e ≡ ok t' → Possible ctx t' more)

abbrev pub send_arrivals : List Event → List ℕ → List ℕ
send_arrivals [] before = before
send_arrivals (e ∷ more) before = send_arrivals more (send_arrival e before)

abbrev pub receive_arrivals : List Event → List ℕ → List ℕ
receive_arrivals [] before = before
receive_arrivals (e ∷ more) before = receive_arrivals more (receive_arrival e before)

run-step :
    (ctx : ℕ) (t t' u : Task) (e : Event) (more : List Event)
    → step ctx t e ≡ ok t'
    → run ctx t' more ≡ ok u
    → run ctx t (e ∷ more) ≡ ok u
unfolding run
run-step ctx t t' u e more h k = rw h k

run-nil : (ctx : ℕ) (t : Task) → run ctx t [] ≡ ok t
unfolding run
run-nil ctx t = refl

-- A step's result is one.
pub Possible-ok :
    (ctx : ℕ) (t u : Task) (e : Event) (more : List Event)
    → step ctx t e ≡ ok u
    → Possible ctx u more
    → (t' : Task) → step ctx t e ≡ ok t'
    → Possible ctx t' more
Possible-ok ctx t u e more h p t' k =
    let same : u ≡ t' = ok-injective (sym h ∙ k) in subst (λ w. Possible ctx w more) same p

run_lem :
    (ctx : ℕ)
    → ctx ≢ null
    → (t : Task) (events : List Event) → Inv ctx t
    → Possible ctx t events
    → Leads ctx t
        (run ctx t events)
        (send_arrivals events (send_tasks t))
        (receive_arrivals events (receive_tasks t))
run_lem ctx ne t [] v p = (t, run-nil ctx t, v, refl, refl)
run_lem ctx ne t (e ∷ more) v (h, later) =
    let (t', r, v', s, q) = step_lem ctx ne t e v h in
    let (u, r', v'', s', q') = run_lem ctx ne t' more v' (later t' r) in
    (
      u,
      run-step ctx t t' u e more r r',
      v'',
      s' ∙ ap (send_arrivals more) s,
      q' ∙ ap (receive_arrivals more) q,
    )

init-Inv : (ctx : ℕ) (nina_rtt : Bool) → Inv ctx (init ctx nina_rtt)
unfolding init EventGroup.init any_of EventGroup.set EventGroup.update EventGroup.either
init-Inv ctx true = record {
  matches = record { send_matches = refl; receive_matches = refl };
  served = tt;
  place = (refl, refl);
}
init-Inv ctx false = record {
  matches = record { send_matches = refl; receive_matches = refl };
  served = tt;
  place = (refl, refl);
}

init-tasks :
    (ctx : ℕ) (nina_rtt : Bool)
    → (send_tasks (init ctx nina_rtt) ≡ []) × (receive_tasks (init ctx nina_rtt) ≡ [])
unfolding init
init-tasks ctx nina_rtt = (refl, refl)

init-Notified : (ctx : ℕ) (nina_rtt : Bool) → Notified (init ctx nina_rtt)
unfolding init under_way sends_transferred receives_transferred
init-Notified ctx nina_rtt = record { sends_notified = refl; receives_notified = refl }

-- `cpx_spi_task` after `cpx_spi_init` and `cpx_spi_start`, under any sequence of events, each of
-- which can take place when it does: no assertion fails, in particular never that on multiple
-- waits; each transfer has a receive request; the events of the clients are set exactly while
-- there is a request; and each request that was accepted either is still there or had its task
-- pushed exactly once, in the order of the requests, for sends and for receives. Of each packet
-- whose last transfer, that of the tail, has ended, the tasks of its send, if it has one, and of its
-- receive have been pushed.
pub init-run :
    (ctx : ℕ) (nina_rtt : Bool) (events : List Event)
    → ctx ≢ null
    → Possible ctx (init ctx nina_rtt) events
    → (t : Task) × (run ctx (init ctx nina_rtt) events ≡ ok t)
      × AreServed t.calls
      × Matches t
      × (send_tasks t ≡ send_arrivals events [])
      × (receive_tasks t ≡ receive_arrivals events [])
      × Notified t
init-run ctx nina_rtt events ne p =
    let (t, r, v, s, q) = run_lem ctx ne (init ctx nina_rtt) events (init-Inv ctx nina_rtt) p in
    (
      t,
      r,
      v.served,
      v.matches,
      s ∙ ap (send_arrivals events) (init-tasks ctx nina_rtt).0,
      q ∙ ap (receive_arrivals events) (init-tasks ctx nina_rtt).1,
      subst Yields r (run-Yields ctx (init ctx nina_rtt) events (init-Notified ctx nina_rtt)),
    )
