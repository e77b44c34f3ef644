-- ===== src/SpiTask/Notified.antt =====
-- Which transfers of `cpx_spi_task` of nanocockpit/lib/cpx/cpx_spi.c have had their clients notified.
use aideck_gap8_examples.Base.{
  ℕ, ◌+◌, ◌≡◌, refl, ap, ◌∙◌, List, [], ◌∷◌, ◌!=◌, if◌then◌else◌, length, Outcome, Outcome-cases,
  Bool-cases, inl, inr, subst, ok, exit, ◌>>=◌, arith,
}
use aideck_gap8_examples.Spi.{mtu, null}
use aideck_gap8_examples.EventGroup
use aideck_gap8_examples.SpiTask.{
  Point, start, wait_transmit, wait_receive, wait_nina, header, head, tail, Call, header_of,
  head_of, tail_of, Fault, Task, Event, nina_edge, resumed, transfer_done, sends, receives,
  send_async, receive_async, nina_rtt_callback, suspend, from_group, await_transmit, await_receive,
  await_nina, begin_transfer, transfer_head, transfer_tail, complete_send, complete_receive,
  proceed, transferred, resume, step, run,
}

-- The transfers of a tail, which end a packet, that were started for a send and for a receive.
unfoldable pub sends_transferred : List Call → ℕ
sends_transferred [] = 0
sends_transferred (header_of s r ∷ calls) = sends_transferred calls
sends_transferred (head_of s r ∷ calls) = sends_transferred calls
sends_transferred (tail_of s r ∷ calls) =
    if s != null then 1 + sends_transferred calls else sends_transferred calls

unfoldable pub receives_transferred : List Call → ℕ
receives_transferred [] = 0
receives_transferred (header_of s r ∷ calls) = receives_transferred calls
receives_transferred (head_of s r ∷ calls) = receives_transferred calls
receives_transferred (tail_of s r ∷ calls) =
    if r != null then 1 + receives_transferred calls else receives_transferred calls

-- What of a request is still under way at a point.
unfoldable pub under_way : Point → ℕ → ℕ
under_way start req = 0
under_way wait_transmit req = 0
under_way wait_receive req = 0
under_way wait_nina req = 0
under_way header req = 0
under_way head req = 0
under_way tail req = if req != null then 1 else 0

-- Each transfer of a tail that has ended has had the tasks of its requests pushed.
pub record Notified (t : Task) : Type 0 where
  pub sends_notified :
      length t.sends_pushed + under_way t.point t.now_send ≡ sends_transferred t.calls
  pub receives_notified :
      length t.receives_pushed + under_way t.point t.now_receive ≡ receives_transferred t.calls

-- The result of a step, if there is one.
abbrev pub Yields : Outcome Fault Task → Type 0
Yields (ok u) = Notified u
Yields (exit f) = Unit

-- A wait at a point where nothing is under way.
suspend-Yields :
    (ctx : ℕ) (t : Task) (p : Point) (m : EventGroup.Mask) (mode : EventGroup.WaitMode)
    → ((req : ℕ) → under_way p req ≡ 0)
    → length t.sends_pushed ≡ sends_transferred t.calls
    → length t.receives_pushed ≡ receives_transferred t.calls
    → Yields (suspend ctx t p m mode)
unfolding suspend
suspend-Yields ctx t p m mode idle s r = go (EventGroup.wait t.events ctx m mode)
  where
    go :
        (o : Outcome EventGroup.Fault EventGroup.Group)
        → Yields (from_group o >>= λ g. ok (record t { events = g; point = p }))
    go (ok g) = record {
      sends_notified = omega (arith, s, idle t.now_send);
      receives_notified = omega (arith, r, idle t.now_receive);
    }
    go (exit f) = tt

-- At a point where nothing is under way, the counts are the same.
settled :
    (t : Task) (p : Point)
    → t.point ≡ p
    → ((req : ℕ) → under_way p req ≡ 0)
    → Notified t
    → (length t.sends_pushed ≡ sends_transferred t.calls)
      × (length t.receives_pushed ≡ receives_transferred t.calls)
settled t p e idle n =
    let a = ap (λ q. under_way q t.now_send) e ∙ idle t.now_send in
    let b = ap (λ q. under_way q t.now_receive) e ∙ idle t.now_receive in
    (omega (arith, a, n.sends_notified), omega (arith, b, n.receives_notified))

begin-Notified : (t : Task) → t.point ≡ wait_nina → Notified t → Notified (begin_transfer t)
unfolding begin_transfer under_way sends_transferred receives_transferred
begin-Notified t e n =
    let (a, b) = settled t wait_nina e (λ _. refl) n in
    record { sends_notified = omega (arith, a); receives_notified = omega (arith, b) }

proceed-Yields :
    (ctx : ℕ) (t : Task) (p : Point) → t.point ≡ p → Notified t → Yields (proceed ctx t)
unfolding proceed await_transmit await_receive await_nina under_way
proceed-Yields ctx t start e n =
    let (a, b) = settled t start e (λ _. refl) n in
    rw (proceed, e) (suspend-Yields ctx t wait_transmit _ _ (λ _. refl) a b)
proceed-Yields ctx t wait_transmit e n =
    let (a, b) = settled t wait_transmit e (λ _. refl) n in
    rw (proceed, e) (suspend-Yields ctx t wait_receive _ _ (λ _. refl) a b)
proceed-Yields ctx t wait_receive e n =
    let (a, b) = settled t wait_receive e (λ _. refl) n in
    rw (proceed, e) (suspend-Yields ctx _ wait_nina _ _ (λ _. refl) a b)
proceed-Yields ctx t wait_nina e n = rw (proceed, e) (begin-Notified t e n)
proceed-Yields ctx t header e n = rw (proceed, e) tt
proceed-Yields ctx t head e n = rw (proceed, e) tt
proceed-Yields ctx t tail e n = rw (proceed, e) tt

head-Notified : (t : Task) → t.point ≡ header → Notified t → Notified (transfer_head t)
unfolding transfer_head under_way sends_transferred receives_transferred
head-Notified t e n =
    let (a, b) = settled t header e (λ _. refl) n in
    record { sends_notified = omega (arith, a); receives_notified = omega (arith, b) }

tail-Notified : (t : Task) → t.point ≡ head → Notified t → Notified (transfer_tail t)
unfolding transfer_tail under_way sends_transferred receives_transferred
tail-Notified t e n =
    let (a, b) = settled t head e (λ _. refl) n in
    record { sends_notified = ground (arith, a); receives_notified = ground (arith, b) }

-- The tasks that the two completions push.
completions :
    (t : Task)
    → let u = complete_receive (complete_send t) in
      (length u.sends_pushed ≡ length t.sends_pushed + under_way tail t.now_send)
      × (length u.receives_pushed ≡ length t.receives_pushed + under_way tail t.now_receive)
      × (u.calls ≡ t.calls)
unfolding complete_receive complete_send under_way
completions t = (ground arith, ground arith, ground arith)

done-Yields :
    (ctx : ℕ) (t : Task)
    → t.point ≡ tail
    → Notified t
    → Yields (await_transmit ctx (complete_receive (complete_send t)))
unfolding await_transmit under_way
done-Yields ctx t e n =
    let (s, r, c) = completions t in
    let a = ap (λ q. under_way q t.now_send) e in
    let b = ap (λ q. under_way q t.now_receive) e in
    suspend-Yields ctx (complete_receive (complete_send t)) wait_transmit _ _ (λ _. refl)
      (omega (arith, s, a, n.sends_notified, ap sends_transferred c))
      (omega (arith, r, b, n.receives_notified, ap receives_transferred c))

transferred-Yields :
    (ctx : ℕ) (t : Task) (p : Point) → t.point ≡ p → Notified t → Yields (transferred ctx t)
unfolding transferred
transferred-Yields ctx t start e n = rw (transferred, e) tt
transferred-Yields ctx t wait_transmit e n = rw (transferred, e) tt
transferred-Yields ctx t wait_receive e n = rw (transferred, e) tt
transferred-Yields ctx t wait_nina e n = rw (transferred, e) tt
transferred-Yields ctx t header e n = rw (transferred, e) (head-Notified t e n)
transferred-Yields ctx t head e n = rw (transferred, e) (tail-Notified t e n)
transferred-Yields ctx t tail e n = rw (transferred, e) (done-Yields ctx t e n)

resume-Yields :
    (ctx : ℕ) (t : Task) (cs : List ℕ) → t.events.pushed ≡ cs → Notified t → Yields (resume ctx t)
unfolding resume
resume-Yields ctx t [] e n = rw (resume, e) tt
resume-Yields ctx t (c ∷ more) e n =
    rw (resume, e)
      (proceed-Yields ctx (record t { events = record t.events { pushed = more } }) t.point refl
        (record { sends_notified = n.sends_notified; receives_notified = n.receives_notified }))

step-Yields : (ctx : ℕ) (t : Task) (e : Event) → Notified t → Yields (step ctx t e)
unfolding step nina_rtt_callback send_async receive_async
step-Yields ctx t nina_edge n = record {
  sends_notified = n.sends_notified;
  receives_notified = n.receives_notified;
}
step-Yields ctx t resumed n = resume-Yields ctx t t.events.pushed refl n
step-Yields ctx t transfer_done n = transferred-Yields ctx t t.point refl n
step-Yields ctx t (sends req done_task) n = elim (Bool-cases (t.send_req != null)) [
  | inl e ↦ rw e tt
  | inr e ↦
      rw e (record { sends_notified = n.sends_notified; receives_notified = n.receives_notified })
]
step-Yields ctx t (receives req size done_task) n = elim (Bool-cases (t.receive_req != null)) [
  | inl e ↦ rw e tt
  | inr e ↦ elim (Bool-cases (size != mtu)) [
    | inl f ↦ rw (e, f) tt
    | inr f ↦
        rw (e, f)
          (record { sends_notified = n.sends_notified; receives_notified = n.receives_notified })
  ]
]

-- The counts are kept by a run.
pub run-Yields : (ctx : ℕ) (t : Task) (events : List Event) → Notified t → Yields (run ctx t events)
unfolding run
run-Yields ctx t [] n = n
run-Yields ctx t (event ∷ more) n = elim (Outcome-cases (step ctx t event)) [
  | inl (u, r) ↦ rw r (run-Yields ctx u more (subst Yields r (step-Yields ctx t event n)))
  | inr (f, r) ↦ rw r tt
]
