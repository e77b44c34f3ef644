-- ===== src/SpiTask/Transfer.antt =====
-- What `cpx_spi_task` of nanocockpit/lib/cpx/cpx_spi.c does when a transfer is done.
use aideck_gap8_examples.Base.{ℕ, ◌≡◌, ◌≢◌, refl, sym, ap, subst, ◌∙◌, ok}
use aideck_gap8_examples.Spi.{null}
use aideck_gap8_examples.EventGroup.{clear}
use aideck_gap8_examples.SpiTask.{
  Task, Point, start, wait_transmit, wait_receive, wait_nina, header, head, tail, event_send,
  event_receive, event_nina_rtt, await_transmit, transfer_head, transfer_tail, complete_send,
  complete_receive, transferred,
}
use aideck_gap8_examples.SpiTask.Bits.{any_of-without_other}
use aideck_gap8_examples.SpiTask.Inv.{AreServed, Matches, Transferring, At, IsTransfer}
use aideck_gap8_examples.SpiTask.Steps.{Leads, send_tasks, receive_tasks, apart}
use aideck_gap8_examples.SpiTask.Complete.{complete_send_lem, complete_receive_lem}
use aideck_gap8_examples.SpiTask.Suspend.{transmit-Leads}

module _ (ctx : ℕ) where
  head-Leads :
      (t : Task)
      → Transferring t
      → Matches t
      → AreServed t.calls
      → Leads ctx t (ok (transfer_head t)) (send_tasks t) (receive_tasks t)
  unfolding transfer_head clear
  head-Leads t k m served = (
    transfer_head t,
    refl,
    record {
      matches = record {
        send_matches =
            any_of-without_other t.events.mask event_nina_rtt event_send apart.0 ∙ m.send_matches;
        receive_matches =
            any_of-without_other t.events.mask event_nina_rtt event_receive apart.1
            ∙ m.receive_matches;
      };
      served = (λ z. k.is_set (sym k.receiving ∙ z), served);
      place = record {
        idle = record { free = k.idle.free; nothing = k.idle.nothing };
        receiving = k.receiving;
        is_set = k.is_set;
        sending = k.sending;
      };
    },
    refl,
    refl,
  )

  tail-Leads :
      (t : Task)
      → Transferring t
      → Matches t
      → AreServed t.calls
      → Leads ctx t (ok (transfer_tail t)) (send_tasks t) (receive_tasks t)
  unfolding transfer_tail
  tail-Leads t k m served = (
    transfer_tail t,
    refl,
    record {
      matches = record { send_matches = m.send_matches; receive_matches = m.receive_matches };
      served = (λ z. k.is_set (sym k.receiving ∙ z), served);
      place = record {
        idle = k.idle;
        receiving = k.receiving;
        is_set = k.is_set;
        sending = k.sending;
      };
    },
    refl,
    refl,
  )

  done-Leads :
      (t : Task)
      → Transferring t
      → Matches t
      → AreServed t.calls
      → Leads ctx t
          (await_transmit ctx (complete_receive (complete_send t)))
          (send_tasks t)
          (receive_tasks t)
  done-Leads t k m served =
      let (a, ea, i, nr, rr, (ma, ca, sa, qa)) = complete_send_lem t k m in
      let ne : a.now_receive ≢ null = (λ z. k.is_set (sym k.receiving ∙ sym nr ∙ z)) in
      let (b, eb, j, (mb, cb, sb, qb)) =
        complete_receive_lem a i ma ne (λ z. k.is_set (sym rr ∙ z)) in
      let (u, r, v, s, q) = transmit-Leads ctx b j mb (subst AreServed (sym (cb ∙ ca)) served) in
      (u, ap (await_transmit ctx) (ap complete_receive ea ∙ eb) ∙ r, v, s ∙ sb ∙ sa, q ∙ qb ∙ qa)

  transferred-header : (t : Task) → t.point ≡ header → transferred ctx t ≡ ok (transfer_head t)
  unfolding transferred
  transferred-header t e = rw e

  transferred-head : (t : Task) → t.point ≡ head → transferred ctx t ≡ ok (transfer_tail t)
  unfolding transferred
  transferred-head t e = rw e

  transferred-tail :
      (t : Task)
      → t.point ≡ tail
      → transferred ctx t ≡ await_transmit ctx (complete_receive (complete_send t))
  unfolding transferred
  transferred-tail t e = rw e

  -- What the end of a transfer leads to, by the transfer.
  pub transferred_from :
      (p : Point) (t : Task)
      → t.point ≡ p
      → IsTransfer p
      → Matches t
      → AreServed t.calls
      → At ctx p t
      → Leads ctx t (transferred ctx t) (send_tasks t) (receive_tasks t)
  transferred_from start t e h m served k = elim h [ ]
  transferred_from wait_transmit t e h m served k = elim h [ ]
  transferred_from wait_receive t e h m served k = elim h [ ]
  transferred_from wait_nina t e h m served k = elim h [ ]
  transferred_from header t e h m served k =
      let (u, r, v, s, q) = head-Leads t k m served in (u, transferred-header t e ∙ r, v, s, q)
  transferred_from head t e h m served k =
      let (u, r, v, s, q) = tail-Leads t k m served in (u, transferred-head t e ∙ r, v, s, q)
  transferred_from tail t e h m served k =
      let (u, r, v, s, q) = done-Leads t k m served in (u, transferred-tail t e ∙ r, v, s, q)
