-- ===== src/SpiTask/Steps.antt =====
-- Each step of `cpx_spi_task` of nanocockpit/lib/cpx/cpx_spi.c keeps its invariant.
use aideck_gap8_examples.Base.{
  ℕ, ◌≡◌, ◌≢◌, refl, sym, ap, ◌∙◌, inl, inr, true, false, List, ◌∷◌, ◌==◌, ◌!=◌, if◌then◌else◌,
  Outcome, ok, arith,
}
use aideck_gap8_examples.Spi.{mtu, null}
use aideck_gap8_examples.EventGroup.{Group, Mask, any_of, set}
use aideck_gap8_examples.SpiTask.{
  Fault, Task, event_send, event_receive, event_nina_rtt, nina_edge, sends, receives, send_async,
  receive_async, nina_rtt_callback, step,
}
use aideck_gap8_examples.SpiTask.Bits.{any_of-either_other, any_of-either_same}
use aideck_gap8_examples.SpiTask.Suspended.{set-mask}
use aideck_gap8_examples.SpiTask.Inv.{Inv, At-set}

-- The tasks of the clients whose requests were accepted: those that were pushed, and that of a
-- request that is there.
abbrev pub send_tasks : Task → List ℕ
send_tasks t = if t.send_req == null then t.sends_pushed else t.send_done ∷ t.sends_pushed

abbrev pub receive_tasks : Task → List ℕ
receive_tasks t =
    if t.receive_req == null then t.receives_pushed else t.receive_done ∷ t.receives_pushed

-- What a step that succeeds leads to.
abbrev pub Leads : ℕ → Task → Outcome Fault Task → List ℕ → List ℕ → Type 0
Leads ctx t r s q =
    (t' : Task) × (r ≡ ok t') × Inv ctx t' × (send_tasks t' ≡ s) × (receive_tasks t' ≡ q)

-- Distinct events are distinct bits.
pub apart :
    (any_of event_nina_rtt event_send ≡ false)
    × (any_of event_nina_rtt event_receive ≡ false)
    × (any_of event_send event_receive ≡ false)
    × (any_of event_receive event_send ≡ false)
unfolding any_of
apart = (refl, refl, refl, refl)

own : (any_of event_send event_send ≡ true) × (any_of event_receive event_receive ≡ true)
unfolding any_of
own = (refl, refl)

bit_after :
    (g : Group) (c w : Mask) → any_of c w ≡ false → any_of (set g c).mask w ≡ any_of g.mask w
bit_after g c w d = ap (λ m. any_of m w) (set-mask g c) ∙ any_of-either_other g.mask c w d

bit_set : (g : Group) (c : Mask) → any_of c c ≡ true → any_of (set g c).mask c ≡ true
bit_set g c d = ap (λ m. any_of m c) (set-mask g c) ∙ any_of-either_same g.mask c d

not_null : (req : ℕ) → req ≢ null → (req != null) ≡ true
not_null req ne = ground arith

module _ (ctx : ℕ) (set_ctx : ctx ≢ null) where
  pub nina-Leads :
      (t : Task) → Inv ctx t → Leads ctx t (step ctx t nina_edge) (send_tasks t) (receive_tasks t)
  unfolding step nina_rtt_callback
  nina-Leads t v = (
    record t { events = set t.events event_nina_rtt },
    refl,
    record {
      matches = record {
        send_matches =
            bit_after t.events event_nina_rtt event_send apart.0 ∙ v.matches.send_matches;
        receive_matches =
            bit_after t.events event_nina_rtt event_receive apart.1 ∙ v.matches.receive_matches;
      };
      served = v.served;
      place =
          At-set ctx t.point t (record t { events = set t.events event_nina_rtt }) event_nina_rtt
            set_ctx (inl apart.1) refl refl refl (inr refl) (inr refl) v.place;
    },
    refl,
    refl,
  )

  pub send-Leads :
      (t : Task) (req done_task : ℕ)
      → Inv ctx t
      → t.send_req ≡ null
      → req ≢ null
      → Leads ctx t (step ctx t (sends req done_task)) (done_task ∷ send_tasks t) (receive_tasks t)
  unfolding step send_async
  send-Leads t req done_task v free ne =
      let u : Task = record t {
        send_req = req;
        send_done = done_task;
        events = set t.events event_send;
      } in
      (
        u,
        ground (arith, free),
        record {
          matches = record {
            send_matches = bit_set t.events event_send own.0 ∙ sym (not_null req ne);
            receive_matches =
                bit_after t.events event_send event_receive apart.2 ∙ v.matches.receive_matches;
          };
          served = v.served;
          place =
              At-set ctx t.point t u event_send set_ctx (inl apart.2) refl refl refl (inr refl)
                (inl free) v.place;
        },
        ground (arith, free, ne),
        refl,
      )

  pub receive-Leads :
      (t : Task) (req done_task : ℕ)
      → Inv ctx t
      → t.receive_req ≡ null
      → req ≢ null
      → Leads ctx t
          (step ctx t (receives req mtu done_task))
          (send_tasks t)
          (done_task ∷ receive_tasks t)
  unfolding step receive_async
  receive-Leads t req done_task v free ne =
      let u : Task = record t {
        receive_req = req;
        receive_done = done_task;
        events = set t.events event_receive;
      } in
      (
        u,
        ground (arith, free),
        record {
          matches = record {
            send_matches =
                bit_after t.events event_receive event_send apart.3 ∙ v.matches.send_matches;
            receive_matches = bit_set t.events event_receive own.1 ∙ sym (not_null req ne);
          };
          served = v.served;
          place =
              At-set ctx t.point t u event_receive set_ctx (inr refl) refl refl refl (inl free)
                (inr refl) v.place;
        },
        refl,
        ground (arith, free, ne),
      )
