-- ===== src/SpiTask/Inv.antt =====
-- The invariant of `cpx_spi_task` of nanocockpit/lib/cpx/cpx_spi.c.
use aideck_gap8_examples.Base.{
  ℕ, ◌≡◌, ◌≢◌, refl, sym, ap, subst, ◌∙◌, ◌⊎◌, inl, inr, true, false, List, [], ◌∷◌, ◌!=◌, arith,
}
use aideck_gap8_examples.Spi.{null}
use aideck_gap8_examples.EventGroup.{Mask, any, all, any_of, either, set}
use aideck_gap8_examples.SpiTask.{
  Task, Point, start, wait_transmit, wait_receive, wait_nina, header, head, tail, Call, header_of,
  head_of, tail_of, event_send, event_receive, event_nina_rtt,
}
use aideck_gap8_examples.SpiTask.Bits.{any_of-either_other, any_of-either_same}
use aideck_gap8_examples.SpiTask.Suspended.{
  Idle, Suspended, set-mask, set-Idle, set-Suspended, set-waits,
}

-- Every transfer has a receive request.
abbrev pub AreServed : List Call → Type 0
AreServed [] = Unit
AreServed (header_of s r ∷ calls) = (r ≢ null) × AreServed calls
AreServed (head_of s r ∷ calls) = (r ≢ null) × AreServed calls
AreServed (tail_of s r ∷ calls) = (r ≢ null) × AreServed calls

-- The event of a request is set exactly while there is one.
pub record Matches (t : Task) : Type 0 where
  pub send_matches : any_of t.events.mask event_send ≡ (t.send_req != null)
  pub receive_matches : any_of t.events.mask event_receive ≡ (t.receive_req != null)

-- A transfer is under way, for the receive request that is there, and for the send request or none.
pub record Transferring (t : Task) : Type 0 where
  pub idle : Idle t.events
  pub receiving : t.now_receive ≡ t.receive_req
  pub is_set : t.receive_req ≢ null
  pub sending : (t.now_send ≡ null) ⊎ (t.now_send ≡ t.send_req)

Transferring-set :
    (t u : Task) (c : Mask)
    → u.events ≡ set t.events c
    → u.now_send ≡ t.now_send
    → u.now_receive ≡ t.now_receive
    → (t.receive_req ≡ null) ⊎ (u.receive_req ≡ t.receive_req)
    → (t.send_req ≡ null) ⊎ (u.send_req ≡ t.send_req)
    → Transferring t
    → Transferring u
Transferring-set t u c e ns nr r s k =
    let receiving = k.receiving in
    let is_set = k.is_set in
    let sending = k.sending in
    record {
      idle = subst Idle (sym e) (set-Idle t.events c k.idle);
      receiving = ground arith;
      is_set = ground arith;
      sending = ground arith;
    }

-- The points where a transfer is under way.
abbrev pub IsTransfer : Point → Type 0
IsTransfer start = ⊥
IsTransfer wait_transmit = ⊥
IsTransfer wait_receive = ⊥
IsTransfer wait_nina = ⊥
IsTransfer header = Unit
IsTransfer head = Unit
IsTransfer tail = Unit

module _ (ctx : ℕ) where
  -- What holds where the coroutine is suspended.
  abbrev pub At : Point → Task → Type 0
  At start t = (t.events.wait_ctx ≡ null) × (t.events.pushed ≡ ctx ∷ [])
  At wait_transmit t = Suspended ctx t.events (true ∷ true ∷ []) any
  At wait_receive t = Suspended ctx t.events event_receive all
  At wait_nina t =
      Suspended ctx t.events event_nina_rtt all × (any_of t.events.mask event_receive ≡ true)
  At header t = Transferring t
  At head t = Transferring t
  At tail t = Transferring t

  pub record Inv (t : Task) : Type 0 where
    pub matches : Matches t
    pub served : AreServed t.calls
    pub place : At t.point t

  set_receive :
      (m c : Mask)
      → (any_of c event_receive ≡ false) ⊎ (c ≡ event_receive)
      → any_of m event_receive ≡ true
      → any_of (either m c) event_receive ≡ true
  unfolding any_of
  set_receive m c (inl d) h = any_of-either_other m c event_receive d ∙ h
  set_receive m c (inr e) h =
      subst (λ w. any_of (either m w) event_receive ≡ true) (sym e)
        (any_of-either_same m event_receive refl)

  -- A place is kept when an event is set and a request that was not there arrives.
  pub At-set :
      (p : Point) (t u : Task) (c : Mask)
      → ctx ≢ null
      → (any_of c event_receive ≡ false) ⊎ (c ≡ event_receive)
      → u.events ≡ set t.events c
      → u.now_send ≡ t.now_send
      → u.now_receive ≡ t.now_receive
      → (t.receive_req ≡ null) ⊎ (u.receive_req ≡ t.receive_req)
      → (t.send_req ≡ null) ⊎ (u.send_req ≡ t.send_req)
      → At p t
      → At p u
  At-set start t u c ne o e ns nr r s (w, k) =
      let f = set-waits t.events c (inl w) in
      (ap (λ g. g.wait_ctx) (e ∙ f) ∙ w, ap (λ g. g.pushed) (e ∙ f) ∙ k)
  At-set wait_transmit t u c ne o e ns nr r s k =
      subst (λ g. Suspended ctx g (true ∷ true ∷ []) any) (sym e)
        (set-Suspended ctx t.events c (true ∷ true ∷ []) any ne k)
  At-set wait_receive t u c ne o e ns nr r s k =
      subst (λ g. Suspended ctx g event_receive all) (sym e)
        (set-Suspended ctx t.events c event_receive all ne k)
  At-set wait_nina t u c ne o e ns nr r s (k, h) = (
    subst (λ g. Suspended ctx g event_nina_rtt all) (sym e)
        (set-Suspended ctx t.events c event_nina_rtt all ne k),
    ap (λ g. any_of g.mask event_receive) e
        ∙ ap (λ m. any_of m event_receive) (set-mask t.events c)
        ∙ set_receive t.events.mask c o h,
  )
  At-set header t u c ne o e ns nr r s k = Transferring-set t u c e ns nr r s k
  At-set head t u c ne o e ns nr r s k = Transferring-set t u c e ns nr r s k
  At-set tail t u c ne o e ns nr r s k = Transferring-set t u c e ns nr r s k
