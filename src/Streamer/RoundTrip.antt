-- ===== src/Streamer/RoundTrip.antt =====
-- What `streamer_send_task` of nanocockpit/lib/streamer.c sends, its `streamer_cpx_callback` puts
-- together again.
use aideck_gap8_examples.Base.{
  bytes, ℕ, zero, suc, ◌+◌, ◌-◌, ◌%◌, ◌^◌, ◌≤◌, ◌<◌, ◌≡◌, inl, inr, refl, sym, ap, ap₂, ◌∙◌, min,
  Bool, List, [], ◌∷◌, ◌++◌, length, Outcome, ok, ◌>>=◌, arith,
}
use aideck_gap8_examples.Spi.{mtu}
use aideck_gap8_examples.Streamer.Packet.{Fault, begin_head, type_image}
use aideck_gap8_examples.Streamer.Send.{Sender, Sent, send_packet, send_loop}
use aideck_gap8_examples.Streamer.Receive.{Streamer, cpx_callback}
use aideck_gap8_examples.Streamer.Segments.{
  IsReady, segment_length_lem, send_packet_first, send_packet_later, data_length, begin_length,
}
use aideck_gap8_examples.Streamer.Progress.{
  Job, Setting, Waiting, Finished, Progress, begin-Progress, data-Progress,
}

-- The packets arrive in the order in which they were sent; the length that comes with each is
-- that of its head and its tail.
unfoldable pub deliver : Bool → Streamer → List Sent → Outcome Fault Streamer
deliver check s [] = ok s
deliver check s (p ∷ more) = do
  s' ← cpx_callback check s (p.head ++ p.tail) (length p.head + length p.tail)
  deliver check s' more

send_loop-step :
    (memory : ℕ → ℕ) (frame_size checksum fuel : ℕ) (s s' s'' : Sender) (at left m : ℕ) (p : Sent)
    (more : List Sent)
    → 0 < left
    → send_packet memory frame_size checksum s at left ≡ ok (s', p, m)
    → send_loop memory frame_size checksum fuel s' (at + m) (left - m) ≡ ok (s'', more)
    → send_loop memory frame_size checksum (suc fuel) s at left ≡ ok (s'', p ∷ more)
unfolding send_loop
send_loop-step memory frame_size checksum fuel s s' s'' at left m p more h e f =
    ground (arith, e, f)

deliver-step :
    (check : Bool) (t t' : Streamer) (head tail : List ℕ) (more : List Sent)
    (r : Outcome Fault Streamer)
    → cpx_callback check t (head ++ tail) (length head + length tail) ≡ ok t'
    → deliver check t' more ≡ r
    → deliver check t (record { head = head; tail = tail } ∷ more) ≡ r
unfolding deliver
deliver-step check t t' head tail more r e f = rw e f

module _ (x : Job) where
  open x use {check, memory, at, frame_size, checksum, id}

  -- The loop on what is left, with enough rounds.
  abbrev Rest : ℕ → Sender → ℕ → Streamer → Type 0
  Rest fuel s r t =
      (s' : Sender) × (sent : List Sent) × (t' : Streamer) × (send_loop memory frame_size checksum
          fuel s (at + r) (frame_size - r)
        ≡ ok (s', sent))
      × (deliver check t sent ≡ ok t')
      × Finished x t'

  remaining-Finished :
      (fuel : ℕ) (s : Sender) (r : ℕ) (t : Streamer)
      → Setting x
      → IsReady s
      → at % 4 ≡ 0
      → 0 < r
      → r % 4 ≡ 0
      → frame_size - r ≤ fuel
      → Progress x t r
      → Rest fuel s r t
  unfolding send_loop deliver
  remaining-Finished zero s r t g v a pos w f (inl (h, _, _)) = absurd (omega arith)
  remaining-Finished zero s r t g v a pos w f (inr (e, d)) = (s, [], t, ground arith, refl, d)
  remaining-Finished (suc fuel) s r t g v a pos w f (inr (e, d)) = (s, [], t, ground arith, refl, d)
  remaining-Finished (suc fuel) s r t g v a pos w f (inl (h, k, p)) =
      let m = data_length memory frame_size checksum (frame_size - r) in
      let l = segment_length_lem (frame_size - r) (mtu - 4) (omega arith) (omega arith) refl in
      let fits : m ≡ min (frame_size - r) (mtu - 4) = l.4 (omega (arith, g.words)) in
      let (s', head, e, v', hl, hc) =
        send_packet_later memory frame_size checksum s (at + r) (frame_size - r) v (omega arith)
          (omega arith) (λ q. omega arith) in
      let (t', d, pr) =
        data-Progress x t head r m g k p hl hc (omega (arith, fits)) (omega (arith, fits)) in
      let (s'', more, t'', e', d', done) =
        remaining-Finished fuel s' (r + m) t' g v' a (omega arith) (omega (arith, l.1))
          (omega (arith, l.0)) pr in
      let packet : Sent = record { head = head; tail = bytes memory (at + r) m } in
      let here : at + (r + m) ≡ at + r + m = omega arith in
      let left : frame_size - (r + m) ≡ frame_size - r - m = omega arith in
      let rest =
        ap₂ (λ a n. send_loop memory frame_size checksum fuel s' a n) (sym here) (sym left) ∙ e' in
      (
        s'',
        packet ∷ more,
        t'',
        send_loop-step memory frame_size checksum fuel s s' s'' (at + r) (frame_size - r) m packet
            more (omega arith) e rest,
        deliver-step check t t' head (bytes memory (at + r) m) more (ok t'') d d',
        done,
      )

  -- A frame in memory at an aligned address, whose size is a multiple of 4 and fits the buffer
  -- that the receiver waits with: the loop of `streamer_send_task` ends within `frame_size`
  -- rounds and without a failed assertion, and when the receiver's callback is given the packets
  -- that were sent, in order, no assertion fails either, the buffer has the bytes of the frame
  -- and its size, the client's task is pushed exactly once, and nothing waits any more.
  pub round_trip :
      (s : Sender) (t : Streamer)
      → Setting x
      → IsReady s
      → at % 4 ≡ 0
      → checksum < 2 ^ 32
      → Waiting x t
      → frame_size ≤ (t.buffers id).storage_capacity
      → frame_size ≤ length (t.buffers id).storage
      → (s' : Sender) × (sent : List Sent) × (t' : Streamer) × (send_loop memory frame_size checksum
            frame_size s at frame_size
          ≡ ok (s', sent))
        × (deliver check t sent ≡ ok t')
        × Finished x t'
  round_trip s t g v a sum w cap room =
      let m = begin_length memory frame_size checksum in
      let l = segment_length_lem frame_size (mtu - 12) g.not_empty (omega arith) refl in
      let fits : m ≡ min frame_size (mtu - 12) = l.4 g.words in
      let (s', e, v') = send_packet_first memory frame_size checksum s at v a g.not_empty in
      let (t', d, p) =
        begin-Progress x t m g w sum cap room (omega (arith, fits)) (omega (arith, fits)) in
      let (s'', more, t'', e', d', done) =
        remaining-Finished (frame_size - 1) s' m t' g v' a l.0 l.1 (omega (arith, l.0)) p in
      let rounds : frame_size ≡ suc (frame_size - 1) = omega (arith, g.not_empty) in
      let head = begin_head type_image frame_size checksum in
      let packet : Sent = record { head = head; tail = bytes memory at m } in
      (
        s'',
        packet ∷ more,
        t'',
        ap (λ n. send_loop memory frame_size checksum n s at frame_size) rounds
            ∙ send_loop-step memory frame_size checksum (frame_size - 1) s s' s'' at frame_size m
                packet more g.not_empty e e',
        deliver-step check t t' head (bytes memory at m) more (ok t'') d d',
        done,
      )
