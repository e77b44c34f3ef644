-- ===== src/WifiStreamer/CpxStream/Receive.antt =====
-- What `cpx_rx_task` reads from the packets of examples/other/wifi-img-streamer/cpx_stream.c.
use aideck_gap8_examples.Base.{
  ℕ, ◌+◌, ◌-◌, ◌<◌, ◌≡◌, refl, sym, ap, ◌∙◌, List, [], ◌∷◌, ◌++◌, append_assoc, length, take,
  Outcome, Outcome-cases, inl, inr, exit, ◌>>=◌, ok, ◌>>=◌,
}
use aideck_gap8_examples.Com.{packet_length, mtu}
use aideck_gap8_examples.Cpx.Function
use aideck_gap8_examples.Cpx.Header.{cpx_version}
use aideck_gap8_examples.Router.{Packet, Queues, Fault, header_size, rx_round}
use aideck_gap8_examples.WifiStreamer.CpxStream.{Link}

-- The data that `cpx_rx_task` reads from buffers: each packet arrives in front of `stale` bytes.
unfoldable pub receive : Queues → List ℕ → Packet → List (List ℕ) → Outcome Fault (List ℕ)
receive queues stale rxp [] = ok []
receive queues stale rxp (image ∷ images) = do
  (q, o) ← rx_round queues rxp (take (2 + packet_length image) image ++ stale)
  rest ← receive queues stale q images
  ok (take q.data_length q.payload ++ rest)

-- A packet that `cpx_stream_init` has prepared: the route fits, and the data is an array of
-- 1020 bytes.
pub record Prepared (p : Packet) : Type 0 where
  pub destination_fits : p.route.destination < 8
  pub source_fits : p.route.source < 8
  pub function_fits : p.route.function < Function.last
  pub current : p.route.version ≡ cpx_version
  pub whole_array : length p.payload ≡ mtu - header_size

-- The packets sent between two states carry these bytes: `receive` reads them from the packets,
-- whatever stands in the memory, and the static packet is ready for the next.
pub record Carried (carried_bytes : List ℕ) (l l' : Link) : Type 0 where
  pub images : List (List ℕ)
  pub appended : l'.sent ≡ l.sent ++ images
  pub carried :
      (queues : Queues) (stale : List ℕ) (rxp : Packet)
      → receive queues stale rxp images ≡ ok carried_bytes
  pub prepared : Prepared l'.packet

regroup :
    (m : Outcome Fault (List ℕ)) (segment ys : List ℕ)
    → ((m >>= (λ xs. ok (xs ++ ys))) >>= (λ rest. ok (segment ++ rest)))
      ≡ ((m >>= (λ rest. ok (segment ++ rest))) >>= (λ xs. ok (xs ++ ys)))
regroup (ok xs) segment ys = ap ok (sym (append_assoc segment xs ys))
regroup (exit f) segment ys = refl

receive-append :
    (queues : Queues) (stale : List ℕ) (rxp : Packet) (first second : List (List ℕ)) (ys : List ℕ)
    → ((rxp : Packet) → receive queues stale rxp second ≡ ok ys)
    → receive queues stale rxp (first ++ second)
      ≡ (receive queues stale rxp first >>= λ xs. ok (xs ++ ys))
unfolding receive
receive-append queues stale rxp [] second ys h = h rxp
receive-append queues stale rxp (image ∷ images) second ys h =
    elim (Outcome-cases (rx_round queues rxp (take (2 + packet_length image) image ++ stale))) [
      | inl (r, e) ↦
          let rest = receive-append queues stale r.0 images second ys h in
          rw e (rw rest (regroup (receive queues stale r.0 images) _ ys))
      | inr (f, e) ↦ rw (e) refl
    ]

pub Carried-trans :
    (xs ys : List ℕ) (a b c : Link) → Carried xs a b → Carried ys b c → Carried (xs ++ ys) a c
Carried-trans xs ys a b c f g = record {
  images = f.images ++ g.images;
  appended =
      g.appended ∙ ap (λ t. t ++ g.images) f.appended ∙ append_assoc a.sent f.images g.images;
  carried = λ queues stale rxp.
      receive-append queues stale rxp f.images g.images ys (g.carried queues stale)
      ∙ ap (λ m. m >>= λ t. ok (t ++ ys)) (f.carried queues stale rxp);
  prepared = g.prepared;
}
