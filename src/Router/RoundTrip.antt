-- ===== src/Router/RoundTrip.antt =====
-- What `cpxSendPacketBlocking` of lib/cpx/src/cpx.c packs, `cpx_rx_task` unpacks.
use aideck_gap8_examples.Base.{
  ℕ, ◌+◌, ◌-◌, ◌/◌, ◌%◌, ◌^◌, ◌≤◌, ◌<◌, ◌≡◌, refl, ap, ◌∙◌, Option, none, some, List, ◌∷◌, ◌++◌,
  get_or, length, take, drop, take-append_self, length-take, ◌!=◌, if◌then◌else◌, write, ok, exit,
  arith,
}
use aideck_gap8_examples.Cpx.Function
use aideck_gap8_examples.Cpx.Header.{cpx_version, pack, unpack}
use aideck_gap8_examples.Com.{packet_length, mtu}
use aideck_gap8_examples.Router.{
  Packet, Queues, header_size, queues_overrun, packed_route, send_packet, rx_round,
}

-- A packet that fits: its fields fit their bits, and its data the wire.
pub record Fitting (p : Packet) : Type 0 where
  pub destination_fits : p.route.destination < 8
  pub source_fits : p.route.source < 8
  pub function_fits : p.route.function < 64
  pub current : p.route.version ≡ cpx_version
  pub short : p.data_length ≤ mtu - header_size
  pub whole : p.data_length ≤ length p.payload

-- The bytes that are sent: length, route, data.
abbrev pub wire : Packet → List ℕ
wire p =
    let wire_length = p.data_length + header_size in
    (wire_length % 256)
    ∷ (wire_length / 256)
    ∷ (pack (packed_route p.route) ++ take p.data_length p.payload)

wire_length : (p : Packet) → Fitting p → length (wire p) ≡ 4 + p.data_length
unfolding pack
wire_length p f = omega (arith, length-take p.data_length p.payload, f.whole)

send_packet-eq :
    (tx : List ℕ) (p : Packet)
    → p.data_length ≤ mtu - header_size
    → send_packet tx p ≡ ok (write tx 0 (wire p))
unfolding send_packet
send_packet-eq tx p h =
    let e : (p.data_length + header_size) % 2 ^ 16 ≡ p.data_length + header_size = omega arith in
    ground (arith, e)

route_back :
    (p : Packet) (rest : List ℕ)
    → Fitting p
    → unpack (drop 2 (wire p ++ rest)) ≡ packed_route p.route
unfolding pack unpack packed_route
route_back p rest f = ground arith

len_back :
    (p : Packet) (rest : List ℕ) → Fitting p → packet_length (wire p ++ rest) ≡ p.data_length + 2
unfolding packet_length
len_back p rest f = omega (arith, f.short)

-- The bytes that a packet fills.
starts :
    (tx : List ℕ) (p : Packet)
    → Fitting p
    → take (2 + packet_length (write tx 0 (wire p))) (write tx 0 (wire p)) ≡ wire p
starts tx p f =
    ap (λ n. take n (write tx 0 (wire p))) whole
    ∙ take-append_self (wire p) (drop (0 + length (wire p)) tx)
  where
    whole : 2 + packet_length (write tx 0 (wire p)) ≡ length (wire p)
    whole = omega (arith, wire_length p f, len_back p (drop (0 + length (wire p)) tx) f)

segment_back :
    (p : Packet) (rest : List ℕ)
    → Fitting p
    → take p.data_length (drop 4 (wire p ++ rest)) ≡ take p.data_length p.payload
unfolding pack
segment_back p rest f =
    ap (λ n. take n (take p.data_length p.payload ++ rest)) whole
    ∙ take-append_self (take p.data_length p.payload) rest
  where
    whole : p.data_length ≡ length (take p.data_length p.payload)
    whole = omega (arith, length-take p.data_length p.payload, f.whole)

payload_back :
    (p rxp : Packet)
    → Fitting p
    → take p.data_length (write rxp.payload 0 (take p.data_length p.payload))
      ≡ take p.data_length p.payload
payload_back p rxp f =
    ap (λ n. take n (write rxp.payload 0 segment)) whole
    ∙ take-append_self segment (drop (0 + length segment) rxp.payload)
  where
    segment : List ℕ
    segment = take p.data_length p.payload

    whole : p.data_length ≡ length segment
    whole = omega (arith, length-take p.data_length p.payload, f.whole)

-- What `rx_round` makes of the bytes.
rx_round-wire :
    (queues : Queues) (rxp p : Packet) (rest : List ℕ)
    → Fitting p
    → p.route.function < Function.last
    → rx_round queues rxp (wire p ++ rest)
      ≡ ok (
        record {
          route = p.route;
          data_length = p.data_length;
          payload = write rxp.payload 0 (take p.data_length p.payload);
        },
        if get_or queues p.route.function 0 != 0
            then some (get_or queues p.route.function 0)
            else none,
      )
unfolding rx_round packed_route
rx_round-wire queues rxp p rest f known =
    let e : (packet_length (wire p ++ rest) + 2 ^ 16 - header_size) % 2 ^ 16 ≡ p.data_length =
      omega (arith, len_back p rest f, f.short) in
    ground (arith, e, route_back p rest f, segment_back p rest f)

-- A packet of this version whose fields fit their bits, with at most 1020 bytes of data, but whose
-- function is CPX_F_LAST or more, makes `cpx_rx_task` read behind `queues`, whatever is in these.
pub rx_round-queues_overrun :
    (tx rest : List ℕ) (queues : Queues) (p rxp : Packet)
    → Fitting p
    → Function.last ≤ p.route.function
    → (image : List ℕ) × (send_packet tx p ≡ ok image)
      × (rx_round queues rxp (take (2 + packet_length image) image ++ rest) ≡ exit queues_overrun)
unfolding rx_round packed_route
rx_round-queues_overrun tx rest queues p rxp f unknown =
    let e : (packet_length (wire p ++ rest) + 2 ^ 16 - header_size) % 2 ^ 16 ≡ p.data_length =
      omega (arith, len_back p rest f, f.short) in
    (
      write tx 0 (wire p),
      send_packet-eq tx p f.short,
      ap (λ t. rx_round queues rxp (t ++ rest)) (starts tx p f)
          ∙ ground (arith, e, route_back p rest f, f.short, f.current, unknown),
    )

-- A packet whose targets fit their bits, whose function is below CPX_F_LAST, of this version and with
-- at most 1020 bytes of data, is
-- sent without an overrun by `cpxSendPacketBlocking`. From a buffer with the bytes that it fills,
-- as many as the length in them says, and anything behind them, `cpx_rx_task` reads the same
-- route, the same length and the same data, without a failed assertion, and sends the packet to
-- the queue of its function, if that has one.
pub send_packet-rx_round :
    (tx rest : List ℕ) (queues : Queues) (p rxp : Packet)
    → Fitting p
    → p.route.function < Function.last
    → (image : List ℕ) × (q : Packet) × (send_packet tx p ≡ ok image)
      × (packet_length image ≡ p.data_length + 2)
      × (rx_round queues rxp (take (2 + packet_length image) image ++ rest)
          ≡ ok (
            q,
            if get_or queues p.route.function 0 != 0
                then some (get_or queues p.route.function 0)
                else none,
          ))
      × (q.route ≡ p.route)
      × (q.data_length ≡ p.data_length)
      × (take q.data_length q.payload ≡ take p.data_length p.payload)
send_packet-rx_round tx rest queues p rxp f known = (
  write tx 0 (wire p),
  record {
    route = p.route;
    data_length = p.data_length;
    payload = write rxp.payload 0 (take p.data_length p.payload);
  },
  send_packet-eq tx p f.short,
  len_back p (drop (0 + length (wire p)) tx) f,
  ap (λ t. rx_round queues rxp (t ++ rest)) (starts tx p f)
      ∙ rx_round-wire queues rxp p rest f known,
  refl,
  refl,
  payload_back p rxp f,
)

-- The same for the bytes that were sent.
pub rx_round-image :
    (tx stale image : List ℕ) (queues : Queues) (p rxp : Packet)
    → Fitting p
    → p.route.function < Function.last
    → send_packet tx p ≡ ok image
    → (q : Packet) × (o : Option ℕ) × (rx_round queues rxp
          (take (2 + packet_length image) image ++ stale)
        ≡ ok (q, o))
      × (take q.data_length q.payload ≡ take p.data_length p.payload)
rx_round-image tx stale image queues p rxp f known sent =
    let e : image ≡ write tx 0 (wire p) = ground (arith, send_packet-eq tx p f.short) in
    (
      record {
        route = p.route;
        data_length = p.data_length;
        payload = write rxp.payload 0 (take p.data_length p.payload);
      },
      if get_or queues p.route.function 0 != 0
          then some (get_or queues p.route.function 0)
          else none,
      ap (λ t. rx_round queues rxp (take (2 + packet_length t) t ++ stale)) e
          ∙ (ap (λ t. rx_round queues rxp (t ++ stale)) (starts tx p f)
              ∙ rx_round-wire queues rxp p stale f known),
      payload_back p rxp f,
    )
