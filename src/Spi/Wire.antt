-- ===== src/Spi/Wire.antt =====
-- What the three transfers of a packet in nanocockpit/lib/cpx/cpx_spi.c do on the wire, whatever
-- lengths the two sides announce.
use aideck_gap8_examples.Base.{
  ℕ, ◌+◌, ◌-◌, ◌*◌, ◌/◌, ◌%◌, ◌≤◌, ◌<◌, ◌≡◌, ◌⊎◌, inl, inr, refl, max, Bool, Option, none, some,
  List, [], ◌∷◌, ◌++◌, ◌==◌, ltb, dec_lt, if◌then◌else◌, ok, arith,
}
use aideck_gap8_examples.Spi.{
  SendReq, ReceiveReq, mtu, header_size, null, keep, auto, Transfer, Phase, started, exchange,
  send_length, head_length,
}
use aideck_gap8_examples.Spi.Phases.{
  SendReady, ReceiveReady, round_up, payload_length, head_phase, tail_phase, header_phase,
  transfers, payload-le-mtu, exchange-eq,
}

-- Whole words are moved in each transfer, and the chip select is let go at the last one only.
abbrev pub OneFrame : List Transfer → Type 0
OneFrame [] = ⊥
OneFrame (t ∷ []) = (t.cs ≡ auto) × (0 < t.bits) × (t.bits % 32 ≡ 0)
OneFrame (t ∷ u ∷ rest) = (t.cs ≡ keep) × (0 < t.bits) × (t.bits % 32 ≡ 0) × OneFrame (u ∷ rest)

-- A transfer writes nothing, or inside the receive buffer.
abbrev pub WritesInside : ReceiveReq → List Transfer → Type 0
WritesInside r [] = Unit
WritesInside r (t ∷ rest) =
    ((t.rx ≡ null) ⊎ ((r.buffer ≤ t.rx) × (t.rx + t.bits / 8 ≤ r.buffer + mtu)))
    × WritesInside r rest

abbrev pub moved : List Transfer → ℕ
moved [] = 0
moved (t ∷ rest) = t.bits / 8 + moved rest

send-le-total :
    (send_req : Option SendReq) (total : ℕ)
    → SendReady send_req
    → send_length send_req ≤ total
    → (head_length send_req ≤ total) × (head_length send_req % 4 ≡ 0)
send-le-total none total a h = (omega arith, omega arith)
send-le-total (some s) total a h = (omega arith, omega arith)

phases-frame :
    (total empty_header : ℕ) (send_req : Option SendReq) (r : ReceiveReq)
    → head_length send_req ≤ total
    → head_length send_req % 4 ≡ 0
    → OneFrame (
        transfers (header_phase empty_header send_req r)
        ++ (transfers (head_phase total empty_header send_req r)
            ++ transfers (tail_phase total send_req r)))
unfolding header_phase head_phase tail_phase
phases-frame total empty_header send_req r h w = ground arith

phases-moved :
    (total empty_header : ℕ) (send_req : Option SendReq) (r : ReceiveReq)
    → head_length send_req ≤ total
    → head_length send_req % 4 ≡ 0
    → moved (
        transfers (head_phase total empty_header send_req r)
        ++ transfers (tail_phase total send_req r))
      ≡ max header_size (round_up total)
unfolding head_phase tail_phase
phases-moved total empty_header send_req r h w = ground arith

phases-inside :
    (total empty_header : ℕ) (send_req : Option SendReq) (r : ReceiveReq)
    → head_length send_req ≤ total
    → head_length send_req % 4 ≡ 0
    → total ≤ mtu
    → WritesInside r (
        transfers (head_phase total empty_header send_req r)
        ++ transfers (tail_phase total send_req r))
unfolding head_phase tail_phase
phases-inside total empty_header send_req r h w m = ground arith

-- The address from which byte `k` of the transfers is sent, and that at which it is received.
abbrev pub sent_from : List Transfer → ℕ → Option ℕ
sent_from [] k = none
sent_from (t ∷ rest) k =
    if ltb k (t.bits / 8) then some (t.tx + k) else sent_from rest (k - t.bits / 8)

abbrev pub received_at : List Transfer → ℕ → Option ℕ
received_at [] k = none
received_at (t ∷ rest) k =
    if ltb k (t.bits / 8)
    then (if t.rx == null then none else some (t.rx + k))
    else received_at rest (k - t.bits / 8)

-- Where byte `k` of the payload of a request lies: in its head, and from the head's end on in its
-- tail.
abbrev pub payload_at : Option SendReq → ℕ → Option ℕ
payload_at none k = none
payload_at (some s) k =
    some (if ltb k s.head_length then s.payload_head + k else s.payload_tail + (k - s.head_length))

phases-sent :
    (total empty_header k : ℕ) (send_req : Option SendReq) (r : ReceiveReq)
    → head_length send_req ≤ total
    → send_length send_req ≤ total
    → head_length send_req % 4 ≡ 0
    → (send_length send_req ≤ k)
      ⊎ (sent_from
            (transfers (head_phase total empty_header send_req r)
              ++ transfers (tail_phase total send_req r))
            k
          ≡ payload_at send_req k)
unfolding head_phase tail_phase
phases-sent total empty_header k none r h n w = inl (omega arith)
phases-sent total empty_header k (some s) r h n w = elim (dec_lt k s.header_length) [
  | yes lt ↦ inr (ground arith)
  | no ge ↦ inl (omega arith)
]

phases-received :
    (total empty_header k : ℕ) (send_req : Option SendReq) (r : ReceiveReq)
    → head_length send_req ≤ total
    → head_length send_req % 4 ≡ 0
    → 0 < r.buffer
    → (total ≤ k)
      ⊎ (received_at
            (transfers (head_phase total empty_header send_req r)
              ++ transfers (tail_phase total send_req r))
            k
          ≡ some (r.buffer + k))
unfolding head_phase tail_phase
phases-received total empty_header k send_req r h w b = elim (dec_lt k total) [
  | yes lt ↦ inr (ground arith)
  | no ge ↦ inl (omega arith)
]

-- Whatever length the other side announces, and with or without something to send, the three
-- transfers of a packet fail no assertion: they move whole words and let the chip select go at the
-- last transfer and at no other. The first sends the request's header, or the empty one, and writes
-- the 4 bytes of the received header. The other two carry the longer of the two payloads rounded up to
-- whole words (one word if both are empty): each byte `k` of the request's payload is sent at its
-- place, from the head and then from the tail, byte `k` of what is received is written at offset `k` of
-- the receive buffer as far as the longer payload goes, and nothing is written outside that buffer.
pub exchange_lem :
    (bidirectional : Bool) (wire_length empty_header k : ℕ) (send_req : Option SendReq)
    (r : ReceiveReq)
    → empty_header % 4 ≡ 0
    → SendReady send_req
    → ReceiveReady r
    → (header : Phase) × (head : Phase) × (tail : Phase) × (exchange bidirectional wire_length
          empty_header send_req
          (some r)
        ≡ ok (header, head, tail))
      × OneFrame (transfers header ++ (transfers head ++ transfers tail))
      × (moved (transfers head ++ transfers tail)
          ≡ max header_size (round_up (payload_length bidirectional wire_length send_req)))
      × WritesInside r (transfers head ++ transfers tail)
      × (header
          ≡ started (record {
            tx = elim send_req [ some s ↦ s.header_at | none ↦ empty_header ];
            rx = r.header_at;
            bits = header_size * 8;
            cs = keep;
          }))
      × ((send_length send_req ≤ k)
          ⊎ (sent_from (transfers head ++ transfers tail) k ≡ payload_at send_req k))
      × ((payload_length bidirectional wire_length send_req ≤ k)
          ⊎ (received_at (transfers head ++ transfers tail) k ≡ some (r.buffer + k)))
unfolding header_phase
exchange_lem bidirectional wire_length empty_header k send_req r e a b =
    let total = payload_length bidirectional wire_length send_req in
    let n : send_length send_req ≤ total = omega arith in
    let (h, w) = send-le-total send_req total a n in
    (
      header_phase empty_header send_req r,
      head_phase total empty_header send_req r,
      tail_phase total send_req r,
      exchange-eq bidirectional wire_length empty_header send_req r e a b,
      phases-frame total empty_header send_req r h w,
      phases-moved total empty_header send_req r h w,
      phases-inside total empty_header send_req r h w
          (payload-le-mtu bidirectional wire_length send_req a),
      refl,
      phases-sent total empty_header k send_req r h n w,
      phases-received total empty_header k send_req r h w (omega arith),
    )
