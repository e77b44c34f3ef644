-- ===== src/Spi/Phases.antt =====
-- What `cpx_spi_transfer_header` and its two siblings in nanocockpit/lib/cpx/cpx_spi.c start, by the
-- length of the longer payload.
use aideck_gap8_examples.Base.{
  ℕ, ◌+◌, ◌-◌, ◌*◌, ◌%◌, ◌≤◌, ◌<◌, ◌≡◌, ◌≢◌, refl, ap, min, max, Bool, true, false, Option, none,
  some, List, [], ◌∷◌, ◌==◌, ◌!=◌, if◌then◌else◌, ok, arith,
}
use aideck_gap8_examples.Spi.{
  SendReq, ReceiveReq, mtu, null, ChipSelect, keep, auto, Transfer, spi_transfer, Phase, started,
  completed, transfer_header, transfer_payload_head, transfer_payload_tail, exchange, send_length,
  head_length, head_buffer, tail_buffer,
}
use aideck_gap8_examples.Spi.Bounds.{IsValid}

pub spi_transfer-ok :
    (tx rx bytes : ℕ) (cs : ChipSelect)
    → tx % 4 ≡ 0
    → rx % 4 ≡ 0
    → bytes % 4 ≡ 0
    → rx ≢ 0
    → spi_transfer tx rx (bytes * 8) cs
      ≡ ok (record { tx = tx; rx = rx; bits = bytes * 8; cs = cs })
unfolding spi_transfer
spi_transfer-ok tx rx bytes cs a b c d = ground arith

-- A request in memory, as the code passes it on.
abbrev pub SendReady : Option SendReq → Type 0
SendReady none = Unit
SendReady (some s) = IsValid s × (s.header_at % 4 ≡ 0)

abbrev pub ReceiveReady : ReceiveReq → Type 0
ReceiveReady r = (r.buffer % 4 ≡ 0) × (0 < r.buffer) × (r.header_at % 4 ≡ 0) × (0 < r.header_at)

abbrev pub round_up : ℕ → ℕ
round_up n = if (n % 4) != 0 then n + (4 - n % 4) else n

-- The longer of what is sent and what is received.
abbrev pub payload_length : Bool → ℕ → Option SendReq → ℕ
payload_length bidirectional wire_length send_req =
    max (send_length send_req) (if bidirectional then min wire_length mtu else 0)

unfoldable pub head_phase : ℕ → ℕ → Option SendReq → ReceiveReq → Phase
head_phase total empty_header send_req r =
    if head_length send_req == 0
    then (if total == 0
        then started (record { tx = empty_header; rx = null; bits = 32; cs = auto })
        else completed)
    else started (record {
      tx = head_buffer send_req;
      rx = r.buffer;
      bits = head_length send_req * 8;
      cs = if total == head_length send_req then auto else keep;
    })

unfoldable pub tail_phase : ℕ → Option SendReq → ReceiveReq → Phase
tail_phase total send_req r =
    if (total - head_length send_req) == 0
    then completed
    else started (record {
      tx = tail_buffer send_req;
      rx = r.buffer + head_length send_req;
      bits = round_up (total - head_length send_req) * 8;
      cs = auto;
    })

unfoldable pub header_phase : ℕ → Option SendReq → ReceiveReq → Phase
header_phase empty_header send_req r = started (record {
  tx = elim send_req [ some s ↦ s.header_at | none ↦ empty_header ];
  rx = r.header_at;
  bits = 32;
  cs = keep;
})

head_phase_lem :
    (n empty_header : ℕ) (send_req : Option SendReq) (r : ReceiveReq)
    → SendReady send_req
    → ReceiveReady r
    → transfer_payload_head empty_header send_req (some (record r { header_length = n }))
      ≡ ok (head_phase (max (send_length send_req) (min n mtu)) empty_header send_req r)
unfolding transfer_payload_head head_phase
head_phase_lem n empty_header none r a b = ground arith
head_phase_lem n empty_header (some s) r a b = ground (
  arith,
  spi_transfer-ok s.payload_head r.buffer s.head_length keep,
  spi_transfer-ok s.payload_head r.buffer s.head_length auto,
)

tail_phase_lem :
    (n : ℕ) (send_req : Option SendReq) (r : ReceiveReq)
    → SendReady send_req
    → ReceiveReady r
    → transfer_payload_tail send_req (some (record r { header_length = n }))
      ≡ ok (tail_phase (max (send_length send_req) (min n mtu)) send_req r)
unfolding transfer_payload_tail tail_phase
tail_phase_lem n none r a b =
    ground (arith, spi_transfer-ok null r.buffer (round_up (min n mtu)) auto)
tail_phase_lem n (some s) r a b = ground (
  arith,
  spi_transfer-ok s.payload_tail (r.buffer + s.head_length)
      (round_up (max s.header_length (min n mtu) - s.head_length)) auto,
)

header_phase_lem :
    (empty_header : ℕ) (send_req : Option SendReq) (r : ReceiveReq)
    → empty_header % 4 ≡ 0
    → SendReady send_req
    → ReceiveReady r
    → transfer_header empty_header send_req (some r) ≡ ok (header_phase empty_header send_req r)
unfolding transfer_header header_phase
header_phase_lem empty_header none r e a b =
    ground (arith, spi_transfer-ok empty_header r.header_at 4 keep)
header_phase_lem empty_header (some s) r e a b =
    ground (arith, spi_transfer-ok s.header_at r.header_at 4 keep)

abbrev pub transfers : Phase → List Transfer
transfers (started t) = t ∷ []
transfers completed = []

pub payload-le-mtu :
    (bidirectional : Bool) (wire_length : ℕ) (send_req : Option SendReq)
    → SendReady send_req
    → payload_length bidirectional wire_length send_req ≤ mtu
payload-le-mtu true wire_length none a = omega arith
payload-le-mtu false wire_length none a = omega arith
payload-le-mtu true wire_length (some s) a = omega arith
payload-le-mtu false wire_length (some s) a = omega arith

cut-length :
    (bidirectional : Bool) (wire_length : ℕ) (send_req : Option SendReq)
    → max (send_length send_req) (min (if bidirectional then wire_length else 0) mtu)
      ≡ payload_length bidirectional wire_length send_req
cut-length true wire_length send_req = refl
cut-length false wire_length send_req = omega arith

pub exchange-eq :
    (bidirectional : Bool) (wire_length empty_header : ℕ) (send_req : Option SendReq)
    (r : ReceiveReq)
    → empty_header % 4 ≡ 0
    → SendReady send_req
    → ReceiveReady r
    → let total = payload_length bidirectional wire_length send_req in
      exchange bidirectional wire_length empty_header send_req (some r)
      ≡ ok (
        header_phase empty_header send_req r,
        head_phase total empty_header send_req r,
        tail_phase total send_req r,
      )
unfolding exchange
exchange-eq bidirectional wire_length empty_header send_req r e a b =
    rw
      (
        header_phase_lem empty_header send_req r e a b,
        head_phase_lem (if bidirectional then wire_length else 0) empty_header send_req r a b,
        tail_phase_lem (if bidirectional then wire_length else 0) send_req r a b,
      )
      (ap
        (λ t. ok (
          header_phase empty_header send_req r,
          head_phase t empty_header send_req r,
          tail_phase t send_req r,
        ))
        (cut-length bidirectional wire_length send_req))
