-- ===== src/Cpx.antt =====
-- The CPX packets of nanocockpit/lib/cpx/cpx.h, cpx.c and cpx_types.h: routing headers, send
-- requests whose head lies in the request, and the callbacks that receive packets.
pub mod Target
pub mod Function
pub mod Header
pub mod Callbacks
pub mod SendTask
mod Tests
mod SendTests
use aideck_gap8_examples.Base.{ℕ, ◌+◌, ◌==◌, ltb, if◌then◌else◌, Outcome, ok, exit, ◌>>=◌}
use aideck_gap8_examples.Spi
use aideck_gap8_examples.Spi.{null}

-- `cpx_send_req_t`: the capacity of the payload buffer, the address of that buffer, which ends
-- the struct, and the SPI request inside.
pub record SendReq : Type 0 where
  pub payload_capacity : ℕ
  pub payload : ℕ
  pub req : Spi.SendReq

pub data Fault : Type 0 where
  alloc_failed payload_too_long : Fault
  callback_registered unsupported_version : Fault
  spi : Spi.Fault → Fault

-- A call of cpx_spi.c.
abbrev pub from_spi {ℓ} : {A : Type ℓ} → Outcome Spi.Fault A → Outcome Fault A
from_spi (ok a) = ok a
from_spi (exit f) = exit (spi f)

-- `cpx_send_req_alloc`; `storage` is what `pi_l2_malloc` returned, and `req_offset` and
-- `payload_offset` are where the compiler puts `req` and `payload` in the struct.
unfoldable pub send_req_alloc : ℕ → ℕ → ℕ → ℕ → Outcome Fault SendReq
send_req_alloc req_offset payload_offset storage payload_capacity =
    if storage == null then exit alloc_failed else (do
      req ← from_spi (
          Spi.send_req_init (storage + req_offset) (storage + payload_offset) payload_capacity null
            0)
      ok (record {
        payload_capacity = payload_capacity;
        payload = storage + payload_offset;
        req = req;
      }))

unfoldable pub set_head_length : SendReq → ℕ → Outcome Fault SendReq
set_head_length r payload_length =
    if ltb r.payload_capacity payload_length then exit payload_too_long else (do
      req ← from_spi (Spi.set_head r.req r.payload payload_length)
      ok (record r { req = req }))

unfoldable pub max_tail_length : SendReq → ℕ
max_tail_length r = Spi.max_tail_length r.req

unfoldable pub set_tail : SendReq → ℕ → ℕ → Outcome Fault SendReq
set_tail r payload_tail tail_length = do
  req ← from_spi (Spi.set_tail r.req payload_tail tail_length)
  ok (record r { req = req })
