-- ===== src/TraceBuffer.antt =====
-- nanocockpit/lib/trace_buffer.c with nanocockpit/lib/trace_buffer.h: the last events of a core, in
-- a ring. An event is the number that its 64 bits make.
pub mod Last
mod Tests
use aideck_gap8_examples.Base.{
  ℕ, zero, suc, ◌+◌, ◌-◌, ◌*◌, ◌/◌, ◌%◌, ◌^◌, min, Bool, true, false, Option, none, some, List, [],
  ◌∷◌, get_or, set, replicate, if◌then◌else◌, Outcome, ok, exit, ◌>>=◌,
}

-- TRACE_EVENTS_BUFFER
abbrev pub events_buffer : ℕ
events_buffer = 768

-- `trace_buffer_t`
pub record Trace : Type 0 where
  pub started : Bool
  pub next_event : ℕ
  pub event_count : ℕ
  pub buffer : List ℕ

-- The assertions of trace_buffer.c and trace_buffer.h
pub data Fault : Type 0 where
  already_initialized no_memory not_initialized not_started : Fault

-- `trace_buffer_init` on a core's entry of `trace_buffers`; the last argument tells whether there was
-- memory. `memset` makes the events 0xaa... .
unfoldable pub init : Option Trace → Bool → Outcome Fault Trace
init (some t) allocated = exit already_initialized
init none false = exit no_memory
init none true = ok (record {
  started = false;
  next_event = 0;
  event_count = 0;
  buffer = replicate events_buffer 0xaaaaaaaaaaaaaaaa;
})

-- `trace_push_event`
unfoldable pub push_event : Option Trace → ℕ → Outcome Fault Trace
push_event none event = exit not_initialized
push_event (some t) event =
    if t.started
    then ok (record t {
      buffer = set t.buffer t.next_event event;
      next_event = (t.next_event + 1) % events_buffer;
      event_count = min (t.event_count + 1) events_buffer;
    })
    else exit not_started

-- `trace_event`, whose fields have 8, 8, 16 and 32 bits
unfoldable pub trace_event : Option Trace → ℕ → ℕ → ℕ → ℕ → Outcome Fault Trace
unfolding push_event
trace_event t event state context perf_counter =
    push_event t (event + state * 2 ^ 8 + context * 2 ^ 16 + perf_counter * 2 ^ 32)

-- `trace_sync`, at a time and with what the counter reads before and after it is reset
unfoldable pub trace_sync : Option Trace → ℕ → ℕ → ℕ → Outcome Fault Trace
unfolding trace_event
trace_sync t time before after = do
  u ← trace_event t 0 1 (time % 2 ^ 16) before
  trace_event (some u) 0 2 (time / 2 ^ 16 % 2 ^ 16) after

-- `trace_buffer_start`, with what its `trace_sync` reads
unfoldable pub start : Option Trace → ℕ → ℕ → ℕ → Outcome Fault Trace
unfolding trace_sync
start none time before after = exit not_initialized
start (some t) time before after = trace_sync (some (record t { started = true })) time before after

-- The loop of `trace_buffer_dump_core`: what is printed.
unfoldable pub dump_from : ℕ → ℕ → List ℕ → List ℕ
dump_from zero first_event buffer = []
dump_from (suc event_count) first_event buffer =
    get_or buffer first_event 0 ∷ dump_from event_count ((first_event + 1) % events_buffer) buffer

-- `trace_buffer_dump_core` on a buffer that is there
unfoldable pub dump_core : Trace → List ℕ × Trace
unfolding dump_from
dump_core t =
    let first_event = (t.next_event + events_buffer - t.event_count) % events_buffer in
    (dump_from t.event_count first_event t.buffer, record t { event_count = 0 })
