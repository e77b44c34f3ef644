-- ===== src/TraceBuffer/Tests.antt =====
-- Events in the ring of nanocockpit/lib/trace_buffer.c.
use aideck_gap8_examples.Base.{ℕ, ◌≡◌, refl, true, false, List, ◌∷◌, replicate, ok}
use aideck_gap8_examples.TraceBuffer.{Trace, init, dump_core}
use aideck_gap8_examples.TraceBuffer.Last.{push_events, dump_lem}

abbrev fresh : Trace
fresh = record {
  started = false;
  next_event = 0;
  event_count = 0;
  buffer = replicate 768 0xaaaaaaaaaaaaaaaa;
}

-- Two events more than the ring has places.
abbrev events : List ℕ
events = 1 ∷ 2 ∷ replicate 768 3

dump_lem_example :
    (u : Trace) × (push_events (record fresh { started = true }) events ≡ ok u)
    × ((dump_core u).0 ≡ replicate 768 3)
unfolding init
dump_lem_example = dump_lem fresh events refl
