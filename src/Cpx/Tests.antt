-- ===== src/Cpx/Tests.antt =====
-- CPX headers and callbacks on concrete packets.
use aideck_gap8_examples.Base.{
  ◌≡◌, refl, true, false, [], ◌∷◌, ◌==◌, if◌then◌else◌, set, exit, arith,
}
use aideck_gap8_examples.Cpx.{callback_registered}
use aideck_gap8_examples.Cpx.Function
use aideck_gap8_examples.Cpx.Target
use aideck_gap8_examples.Cpx.Header.{Header, pack}
use aideck_gap8_examples.Cpx.Callbacks.{
  Callbacks, callbacks_init, register, dispatch, callback, IsValid, init-IsValid, dispatch-register,
  register_all, register_twice,
}

abbrev to_streamer : Header
to_streamer = record {
  destination = Target.gap;
  source = Target.wifi_host;
  last_packet = true;
  reserved = false;
  function = Function.streamer;
  version = 0;
}

pack-to_streamer : pack to_streamer ≡ 92 ∷ 6 ∷ []
unfolding pack
pack-to_streamer = refl

-- The callbacks with one for the streamer.
streaming : Callbacks
streaming = record {
  receive_callbacks = 0 ∷ 0 ∷ 0 ∷ 0 ∷ 0 ∷ 0 ∷ 900 ∷ 0 ∷ 0 ∷ 0 ∷ 0 ∷ 0 ∷ 0 ∷ 0 ∷ 0 ∷ 0 ∷ [];
  receiver_args = 0 ∷ 0 ∷ 0 ∷ 0 ∷ 0 ∷ 0 ∷ 70 ∷ 0 ∷ 0 ∷ 0 ∷ 0 ∷ 0 ∷ 0 ∷ 0 ∷ 0 ∷ 0 ∷ [];
}

dispatch-register_example :
    IsValid streaming
    × (dispatch streaming 6 ≡ (if ◌==◌ 6 6 then callback 900 70 else dispatch callbacks_init 6))
unfolding register streaming
dispatch-register_example =
    dispatch-register callbacks_init 6 900 70 6 init-IsValid (omega arith) (λ e. omega arith) refl

-- A callback for the console too.
abbrev with_console : Callbacks
with_console = record {
  receive_callbacks = set (set callbacks_init.receive_callbacks 6 900) 2 500;
  receiver_args = set (set callbacks_init.receiver_args 6 70) 2 40;
}

register_twice_example : register with_console 6 901 71 ≡ exit callback_registered
unfolding register register_all
register_twice_example =
    register_twice callbacks_init 6 900 70 901 71 ((2, 500, 40) ∷ []) init-IsValid (omega arith)
      (λ e. omega arith) refl refl
