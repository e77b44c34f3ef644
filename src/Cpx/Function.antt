-- ===== src/Cpx/Function.antt =====
-- `cpx_function_e` of nanocockpit/lib/cpx/cpx_types.h and `CPXFunction_t` of lib/cpx/inc/cpx.h,
-- whose numbers are the same.
use aideck_gap8_examples.Base.{ℕ}

abbrev pub system : ℕ
system = 1

abbrev pub console : ℕ
console = 2

abbrev pub crtp : ℕ
crtp = 3

abbrev pub wifi_ctrl : ℕ
wifi_ctrl = 4

abbrev pub app : ℕ
app = 5

abbrev pub streamer : ℕ
streamer = 6

abbrev pub test : ℕ
test = 14

abbrev pub bootloader : ℕ
bootloader = 15

-- `CPX_F_LAST`, one more than the last function
abbrev pub last : ℕ
last = 16
