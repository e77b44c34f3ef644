-- ===== src/Cpx/Target.antt =====
-- `cpx_target_e` of nanocockpit/lib/cpx/cpx_types.h and `CPXTarget_t` of lib/cpx/inc/cpx.h: where
-- a packet comes from and goes to.
use aideck_gap8_examples.Base.{ℕ}

abbrev pub stm32 : ℕ
stm32 = 1

abbrev pub esp32 : ℕ
esp32 = 2

abbrev pub wifi_host : ℕ
wifi_host = 3

abbrev pub gap : ℕ
gap = 4
