-- ===== src/Interrupts/Tests.antt =====
-- A gate at an address in the upper half.
use zeroxos_os.Base.{◌≡◌, refl}
use zeroxos_os.Interrupts.{new, offset, gate_interrupt}

offset_upper : offset (new 0xFFFF800012345678 8 1 gate_interrupt 0) ≡ 0xFFFF800012345678
unfolding offset new gate_interrupt
offset_upper = refl
