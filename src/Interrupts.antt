-- ===== src/Interrupts.antt =====
-- crates/zerox-kernel/src/arch/x86_64/idt.rs: the gates of the interrupt table. The fields of an
-- entry have the widths of the struct, which the casts cut them to.
pub mod Gates
mod Tests
use zeroxos_os.Base.{
  ℕ, ◌+◌, ◌*◌, ◌/◌, ◌%◌, ◌^◌, bit_and, bit_or, List, [], ◌∷◌, length, set, Option, none, some,
  if◌then◌else◌, ltb,
}

abbrev pub idt_len : ℕ
idt_len = 256

pub record IdtEntry : Type 0 where
  pub offset_low : ℕ
  pub selector : ℕ
  pub ist : ℕ
  pub type_attr : ℕ
  pub offset_mid : ℕ
  pub offset_high : ℕ
  pub reserved : ℕ

abbrev pub gate_interrupt : ℕ
gate_interrupt = 0xE

abbrev pub gate_trap : ℕ
gate_trap = 0xF

pub missing : IdtEntry
missing = record {
  offset_low = 0;
  selector = 0;
  ist = 0;
  type_attr = 0;
  offset_mid = 0;
  offset_high = 0;
  reserved = 0;
}

pub new : ℕ → ℕ → ℕ → ℕ → ℕ → IdtEntry
new handler selector ist gate dpl = record {
  offset_low = bit_and handler 0xFFFF % 2 ^ 16;
  selector = selector;
  ist = bit_and ist 0x7;
  type_attr = bit_or (bit_or 0x80 (bit_and dpl 0x3 * 2 ^ 5 % 2 ^ 8)) (bit_and gate 0xF);
  offset_mid = bit_and (handler / 2 ^ 16) 0xFFFF % 2 ^ 16;
  offset_high = bit_and (handler / 2 ^ 32) 0xFFFFFFFF % 2 ^ 32;
  reserved = 0;
}

pub offset : IdtEntry → ℕ
offset e =
    bit_or (bit_or e.offset_low (e.offset_mid * 2 ^ 16 % 2 ^ 64)) (e.offset_high * 2 ^ 32 % 2 ^ 64)
