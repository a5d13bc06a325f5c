-- ===== src/Segments.antt =====
-- crates/zerox-kernel/src/arch/x86_64/gdt.rs: the descriptors of the segments and of the task state.
-- The address of the task state and its size are arguments.
pub mod Fields
mod Tests
use zeroxos_os.Base.{ℕ, ◌+◌, ◌*◌, ◌/◌, ◌%◌, ◌^◌, bit_and, bit_or, List, [], ◌∷◌, sub64}

abbrev pub kernel_code_selector : ℕ
kernel_code_selector = 0x08

abbrev pub kernel_data_selector : ℕ
kernel_data_selector = 0x10

abbrev pub user_data_selector : ℕ
user_data_selector = bit_or 0x18 3

abbrev pub user_code_selector : ℕ
user_code_selector = bit_or 0x20 3

abbrev pub access_present : ℕ
access_present = 0x80

abbrev pub access_dpl3 : ℕ
access_dpl3 = 0x60

abbrev pub access_type : ℕ
access_type = 0x10

abbrev pub access_exec : ℕ
access_exec = 0x8

abbrev pub access_rw : ℕ
access_rw = 0x2

abbrev pub flag_granularity : ℕ
flag_granularity = 0x80

abbrev pub flag_db : ℕ
flag_db = 0x40

abbrev pub flag_long : ℕ
flag_long = 0x20

-- `x << n`
abbrev pub shift_left : ℕ → ℕ → ℕ
shift_left x n = x * 2 ^ n % 2 ^ 64

pub flat : ℕ → ℕ → ℕ
flat access flags =
    bit_or (bit_or (bit_or 0xFFFF (shift_left access 40)) (shift_left 0xF 48)) (shift_left flags 48)

pub kernel_code : ℕ
kernel_code =
    flat (bit_or (bit_or (bit_or access_present access_type) access_exec) access_rw)
      (bit_or flag_granularity flag_long)

pub kernel_data : ℕ
kernel_data =
    flat (bit_or (bit_or access_present access_type) access_rw) (bit_or flag_granularity flag_db)

pub user_code : ℕ
user_code =
    flat
      (bit_or (bit_or (bit_or (bit_or access_present access_dpl3) access_type) access_exec)
        access_rw)
      (bit_or flag_granularity flag_long)

pub user_data : ℕ
user_data =
    flat (bit_or (bit_or (bit_or access_present access_dpl3) access_type) access_rw)
      (bit_or flag_granularity flag_db)

pub record TssDescriptor : Type 0 where
  pub low : ℕ
  pub high : ℕ

abbrev pub type_tss_avail : ℕ
type_tss_avail = 0x9

pub tss_descriptor : ℕ → ℕ → TssDescriptor
tss_descriptor base limit =
    let l1 = bit_and limit 0xFFFF in
    let l2 = bit_or l1 (shift_left (bit_and base 0xFFFFFF) 16) in
    let l3 = bit_or l2 (shift_left type_tss_avail 40) in
    let l4 = bit_or l3 (shift_left access_present 40) in
    let l5 = bit_or l4 (shift_left (bit_and (limit / 2 ^ 16) 0xF) 48) in
    record {
      low = bit_or l5 (shift_left (bit_and (base / 2 ^ 24) 0xFF) 56);
      high = bit_and (base / 2 ^ 32) 0xFFFFFFFF;
    }

pub record Gdt : Type 0 where
  pub entries : List ℕ
  pub len : ℕ

-- `Gdt::new`, from the address and the size of the task state.
pub gdt_new : ℕ → ℕ → Gdt
gdt_new tss size =
    let desc = tss_descriptor tss (sub64 size 1 % 2 ^ 32) in
    record {
      entries = 0 ∷ kernel_code ∷ kernel_data ∷ user_data ∷ user_code ∷ desc.low ∷ desc.high ∷ [];
      len = 7;
    }
