-- ===== src/Security.antt =====
-- crates/zerox-kernel/src/security.rs: capabilities, a process's set of them, and the kernel's
-- manager of tokens. The lock on the issued tokens is held for a whole call.
pub mod Sets
pub mod Tokens
mod Tests
use zeroxos_os.Base.{
  ℕ, ◌+◌, ◌≡◌, ◌≢◌, refl, ◌↔◌, Bool, true, false, ◌&&◌, ◌||◌, not, Option, none, some, List, [],
  ◌∷◌, if◌then◌else◌, ◌==◌, length, push, retain, add64, ℕ_discrete, arith,
}

pub data FileAccess : Type 0 where
  read write read_write execute : FileAccess

pub data Capability : Type 0 where
  camera : Capability
  filesystem : ℕ → FileAccess → Capability
  network : Bool → Capability
  bluetooth gpu audio input_devices system_power : Capability
  driver : ℕ → Capability
  kernel_admin : Capability

Capability-discrete : Discrete Capability
Capability-discrete = hlevel ℕ_discrete

-- The derived `PartialEq`.
pub cap_eq : Capability → Capability → Bool
cap_eq a b = elim (Capability-discrete a b) [ yes _ ↦ true | no _ ↦ false ]

pub cap_eq_iff : (a b : Capability) → (cap_eq a b ≡ true) ↔ (a ≡ b)
unfolding cap_eq
cap_eq_iff a b = ground arith

pub data SecurityError : Type 0 where
  missing_capability invalid_token token_revoked permission_denied : SecurityError

pub data Checked (A : Type 0) : Type 0 where
  granted : A → Checked A
  denied : SecurityError → Checked A

pub record CapabilitySet : Type 0 where
  pub capabilities : List Capability

-- `Vec::contains`
pub contains : List Capability → Capability → Bool
contains [] cap = false
contains (c ∷ l) cap = cap_eq c cap || contains l cap

pub empty_set : CapabilitySet
empty_set = record { capabilities = [] }

pub set_grant : CapabilitySet → Capability → CapabilitySet
set_grant s cap =
    if contains s.capabilities cap then s else record { capabilities = push s.capabilities cap }

pub set_revoke : CapabilitySet → Capability → CapabilitySet
set_revoke s cap = record { capabilities = retain (λ c. not (cap_eq c cap)) s.capabilities }

pub set_has : CapabilitySet → Capability → Bool
set_has s cap = contains s.capabilities cap

pub set_check : CapabilitySet → Capability → Checked (Unit {0})
set_check s cap = if set_has s cap then granted tt else denied missing_capability

-- A token with the process that holds it and what it allows.
pub record Issued : Type 0 where
  pub token : ℕ
  pub pid : ℕ
  pub cap : Capability

pub record SecurityManager : Type 0 where
  pub next_token : ℕ
  pub issued : List Issued

pub new : SecurityManager
new = record { next_token = 1; issued = [] }

pub grant : SecurityManager → ℕ → Capability → ℕ × SecurityManager
grant m pid cap =
    let token = m.next_token in
    (
      token,
      record {
        next_token = add64 m.next_token 1;
        issued = push m.issued (record { token = token; pid = pid; cap = cap });
      },
    )

-- `issued.remove(issued.iter().position(...))`: the first entry with the token goes.
pub remove_token : ℕ → List Issued → List Issued
remove_token token [] = []
remove_token token (e ∷ l) = if e.token == token then l else e ∷ remove_token token l

pub revoke : SecurityManager → ℕ → SecurityManager
revoke m token = record m { issued = remove_token token m.issued }

pub check_loop : List Issued → ℕ → Capability → Checked (Unit {0})
check_loop [] pid cap = denied missing_capability
check_loop (e ∷ l) pid cap =
    if e.pid == pid && cap_eq e.cap cap then granted tt else check_loop l pid cap

pub check : SecurityManager → ℕ → Capability → Checked (Unit {0})
check m pid cap = check_loop m.issued pid cap

pub verify_loop : List Issued → ℕ → ℕ → Checked Capability
verify_loop [] token pid = denied invalid_token
verify_loop (e ∷ l) token pid =
    if e.token == token && e.pid == pid then granted e.cap else verify_loop l token pid

pub verify_token : SecurityManager → ℕ → ℕ → Checked Capability
verify_token m token pid = verify_loop m.issued token pid

pub capability_count : SecurityManager → ℕ
capability_count m = length m.issued
