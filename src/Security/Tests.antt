-- ===== src/Security/Tests.antt =====
-- The theorems on capabilities at small inputs.
use zeroxos_os.Base.{ℕ, ◌≡◌, ◌↔◌, [], ◌∷◌, arith}
use zeroxos_os.Security.{
  camera, gpu, CapabilitySet, SecurityManager, granted, revoke, check, verify_token,
}
use zeroxos_os.Security.Sets.{IsSetLike}
use zeroxos_os.Security.Tokens.{IsFresh, revoke_lem, check-verify_iff}

abbrev with_gpu : CapabilitySet
with_gpu = record { capabilities = gpu ∷ [] }

abbrev manager : SecurityManager
manager = record {
  next_token = 3;
  issued =
      record { token = 1; pid = 7; cap = gpu } ∷ record { token = 2; pid = 8; cap = camera } ∷ [];
}

with_gpu-IsSetLike : IsSetLike with_gpu
with_gpu-IsSetLike a = ground arith

manager-IsFresh : IsFresh manager
manager-IsFresh = omega arith

revoke_lem_example : IsFresh (revoke manager 1)
revoke_lem_example = (revoke_lem manager 1 manager-IsFresh).0

check-verify_iff_example :
    (check manager 7 gpu ≡ granted tt) ↔ ((t : ℕ) × (verify_token manager t 7 ≡ granted gpu))
check-verify_iff_example = check-verify_iff manager 7 gpu manager-IsFresh
