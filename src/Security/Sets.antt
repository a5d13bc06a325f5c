-- ===== src/Security/Sets.antt =====
-- `CapabilitySet` after a grant and after a revocation.
use zeroxos_os.Base.{
  ℕ, ◌+◌, ◌≤◌, ◌≡◌, refl, inl, inr, Bool-cases, Bool, false, ◌&&◌, ◌||◌, not, List, [], ◌∷◌,
  if◌then◌else◌, push, retain, arith,
}
use zeroxos_os.Security.{
  Capability, cap_eq, cap_eq_iff, CapabilitySet, contains, set_grant, set_revoke, set_has,
  set_check, denied, missing_capability,
}

contains-push :
    (l : List Capability) (a b : Capability) → contains (push l a) b ≡ (contains l b || cap_eq a b)
unfolding contains
contains-push [] a b = ground arith
contains-push (c ∷ l) a b = ground (arith, contains-push l a b)

contains-retain :
    (l : List Capability) (a b : Capability)
    → contains (retain (λ c. not (cap_eq c a)) l) b ≡ (contains l b && not (cap_eq a b))
unfolding contains
contains-retain [] a b = refl
contains-retain (c ∷ l) a b =
    ground (arith, contains-retain l a b, cap_eq_iff c a, cap_eq_iff c b, cap_eq_iff a b)

-- How often a set lists a capability.
abbrev pub listed : Capability → List Capability → ℕ
listed a [] = 0
listed a (c ∷ l) = (if cap_eq c a then 1 else 0) + listed a l

listed-push :
    (l : List Capability) (a b : Capability)
    → listed b (push l a) ≡ listed b l + (if cap_eq a b then 1 else 0)
listed-push [] a b = omega arith
listed-push (c ∷ l) a b = omega (arith, listed-push l a b)

listed-retain-le :
    (keep : Capability → Bool) (l : List Capability) (b : Capability)
    → listed b (retain keep l) ≤ listed b l
listed-retain-le keep [] b = omega arith
listed-retain-le keep (c ∷ l) b = ground (arith, listed-retain-le keep l b)

listed_absent : (l : List Capability) (b : Capability) → contains l b ≡ false → listed b l ≡ 0
unfolding contains
listed_absent [] b h = refl
listed_absent (c ∷ l) b h = ground (arith, listed_absent l b)

abbrev pub IsSetLike : CapabilitySet → Type 0
IsSetLike s = (a : Capability) → listed a s.capabilities ≤ 1

-- A grant to a capability set that holds each capability at most once adds the capability and no
-- other, and the set still holds each at most once.
pub set_grant_lem :
    (s : CapabilitySet) (a : Capability)
    → IsSetLike s
    → IsSetLike (set_grant s a)
      × ((b : Capability) → set_has (set_grant s a) b ≡ (set_has s b || cap_eq a b))
unfolding set_grant set_has
set_grant_lem s a h = elim (Bool-cases (contains s.capabilities a)) [
  | inl old ↦ rw (old, set_grant) (h, λ b. ground (arith, cap_eq_iff a b))
  | inr new ↦
      rw (new, set_grant)
        (
          λ b. ground (
            arith,
            h b,
            listed-push s.capabilities a b,
            listed_absent s.capabilities a new,
            cap_eq_iff a b,
          ),
          contains-push s.capabilities a,
        )
]

-- A revocation from a capability set that holds each capability at most once takes the capability
-- away and no other, the set still holds each at most once, and the check for the capability is
-- then refused.
pub set_revoke_lem :
    (s : CapabilitySet) (a : Capability)
    → IsSetLike s
    → IsSetLike (set_revoke s a)
      × ((b : Capability) → set_has (set_revoke s a) b ≡ (set_has s b && not (cap_eq a b)))
      × (set_check (set_revoke s a) a ≡ denied missing_capability)
unfolding set_revoke set_has set_check
set_revoke_lem s a h = (
  λ b. ground (arith, h b, listed-retain-le (λ c. not (cap_eq c a)) s.capabilities b),
  λ b. contains-retain s.capabilities a b,
  ground (arith, contains-retain s.capabilities a a, cap_eq_iff a a),
)
