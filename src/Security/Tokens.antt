-- ===== src/Security/Tokens.antt =====
-- The tokens of `SecurityManager`: what verifies and what is checked after a grant or a
-- revocation.
use zeroxos_os.Base.{
  ℕ, suc, ◌+◌, ◌≤◌, ◌<◌, ◌≡◌, refl, ◌↔◌, inl, inr, Bool-cases, ◌&&◌, List, [], ◌∷◌, if◌then◌else◌,
  ◌==◌, push, arith, add64, u64_mod,
}
use zeroxos_os.Security.{
  Capability, cap_eq, cap_eq_iff, Issued, SecurityManager, granted, denied, invalid_token, grant,
  remove_token, revoke, check_loop, check, verify_loop, verify_token,
}

-- The tokens rise along the list, from `lo` on and below `hi`.
abbrev pub Rising : ℕ → ℕ → List Issued → Type 0
Rising lo hi [] = lo ≤ hi
Rising lo hi (e ∷ l) = (lo ≤ e.token) × (e.token < hi) × Rising (suc e.token) hi l

abbrev pub IsFresh : SecurityManager → Type 0
IsFresh m = Rising 0 m.next_token m.issued

Rising-push :
    (lo hi : ℕ) (l : List Issued) (e : Issued)
    → Rising lo hi l
    → e.token ≡ hi
    → Rising lo (suc hi) (push l e)
Rising-push lo hi [] e h at = (omega arith, omega arith, omega arith)
Rising-push lo hi (x ∷ l) e h at = (h.0, omega arith, Rising-push (suc x.token) hi l e h.2 at)

Rising-lower : (lo lo' hi : ℕ) (l : List Issued) → lo' ≤ lo → Rising lo hi l → Rising lo' hi l
Rising-lower lo lo' hi [] le h = omega arith
Rising-lower lo lo' hi (e ∷ l) le h = (omega arith, h.1, h.2)

Rising-remove : (t lo hi : ℕ) (l : List Issued) → Rising lo hi l → Rising lo hi (remove_token t l)
unfolding remove_token
Rising-remove t lo hi [] h = h
Rising-remove t lo hi (e ∷ l) h = elim (Bool-cases (e.token == t)) [
  | inl hit ↦ rw hit (Rising-lower (suc e.token) lo hi l (omega arith) h.2)
  | inr miss ↦ rw miss (h.0, h.1, Rising-remove t (suc e.token) hi l h.2)
]

-- A token below the bound is not in the list.
verify_below :
    (t lo hi pid : ℕ) (l : List Issued)
    → Rising lo hi l
    → t < lo
    → verify_loop l t pid ≡ denied invalid_token
unfolding verify_loop
verify_below t lo hi pid [] h lt = refl
verify_below t lo hi pid (e ∷ l) h lt = ground (arith, verify_below t (suc e.token) hi pid l h.2)

verify-push :
    (lo hi t pid : ℕ) (l : List Issued) (e : Issued)
    → Rising lo hi l
    → e.token ≡ hi
    → verify_loop (push l e) t pid
      ≡ (if e.token == t && e.pid == pid then granted e.cap else verify_loop l t pid)
unfolding verify_loop
verify-push lo hi t pid [] e h at = refl
verify-push lo hi t pid (x ∷ l) e h at = ground (arith, verify-push (suc x.token) hi t pid l e h.2)

verify-remove :
    (t u lo hi pid : ℕ) (l : List Issued)
    → Rising lo hi l
    → verify_loop (remove_token t l) u pid
      ≡ (if t == u then denied invalid_token else verify_loop l u pid)
unfolding verify_loop remove_token
verify-remove t u lo hi pid [] h = ground arith
verify-remove t u lo hi pid (e ∷ l) h =
    ground (
      arith,
      verify-remove t u (suc e.token) hi pid l h.2,
      verify_below u (suc e.token) hi pid l h.2,
    )

check-push :
    (pid : ℕ) (cap : Capability) (l : List Issued) (e : Issued)
    → check_loop (push l e) pid cap
      ≡ (if e.pid == pid && cap_eq e.cap cap then granted tt else check_loop l pid cap)
unfolding check_loop
check-push pid cap [] e = refl
check-push pid cap (x ∷ l) e = ground (arith, check-push pid cap l e)

-- In a manager whose tokens were issued in rising order, with a next token that does not wrap
-- around, a grant issues the next token: it verifies for its process only, with the capability
-- granted; all other tokens verify as before, a check passes as before or by the grant, and the
-- order is kept.
pub grant_lem :
    (m : SecurityManager) (pid : ℕ) (cap : Capability)
    → IsFresh m
    → m.next_token + 1 < u64_mod
    → let (token, m') = grant m pid cap in
      IsFresh m'
      × ((u p : ℕ)
          → verify_token m' u p
            ≡ (if token == u && pid == p then granted cap else verify_token m u p))
      × ((p : ℕ) (c : Capability)
          → check m' p c ≡ (if pid == p && cap_eq cap c then granted tt else check m p c))
unfolding grant verify_token check
grant_lem m pid cap h fits =
    let plain : add64 m.next_token 1 ≡ suc m.next_token = omega arith in
    (
      rw plain (Rising-push 0 m.next_token m.issued _ h refl),
      λ u p. verify-push 0 m.next_token u p m.issued _ h refl,
      λ p c. check-push p c m.issued _,
    )

-- In a manager whose tokens were issued in rising order below the next one, a token that is
-- revoked verifies for no process any more, every other token verifies as before, and the order is
-- kept.
pub revoke_lem :
    (m : SecurityManager) (token : ℕ)
    → IsFresh m
    → IsFresh (revoke m token)
      × ((u p : ℕ)
          → verify_token (revoke m token) u p
            ≡ (if token == u then denied invalid_token else verify_token m u p))
unfolding revoke verify_token
revoke_lem m token h = (
  Rising-remove token 0 m.next_token m.issued h,
  λ u p. verify-remove token u 0 m.next_token p m.issued h,
)

check→verify :
    (lo hi pid : ℕ) (cap : Capability) (l : List Issued)
    → Rising lo hi l
    → check_loop l pid cap ≡ granted tt
    → (t : ℕ) × (lo ≤ t) × (verify_loop l t pid ≡ granted cap)
unfolding check_loop verify_loop
check→verify lo hi pid cap [] h e = absurd (cc)
check→verify lo hi pid cap (x ∷ l) h e = elim (Bool-cases (x.pid == pid && cap_eq x.cap cap)) [
  | inl hit ↦ (x.token, h.0, ground (arith, cap_eq_iff x.cap cap))
  | inr miss ↦
      let (t, low, v) = check→verify (suc x.token) hi pid cap l h.2 (ground arith) in
      (t, omega arith, ground arith)
]

verify→check :
    (pid t : ℕ) (cap : Capability) (l : List Issued)
    → verify_loop l t pid ≡ granted cap
    → check_loop l pid cap ≡ granted tt
unfolding check_loop verify_loop
verify→check pid t cap [] e = absurd (cc)
verify→check pid t cap (x ∷ l) e = ground (arith, verify→check pid t cap l, cap_eq_iff x.cap cap)

-- In a manager whose tokens were issued in rising order below the next one, a process passes the
-- check for a capability exactly when some token verifies for it with that capability: there is no
-- other authority.
pub check-verify_iff :
    (m : SecurityManager) (pid : ℕ) (cap : Capability)
    → IsFresh m
    → (check m pid cap ≡ granted tt) ↔ ((t : ℕ) × (verify_token m t pid ≡ granted cap))
unfolding check verify_token
check-verify_iff m pid cap h = (
  λ e. let (t, _, v) = check→verify 0 m.next_token pid cap m.issued h e in (t, v),
  λ w. verify→check pid w.0 cap m.issued w.1,
)
