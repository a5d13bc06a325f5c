-- ===== src/Scheduler/Quantum.antt =====
-- `Scheduler::current_quantum_ns`: the time slice of the running thread.
use zeroxos_os.Base.{
  dec_le, ◌-◌, ℕ, zero, suc, ◌*◌, ◌/◌, ◌%◌, ◌^◌, ◌≤◌, ◌<◌, max, ◌≡◌, refl, ◌⊎◌, inl, inr, Bool,
  true, false, ◌&&◌, none, some, List, ◌==◌, find, length, retain, arith, u64_mod,
}
use zeroxos_os.Scheduler.{
  Scheduler, SchedThread, Policy, mlfq, cfs, realtime, is_ready, mlfq_levels, mlfq_base_quantum_ns,
  cfs_target_latency_ns, cfs_min_granularity_ns,
}

abbrev is_cfs : SchedThread → Bool
is_cfs t = elim t.policy [ cfs ↦ true | _ ↦ false ]

-- The fair threads that are ready.
abbrev pub ready_cfs : List SchedThread → ℕ
ready_cfs ts = length (retain (λ t. is_cfs t && is_ready t) ts)

-- A shift of a `u64` counts modulo 64 in the release profile, and drops the bits that leave it.
abbrev pub shl64 : ℕ → ℕ → ℕ
shl64 a k = a * 2 ^ (k % 64) % u64_mod

pub slice_of : Scheduler → SchedThread → ℕ
slice_of s t = elim t.policy [
  | realtime _ ↦ u64_mod - 1
  | mlfq ↦ shl64 mlfq_base_quantum_ns t.mlfq_level
  | cfs ↦ max (cfs_target_latency_ns / max (ready_cfs s.threads) 1) cfs_min_granularity_ns
]

pub current_quantum_ns : Scheduler → ℕ
unfolding slice_of
current_quantum_ns s = elim s.current [
  | none ↦ 0
  | some id ↦ elim (find (λ t. t.id == id) s.threads) [ none ↦ 0 | some t ↦ slice_of s t ]
]

-- The slice of a queue below the number of queues: 1 ms, 2 ms, 4 ms or 8 ms.
shl64_level :
    (k : ℕ)
    → k < mlfq_levels
    → (shl64 mlfq_base_quantum_ns k ≡ mlfq_base_quantum_ns * 2 ^ k)
      × (mlfq_base_quantum_ns ≤ shl64 mlfq_base_quantum_ns k)
      × (shl64 mlfq_base_quantum_ns k ≤ 8 * mlfq_base_quantum_ns)
shl64_level zero h = (refl, omega arith, omega arith)
shl64_level (suc zero) h = (refl, omega arith, omega arith)
shl64_level (suc (suc zero)) h = (refl, omega arith, omega arith)
shl64_level (suc (suc (suc zero))) h = (refl, omega arith, omega arith)
shl64_level (suc (suc (suc (suc k)))) h = absurd (omega arith)

share_le : (n latency : ℕ) → n * (latency / max n 1) ≤ latency
share_le zero latency = omega arith
share_le (suc n) latency = let e : max (suc n) 1 ≡ suc n = omega arith in rw e (omega arith)

mul-max_le : (n a b latency : ℕ) → n * a ≤ latency → n * max a b ≤ max latency (n * b)
mul-max_le n a b latency h = elim (dec_le a b) [
  | yes p ↦ let e : max a b ≡ b = omega arith in rw e (omega arith)
  | no p ↦ let e : max a b ≡ a = omega arith in rw e (omega arith)
]

quotient-le : (n m : ℕ) → 0 < m → n / m ≤ n
quotient-le n m h = grind arith

-- What a slice promises, by policy: a real-time thread is never cut off; an interactive one gets
-- 1 ms doubled for each queue below the first; the ready fair threads share the target latency,
-- unless that would give each less than the least slice.
abbrev pub SliceBounds : Scheduler → SchedThread → Policy → ℕ → Type 0
SliceBounds s t (realtime _) q = q ≡ u64_mod - 1
SliceBounds s t mlfq q =
    (q ≡ mlfq_base_quantum_ns * 2 ^ t.mlfq_level)
    × (mlfq_base_quantum_ns ≤ q)
    × (q ≤ 8 * mlfq_base_quantum_ns)
SliceBounds s t cfs q =
    (cfs_min_granularity_ns ≤ q)
    × (q ≤ cfs_target_latency_ns)
    × (ready_cfs s.threads * q
        ≤ max cfs_target_latency_ns (ready_cfs s.threads * cfs_min_granularity_ns))

slice-SliceBounds :
    (s : Scheduler) (t : SchedThread) (p : Policy)
    → t.policy ≡ p
    → t.mlfq_level < mlfq_levels
    → SliceBounds s t p (slice_of s t)
unfolding slice_of
slice-SliceBounds s t (realtime r) e h = rw (e, slice_of)
slice-SliceBounds s t mlfq e h = rw (e, slice_of) (shl64_level t.mlfq_level h)
slice-SliceBounds s t cfs e h =
    rw (e, slice_of)
      (let n = ready_cfs s.threads in
        let share = cfs_target_latency_ns / max n 1 in
        let small : share ≤ cfs_target_latency_ns =
          quotient-le cfs_target_latency_ns (max n 1) (omega arith) in
        (
          omega arith,
          omega arith,
          mul-max_le n share cfs_min_granularity_ns cfs_target_latency_ns
              (share_le n cfs_target_latency_ns),
        ))

-- The slice of the current thread, where the scheduler has it and its queue level is in range, is:
-- without limit for a real-time thread; the base quantum doubled once per level, so at most eight
-- times it, for an interactive one; and for a fair one between the least slice and the target
-- latency, such that a slice for every ready fair thread fits into the target latency unless that
-- would give each less than the least slice.
pub current_quantum-SliceBounds :
    (s : Scheduler) (id : ℕ) (t : SchedThread)
    → s.current ≡ some id
    → find (λ u. u.id == id) s.threads ≡ some t
    → t.mlfq_level < mlfq_levels
    → SliceBounds s t t.policy (current_quantum_ns s)
unfolding current_quantum_ns
current_quantum-SliceBounds s id t e f h =
    rw (e, f, current_quantum_ns) (slice-SliceBounds s t t.policy refl h)

pub current_quantum_idle :
    (s : Scheduler)
    → (s.current ≡ none)
      ⊎ ((id : ℕ) × (s.current ≡ some id) × (find (λ u. u.id == id) s.threads ≡ none))
    → current_quantum_ns s ≡ 0
unfolding current_quantum_ns
current_quantum_idle s (inl e) = rw (e, current_quantum_ns)
current_quantum_idle s (inr (id, e, f)) = rw (e, f, current_quantum_ns)
