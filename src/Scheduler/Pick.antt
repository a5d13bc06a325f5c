-- ===== src/Scheduler/Pick.antt =====
-- `Scheduler::pick_next`: which thread runs next, class by class.
use zeroxos_os.Base.{
  ℕ, ◌≤◌, ◌<◌, ◌≡◌, refl, ◌⊎◌, inl, inr, Bool-cases, Bool, true, false, Option, none, some,
  if◌then◌else◌, ltb, leb, All, arith, add64,
}
use zeroxos_os.Scheduler.{
  Scheduler, Priority, scan_best, deadline_of, realtime_of, mlfq_of, mlfq_better, cfs_of,
}
use zeroxos_os.Scheduler.Best.{IsRanking, IsFirstBest, IsNone, Selects, scan-Selects}

-- A later deadline is worse, a higher real-time priority is better, a higher `vruntime` is worse.
abbrev pub sooner : ℕ → ℕ → Bool
sooner a b = ltb a b

abbrev pub higher : ℕ → ℕ → Bool
higher a b = ltb b a

-- `self.current = Some(id); return Some(id)`
abbrev chosen : Scheduler → ℕ → Option ℕ × Scheduler
chosen s id = (some id, record s { current = some id })

-- The last loop, then no thread at all.
pub pick_cfs : Scheduler → Option ℕ × Scheduler
pick_cfs s = elim (scan_best cfs_of sooner none s.threads) [
  | some (id, _) ↦ chosen s id
  | none ↦ (none, record s { current = none })
]

pub pick_mlfq : Scheduler → Option ℕ × Scheduler
pick_mlfq s = elim (scan_best (mlfq_of s.gaming_mode) mlfq_better none s.threads) [
  | some (id, _) ↦ chosen s id
  | none ↦ pick_cfs s
]

pub pick_realtime : Scheduler → Option ℕ × Scheduler
pick_realtime s = elim (scan_best realtime_of higher none s.threads) [
  | some (id, _) ↦ chosen s id
  | none ↦ pick_mlfq s
]

-- `now` is the time that the call reads.
unfoldable pub pick_next : Scheduler → ℕ → Option ℕ × Scheduler
unfolding pick_realtime pick_mlfq pick_cfs
pick_next s now = elim (scan_best deadline_of sooner none s.threads) [
  | some (id, deadline) ↦
      if leb deadline (add64 now 1_000_000) then chosen s id else pick_realtime s
  | none ↦ pick_realtime s
]

sooner-IsRanking : IsRanking sooner
sooner-IsRanking = record {
  chain = λ a b c p q. ground arith;
  over = λ a b c p q. ground arith;
  under = λ a b c p q. ground arith;
}

higher-IsRanking : IsRanking higher
higher-IsRanking = record {
  chain = λ a b c p q. ground arith;
  over = λ a b c p q. ground arith;
  under = λ a b c p q. ground arith;
}

mlfq_chain :
    (a b c : ℕ × Priority)
    → mlfq_better a b ≡ true
    → mlfq_better b c ≡ true
    → mlfq_better a c ≡ true
unfolding mlfq_better
mlfq_chain (l, p) (m, q) (n, r) e f = ground arith

mlfq_over :
    (a b c : ℕ × Priority)
    → mlfq_better a b ≡ true
    → mlfq_better c b ≡ false
    → mlfq_better a c ≡ true
unfolding mlfq_better
mlfq_over (l, p) (m, q) (n, r) e f = ground arith

mlfq_under :
    (a b c : ℕ × Priority)
    → mlfq_better a b ≡ true
    → mlfq_better c b ≡ false
    → mlfq_better c a ≡ false
unfolding mlfq_better
mlfq_under (l, p) (m, q) (n, r) e f = ground arith

mlfq-IsRanking : IsRanking mlfq_better
mlfq-IsRanking = record { chain = mlfq_chain; over = mlfq_over; under = mlfq_under }

abbrev pub horizon : ℕ → ℕ
horizon now = add64 now 1_000_000

-- No frame deadline falls within the next millisecond.
abbrev pub NoImminent : Scheduler → ℕ → Type 0
NoImminent s now =
    All (IsNone deadline_of) s.threads
    ⊎ ((id : ℕ) × (d : ℕ) × IsFirstBest deadline_of sooner s.threads id d × (horizon now < d))

-- The policy, as the comment on `pick_next` gives it. Within a class ties go to the thread that was
-- added first.
pub data Picks (s : Scheduler) (now : ℕ) : Option ℕ → Type 0 where
  by_deadline :
      (id d : ℕ)
      → IsFirstBest deadline_of sooner s.threads id d
      → d ≤ horizon now
      → Picks s now (some id)
  by_priority :
      (id p : ℕ)
      → NoImminent s now
      → IsFirstBest realtime_of higher s.threads id p
      → Picks s now (some id)
  by_level :
      (id : ℕ) (k : ℕ × Priority)
      → All (IsNone realtime_of) s.threads
      → IsFirstBest (mlfq_of s.gaming_mode) mlfq_better s.threads id k
      → Picks s now (some id)
  by_vruntime :
      (id v : ℕ)
      → All (IsNone realtime_of) s.threads
      → All (IsNone (mlfq_of s.gaming_mode)) s.threads
      → IsFirstBest cfs_of sooner s.threads id v
      → Picks s now (some id)
  idle :
      All (IsNone realtime_of) s.threads
      → All (IsNone (mlfq_of s.gaming_mode)) s.threads
      → All (IsNone cfs_of) s.threads
      → Picks s now none

-- The choice fits the policy, and is what `current` then names; nothing else changes.
abbrev pub Picked : Scheduler → ℕ → Option ℕ × Scheduler → Type 0
Picked s now (r, s') = Picks s now r × (s' ≡ record s { current = r })

pick_cfs-Picked :
    (s : Scheduler) (now : ℕ) (r : Option (ℕ × ℕ))
    → All (IsNone realtime_of) s.threads
    → All (IsNone (mlfq_of s.gaming_mode)) s.threads
    → Selects cfs_of sooner s.threads r
    → Picked s now
        (elim r [ some (id, _) ↦ chosen s id | none ↦ (none, record s { current = none }) ])
pick_cfs-Picked s now none a b h = (idle a b h, refl)
pick_cfs-Picked s now (some (id, v)) a b h = (by_vruntime id v a b h, refl)

pick_mlfq-Picked :
    (s : Scheduler) (now : ℕ) (r : Option (ℕ × (ℕ × Priority)))
    → All (IsNone realtime_of) s.threads
    → Selects (mlfq_of s.gaming_mode) mlfq_better s.threads r
    → Picked s now (elim r [ some (id, _) ↦ chosen s id | none ↦ pick_cfs s ])
unfolding pick_cfs
pick_mlfq-Picked s now none a h =
    pick_cfs-Picked s now (scan_best cfs_of sooner none s.threads) a h
      (scan-Selects cfs_of sooner sooner-IsRanking s.threads)
pick_mlfq-Picked s now (some (id, k)) a h = (by_level id k a h, refl)

pick_realtime-Picked :
    (s : Scheduler) (now : ℕ) (r : Option (ℕ × ℕ))
    → NoImminent s now
    → Selects realtime_of higher s.threads r
    → Picked s now (elim r [ some (id, _) ↦ chosen s id | none ↦ pick_mlfq s ])
unfolding pick_mlfq
pick_realtime-Picked s now none a h =
    pick_mlfq-Picked s now (scan_best (mlfq_of s.gaming_mode) mlfq_better none s.threads) h
      (scan-Selects (mlfq_of s.gaming_mode) mlfq_better mlfq-IsRanking s.threads)
pick_realtime-Picked s now (some (id, p)) a h = (by_priority id p a h, refl)

pick_after_deadlines : (s : Scheduler) (now : ℕ) → NoImminent s now → Picked s now (pick_realtime s)
unfolding pick_realtime
pick_after_deadlines s now a =
    pick_realtime-Picked s now (scan_best realtime_of higher none s.threads) a
      (scan-Selects realtime_of higher higher-IsRanking s.threads)

pick_deadline-Picked :
    (s : Scheduler) (now : ℕ) (r : Option (ℕ × ℕ))
    → Selects deadline_of sooner s.threads r
    → Picked s now (elim r [
      | some (id, deadline) ↦ if leb deadline (horizon now) then chosen s id else pick_realtime s
      | none ↦ pick_realtime s
    ])
pick_deadline-Picked s now none h = pick_after_deadlines s now (inl h)
pick_deadline-Picked s now (some (id, d)) h = elim (Bool-cases (leb d (horizon now))) [
  | inl e ↦ rw e (by_deadline id d h (ground arith), refl)
  | inr e ↦ rw e (pick_after_deadlines s now (inr (id, d, h, ground arith)))
]

-- `pick_next` follows the policy, for every scheduler and clock value: the real-time thread with
-- the nearest frame deadline, if that falls within a millisecond; else the real-time thread of the
-- highest priority; else the interactive thread of the highest queue and then of the highest
-- effective priority; else the fair thread that ran least; else none. Of equals it takes the one
-- that was added first. `current` becomes the choice, and nothing else changes.
pub pick_next-Picked : (s : Scheduler) (now : ℕ) → Picked s now (pick_next s now)
unfolding pick_next
pick_next-Picked s now =
    pick_deadline-Picked s now (scan_best deadline_of sooner none s.threads)
      (scan-Selects deadline_of sooner sooner-IsRanking s.threads)
