-- ===== src/Scheduler.antt =====
-- crates/zerox-kernel/src/scheduler.rs. Time, which the code reads from the HAL's timer, is an
-- argument of the operations that read it. Log output is left out.
pub mod Best
pub mod Pick
pub mod Ready
pub mod Quantum
pub mod State
pub mod Consistency
mod Tests
use zeroxos_os.Base.{
  ℕ, ◌+◌, ◌-◌, ◌*◌, ◌/◌, ◌%◌, ◌^◌, min, max, Bool, true, false, ◌&&◌, ◌||◌, not, Option, none, some,
  List, [], ◌∷◌, if◌then◌else◌, ◌==◌, ltb, leb, length, push, retain, find, update_first,
  is_some_eq, add64, u64_mod,
}
use zeroxos_os.Base.Int.{ℤ, pos, negsuc, ltb_ℤ, clamp, saturating_add8}

pub data Policy : Type 0 where
  mlfq cfs : Policy
  realtime : ℕ → Policy

-- `Priority(i8)`
abbrev pub Priority : Type 0
Priority = ℤ

pub boost : Priority → ℤ → Priority
boost p delta = clamp (negsuc 19) (pos 20) (saturating_add8 p delta)

pub data ThreadState : Type 0 where
  ready running blocked : ThreadState
  sleeping : ℕ → ThreadState
  exited : ThreadState

pub record SchedThread : Type 0 where
  pub id : ℕ
  pub policy : Policy
  pub priority : Priority
  pub state : ThreadState
  pub cpu_affinity : ℕ
  pub pinned_cpu : Option ℕ
  pub vruntime : ℕ
  pub quantum_used : ℕ
  pub mlfq_level : ℕ
  pub frame_deadline_ns : Option ℕ
  pub is_game_render : Bool
  pub is_game_physics : Bool
  pub is_game_audio : Bool
  pub last_run_ns : ℕ
  pub total_run_ns : ℕ

pub new_thread : ℕ → SchedThread
new_thread id = record {
  id = id;
  policy = mlfq;
  priority = pos 0;
  state = ready;
  cpu_affinity = u64_mod - 1;
  pinned_cpu = none;
  vruntime = 0;
  quantum_used = 0;
  mlfq_level = 0;
  frame_deadline_ns = none;
  is_game_render = false;
  is_game_physics = false;
  is_game_audio = false;
  last_run_ns = 0;
  total_run_ns = 0;
}

abbrev pub mlfq_levels : ℕ
mlfq_levels = 4

abbrev pub mlfq_base_quantum_ns : ℕ
mlfq_base_quantum_ns = 1_000_000

abbrev pub cfs_target_latency_ns : ℕ
cfs_target_latency_ns = 6_000_000

abbrev pub cfs_min_granularity_ns : ℕ
cfs_min_granularity_ns = 750_000

pub record Scheduler : Type 0 where
  pub threads : List SchedThread
  pub current : Option ℕ
  pub gaming_mode : Bool
  pub foreground_game : Option ℕ
  pub tick_count : ℕ
  pub last_frame_complete_ns : ℕ

pub new : Scheduler
new = record {
  threads = [];
  current = none;
  gaming_mode = false;
  foreground_game = none;
  tick_count = 0;
  last_frame_complete_ns = 0;
}

pub add_thread : Scheduler → SchedThread → Scheduler
add_thread s t = record s { threads = push s.threads t }

pub remove_thread : Scheduler → ℕ → Scheduler
remove_thread s id = record s {
  threads = retain (λ t. not (t.id == id)) s.threads;
  current = if is_some_eq s.current id then none else s.current;
}

pub set_gaming_mode : Scheduler → Bool → Option ℕ → Scheduler
set_gaming_mode s enabled game_pid = record s { gaming_mode = enabled; foreground_game = game_pid }

pub tick : Scheduler → Scheduler
tick s = record s { tick_count = add64 s.tick_count 1 }

pub is_ready : SchedThread → Bool
is_ready t = elim t.state [ ready ↦ true | _ ↦ false ]

-- The four loops of `pick_next` are one: a thread that is a candidate takes the place of the best
-- one so far if there is none yet or its key is better.
pub scan_best {ℓ} :
    {K : Type ℓ}
    → (SchedThread → Option (ℕ × K))
    → (K → K → Bool)
    → Option (ℕ × K)
    → List SchedThread
    → Option (ℕ × K)
scan_best cand better best [] = best
scan_best cand better best (t ∷ ts) =
    scan_best cand better
      (elim (cand t) [
        | none ↦ best
        | some (id, k) ↦ elim best [
          | none ↦ some (id, k)
          | some (id', k') ↦ if better k k' then some (id, k) else some (id', k')
        ]
      ])
      ts

-- A ready real-time thread with a frame deadline.
pub deadline_of : SchedThread → Option (ℕ × ℕ)
deadline_of t =
    if is_ready t
    then (elim t.policy [
      | realtime _ ↦ elim t.frame_deadline_ns [ some d ↦ some (t.id, d) | none ↦ none ]
      | _ ↦ none
    ])
    else none

-- A ready real-time thread.
pub realtime_of : SchedThread → Option (ℕ × ℕ)
realtime_of t =
    if is_ready t then (elim t.policy [ realtime p ↦ some (t.id, p) | _ ↦ none ]) else none

-- The priority that counts: gaming mode lifts a game's threads and lowers all others.
pub effective_priority : Bool → SchedThread → Priority
effective_priority gaming t =
    if gaming
    then (if t.is_game_render || t.is_game_physics || t.is_game_audio
        then boost t.priority (pos 20)
        else boost t.priority (negsuc 9))
    else t.priority

pub mlfq_of : Bool → SchedThread → Option (ℕ × (ℕ × Priority))
mlfq_of gaming t =
    if is_ready t
    then (elim t.policy [
      | mlfq ↦ some (t.id, (t.mlfq_level, effective_priority gaming t))
      | _ ↦ none
    ])
    else none

-- A lower level number, or the same level and a higher priority.
pub mlfq_better : ℕ × Priority → ℕ × Priority → Bool
mlfq_better (level, prio) (l, p) = ltb level l || (level == l && ltb_ℤ p prio)

pub cfs_of : SchedThread → Option (ℕ × ℕ)
cfs_of t = if is_ready t then (elim t.policy [ cfs ↦ some (t.id, t.vruntime) | _ ↦ none ]) else none
