-- ===== src/Scheduler/Tests.antt =====
-- The scheduler's loops and theorems on a few threads.
use zeroxos_os.Base.{List, ◌≡◌, refl, true, false, none, some, [], ◌∷◌, arith}
use zeroxos_os.Base.Int.{pos, negsuc}
use zeroxos_os.Scheduler.{
  Scheduler, SchedThread, mlfq, realtime, ready, boost, scan_best, is_ready, deadline_of,
  realtime_of, effective_priority, mlfq_of, mlfq_better, cfs_of,
}
use zeroxos_os.Scheduler.Pick.{pick_next, Picked, pick_next-Picked}
use zeroxos_os.Scheduler.Ready.{Serves, pick_next-Serves}
use zeroxos_os.Scheduler.Quantum.{current_quantum_ns, SliceBounds, current_quantum-SliceBounds}
use zeroxos_os.Scheduler.Consistency.{
  Op, adds, removes, IsConsistent, picks, yields, ticks, run, run-IsConsistent,
}

abbrev idle_thread : SchedThread
idle_thread = record {
  id = 1;
  policy = mlfq;
  priority = pos 0;
  state = ready;
  cpu_affinity = 1;
  pinned_cpu = none;
  vruntime = 0;
  quantum_used = 0;
  mlfq_level = 2;
  frame_deadline_ns = none;
  is_game_render = false;
  is_game_physics = false;
  is_game_audio = false;
  last_run_ns = 0;
  total_run_ns = 0;
}

abbrev audio_thread : SchedThread
audio_thread = record idle_thread {
  id = 2;
  policy = realtime 90;
  frame_deadline_ns = some 5_000_000;
}

abbrev game_thread : SchedThread
game_thread = record idle_thread {
  id = 3;
  mlfq_level = 0;
  priority = negsuc 4;
  is_game_render = true;
}

abbrev shell_thread : SchedThread
shell_thread = record idle_thread { id = 4; mlfq_level = 0; priority = pos 3 }

abbrev scheduler : Scheduler
scheduler = record {
  threads = idle_thread ∷ audio_thread ∷ game_thread ∷ shell_thread ∷ [];
  current = some 1;
  gaming_mode = true;
  foreground_game = some 7;
  tick_count = 0;
  last_frame_complete_ns = 0;
}

program : Unit {0}
unfolding pick_next scan_best is_ready deadline_of realtime_of effective_priority boost mlfq_of
    mlfq_better cfs_of
program = tt

-- The real-time thread runs, whether or not its deadline is near.
picks_audio : (pick_next scheduler 0).0 ≡ some 2
unfolding program
picks_audio = refl

-- In gaming mode the game's thread goes before one of a higher base priority.
picks_game :
    (pick_next (record scheduler { threads = idle_thread ∷ shell_thread ∷ game_thread ∷ [] }) 0).0
    ≡ some 3
unfolding program
picks_game = refl

picks_shell :
    (pick_next
      (record scheduler {
        threads = idle_thread ∷ shell_thread ∷ game_thread ∷ [];
        gaming_mode = false;
      })
      0).0
    ≡ some 4
unfolding program
picks_shell = refl

pick_next-Picked_example : Picked scheduler 0 (pick_next scheduler 0)
pick_next-Picked_example = pick_next-Picked scheduler 0

pick_next-Serves_example : Serves scheduler (pick_next scheduler 0).0
pick_next-Serves_example = pick_next-Serves scheduler 0

current_quantum-SliceBounds_example :
    SliceBounds scheduler idle_thread mlfq (current_quantum_ns scheduler)
current_quantum-SliceBounds_example =
    current_quantum-SliceBounds scheduler 1 idle_thread refl refl (omega arith)

scheduler-IsConsistent : IsConsistent scheduler
scheduler-IsConsistent = record { levels = omega arith; known = refl }

abbrev history : List Op
history = picks 0 ∷ adds shell_thread ∷ ticks ∷ yields 2 ∷ removes 1 ∷ picks 7 ∷ []

run-IsConsistent_example : IsConsistent (run scheduler history)
run-IsConsistent_example = run-IsConsistent scheduler history (omega arith) scheduler-IsConsistent
