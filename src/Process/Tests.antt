-- ===== src/Process/Tests.antt =====
-- The process table on concrete calls, and the theorems of process.rs on them.
use zeroxos_os.Base.{arith, ◌≡◌, refl}
use zeroxos_os.Process.{
  new_thread, ProcessTable, new_table, spawn, spawn_thread, process_count, thread_count,
}
use zeroxos_os.Process.Tables.{IsFresh, spawn_lem}

abbrev two_processes : ProcessTable
two_processes = (spawn (spawn_thread (spawn new_table "init" 5).1 1).1 "game" 9).1

two_processes-counts : (process_count two_processes ≡ 2) × (thread_count two_processes ≡ 1)
unfolding process_count thread_count spawn spawn_thread new_table
two_processes-counts = (refl, refl)

two_processes-next : (two_processes.next_pid ≡ 3) × (two_processes.next_tid ≡ 2)
unfolding spawn spawn_thread new_table
two_processes-next = (refl, refl)

two_processes-IsFresh : IsFresh two_processes
unfolding spawn spawn_thread new_table new_thread
two_processes-IsFresh = record { pids = (omega arith, (omega arith, tt)); tids = (omega arith, tt) }

spawn_lem_example : IsFresh (spawn two_processes "shell" 11).1
spawn_lem_example =
    (spawn_lem two_processes "shell" 11 two_processes-IsFresh (omega (arith, two_processes-next))).0
