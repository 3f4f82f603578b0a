-- ===== src/Tests/Processes.antt =====
-- Runs of a process with two tasks, and times to wait.
use mqtt_s_gateway.Base.{
  Str, ℕ, ◌+◌, ◌*◌, ◌≤◌, ◌<◌, ◌≡◌, refl, ◌⊎◌, true, none, some, List, [], ◌∷◌, get_elem?,
}
use mqtt_s_gateway.Process.{
  Exception, is_fatal, running, Thread, new_thread, initialize_thread, initialize, throws,
}
use mqtt_s_gateway.Process.Deadline.{Timespec, deadline, nanoseconds, deadline-Early}
use mqtt_s_gateway.Process.Running.{
  starting, waiting, Program, set_phase, move, advance, end_task, main_thread, Run, stay, next,
  main, with_threads,
}
use mqtt_s_gateway.Process.Waiting.{Run-Waits}

-- "1", the number of the gateway.
abbrev arguments : List Str
arguments = (b'1' ∷ []) ∷ []

abbrev two_tasks : Program
two_tasks = main 1 arguments (with_threads 2)

abbrev first_started : Program
first_started =
    move two_tasks (starting 1)
      (set_phase 0 running (initialize_thread 1 arguments new_thread) two_tasks.process)

starts_first : Run two_tasks first_started
unfolding main initialize with_threads new_thread advance
starts_first = next stay (main_thread refl)

Run-Waits_example :
    (first_started.process.stop_count ≡ 0)
    × (((i : ℕ) × (first_started.stage ≡ starting i)) ⊎ (first_started.stage ≡ waiting))
    × ((i : ℕ) (t : Thread) (ex : Exception)
        → get_elem? first_started.process.threads i ≡ some t
        → is_fatal ex ≡ true
        → end_task first_started i t (throws ex) ≡ none)
Run-Waits_example = Run-Waits 2 1 arguments first_started starts_first

abbrev late_in_second : Timespec
late_in_second = record { tv_sec = 5; tv_nsec = 900000000 }

deadline-Early_example :
    (nanoseconds (deadline late_in_second 1500) + late_in_second.tv_nsec
      ≡ nanoseconds late_in_second + 1500 * 1000000)
    × (1500 * 1000000 ≤ late_in_second.tv_nsec
        → nanoseconds (deadline late_in_second 1500) ≤ nanoseconds late_in_second)
    × ((deadline late_in_second 1500).tv_nsec < 1000000000)
deadline-Early_example = deadline-Early late_in_second 1500
