-- ===== src/Process/Running.antt =====
-- MultiTaskProcess::run of TomyGateway/src/libmq/ProcessFramework.cpp beside the threads that it
-- starts: each call of the main thread and each end of a task is a step.
use mqtt_s_gateway.Base.{
  Str, ℕ, zero, suc, ◌+◌, ◌-◌, ◌≡◌, Option, none, some, List, [], ◌∷◌, ◌++◌, ltb, if◌then◌else◌,
  get_elem?, set, ◌>>=◌,
}
use mqtt_s_gateway.Process.{
  Written, Phase, running, cancelled, ended, joined, Thread, MultiTaskProcess, new_process,
  new_thread, attach, initialize, Ending, exec_run,
}

-- Where the main thread stands: before the call of start for the thread of that number, before the wait
-- for the stop event, before cancel or before join for the thread of that number, or behind run.
pub data Stage : Type 0 where
  starting : ℕ → Stage
  waiting : Stage
  cancelling : ℕ → Stage
  joining : ℕ → Stage
  finished : Stage

pub record Program : Type 0 where
  pub process : MultiTaskProcess
  pub stage : Stage
  pub console : List Written

abbrev pub set_phase : ℕ → Phase → Thread → MultiTaskProcess → MultiTaskProcess
set_phase i phase t p = record p { threads = set p.threads i (record t { phase = phase }) }

-- pthread_create, which succeeds, pthread_cancel and pthread_join. A thread that has not ended keeps
-- pthread_join waiting.
abbrev pub after_cancel : Phase → Phase
after_cancel phase = elim phase [ running ↦ cancelled | other ↦ other ]

abbrev pub after_join : Phase → Option Phase
after_join phase = elim phase [ ended ↦ some joined | other ↦ none ]

abbrev pub move : Program → Stage → MultiTaskProcess → Program
move g stage p = record g { process = p; stage = stage }

-- The next call of the main thread in run: `none` while it blocks and when run has returned.
unfoldable pub advance : Program → Option Program
advance g =
    let p = g.process in
    elim g.stage [
      | starting i ↦ some (elim (get_elem? p.threads i) [
        | none ↦ move g waiting p
        | some t ↦ move g (starting (i + 1)) (set_phase i running t p)
      ])
      | waiting ↦
          if ltb 0 p.stop_count
          then some (move g (cancelling 0) (record p { stop_count = p.stop_count - 1 }))
          else none
      | cancelling i ↦ some (elim (get_elem? p.threads i) [
        | none ↦ move g finished p
        | some t ↦ move g (joining i) (set_phase i (after_cancel t.phase) t p)
      ])
      | joining i ↦ get_elem? p.threads i >>= λ t.
          (after_join t.phase >>= λ phase.
          some (move g (cancelling (i + 1)) (set_phase i phase t p)))
      | finished ↦ none
    ]

-- The end of the task of a thread that runs, or that was cancelled and comes to a cancellation point.
-- `none` is a fault.
unfoldable pub end_task : Program → ℕ → Thread → Ending → Option Program
end_task g i t how = exec_run t how g.process >>= λ (p, line). some (record g {
  process = set_phase i ended t p;
  console = elim line [ none ↦ g.console | some text ↦ g.console ++ text ∷ [] ];
})

-- The steps of a program.
pub data Step : Program → Program → Type 0 where
  main_thread : {g h : Program} → advance g ≡ some h → Step g h
  task :
      {g h : Program} (i : ℕ) (t : Thread) (how : Ending)
      → get_elem? g.process.threads i ≡ some t
      → t.phase ≡ running
      → end_task g i t how ≡ some h
      → Step g h
  cancellation :
      {g : Program} (i : ℕ) (t : Thread)
      → get_elem? g.process.threads i ≡ some t
      → t.phase ≡ cancelled
      → Step g (record g { process = set_phase i ended t g.process })

pub data Run : Program → Program → Type 0 where
  stay : {g : Program} → Run g g
  next : {g h k : Program} → Run g h → Step h k → Run g k

-- main: the process after its threads were attached, when run is called.
unfoldable pub main : ℕ → List Str → MultiTaskProcess → Program
main argc argv p = record { process = initialize argc argv p; stage = starting 0; console = [] }

-- The process with a number of threads attached, in static storage.
unfoldable pub with_threads : ℕ → MultiTaskProcess
with_threads zero = new_process 0
with_threads (suc n) = attach (with_threads n) new_thread
