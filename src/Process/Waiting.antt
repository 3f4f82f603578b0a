-- ===== src/Process/Waiting.antt =====
-- Why the process of TomyGateway/src/libmq/ProcessFramework.cpp never stops: the constructor of Thread
-- leaves a NULL pointer to the stop event.
use mqtt_s_gateway.Base.{
  Str, ℕ, zero, suc, ◌+◌, ◌≡◌, refl, sym, ap, subst, ◌∙◌, ◌⊎◌, inl, inr, Bool, true, false, Option,
  none, some, List, map, if◌then◌else◌, Option-cases, get_elem?, All, All-get, All-set, ◌>>=◌, Each,
  fails, gives, Each-bind, Each-chain, from_each, [], ◌∷◌, ◌++◌,
}
use mqtt_s_gateway.Process.{
  Exception, is_fatal, Written, write_message, null, Phase, running, ended, Thread,
  MultiTaskProcess, initialize_thread, initialize, stop_process, Ending, returns, throws, exec_run,
  new_thread,
}
use mqtt_s_gateway.Process.Running.{
  starting, waiting, Program, set_phase, advance, end_task, Step, main_thread, task, cancellation,
  Run, stay, next, main, with_threads,
}

abbrev HasNull : Thread → Type 0
HasNull t = t.stop_event ≡ null

-- The stop event was not posted, and the main thread has not passed the wait for it.
pub record IsUnstopped (g : Program) : Type 0 where
  pub unposted : g.process.stop_count ≡ 0
  pub nulls : All HasNull g.process.threads
  pub before : ((i : ℕ) × (g.stage ≡ starting i)) ⊎ (g.stage ≡ waiting)

set_phase-nulls :
    (i : ℕ) (phase : Phase) (t : Thread) (p : MultiTaskProcess)
    → get_elem? p.threads i ≡ some t
    → All HasNull p.threads
    → All HasNull (set_phase i phase t p).threads
set_phase-nulls i phase t p at h =
    All-set HasNull p.threads i (record t { phase = phase }) h (All-get HasNull p.threads i t at h)

stop_process-null : (t : Thread) (p : MultiTaskProcess) → HasNull t → stop_process t p ≡ none
unfolding stop_process
stop_process-null t p h = rw h refl

abbrev Unchanged : MultiTaskProcess → MultiTaskProcess × Option Written → Type 0
Unchanged p r = r.0 ≡ p

-- A task whose thread has the NULL pointer leaves the process as it is, if it does not fault.
exec_run-kept :
    (t : Thread) (how : Ending) (p : MultiTaskProcess)
    → HasNull t
    → Each (Unchanged p) (exec_run t how p)
unfolding exec_run
exec_run-kept t returns p h = gives refl
exec_run-kept t (throws ex) p h =
    Each-bind (write_message ex) _
      (λ line. rw (stop_process-null t p h) (branches (is_fatal ex) line))
  where
    branches :
        (fatal : Bool) (line : Written)
        → Each (Unchanged p) ((if fatal then none else some p) >>= λ q. some (q, some line))
    branches true line = fails
    branches false line = gives refl

end_task-IsUnstopped :
    (g : Program) (i : ℕ) (t : Thread) (how : Ending)
    → get_elem? g.process.threads i ≡ some t
    → IsUnstopped g
    → Each IsUnstopped (end_task g i t how)
unfolding end_task
end_task-IsUnstopped g i t how at h =
    Each-chain _ (exec_run-kept t how g.process (All-get HasNull g.process.threads i t at h.nulls))
      (λ r same. gives (record {
        unposted = ap (λ p. p.stop_count) same ∙ h.unposted;
        nulls =
            subst (λ p. All HasNull (set_phase i ended t p).threads) (sym same)
              (set_phase-nulls i ended t g.process at h.nulls);
        before = h.before;
      }))

advance-starting :
    (g : Program) (i : ℕ) → g.stage ≡ starting i → IsUnstopped g → Each IsUnstopped (advance g)
unfolding advance
advance-starting g i e h = rw e (elim (Option-cases (get_elem? g.process.threads i)) [
  | inl over ↦
      rw over (gives (record { unposted = h.unposted; nulls = h.nulls; before = inr refl }))
  | inr (t, at) ↦ rw at (
      gives (record {
        unposted = h.unposted;
        nulls = set_phase-nulls i running t g.process at h.nulls;
        before = inl (i + 1, refl);
      }))
])

advance-waiting : (g : Program) → g.stage ≡ waiting → IsUnstopped g → advance g ≡ none
unfolding advance
advance-waiting g e h = rw (e, h.unposted) refl

advance-IsUnstopped : (g : Program) → IsUnstopped g → Each IsUnstopped (advance g)
advance-IsUnstopped g h = elim h.before [
  | inl (i, e) ↦ advance-starting g i e h
  | inr e ↦ rw (advance-waiting g e h) fails
]

Step-IsUnstopped : {g h : Program} → Step g h → IsUnstopped g → IsUnstopped h
Step-IsUnstopped (main_thread {g = g} e) w = from_each (advance-IsUnstopped g w) e
Step-IsUnstopped (task {g = g} i t how at _ e) w = from_each (end_task-IsUnstopped g i t how at w) e
Step-IsUnstopped (cancellation {g = g} i t at _) w = record {
  unposted = w.unposted;
  nulls = set_phase-nulls i ended t g.process at w.nulls;
  before = w.before;
}

Run-IsUnstopped : {g h : Program} → Run g h → IsUnstopped g → IsUnstopped h
Run-IsUnstopped stay w = w
Run-IsUnstopped (next r s) w = Step-IsUnstopped s (Run-IsUnstopped r w)

with_threads-nulls :
    (n argc : ℕ) (argv : List Str)
    → All HasNull (map (initialize_thread argc argv) (with_threads n).threads)
unfolding with_threads
with_threads-nulls zero argc argv = tt
with_threads-nulls (suc n) argc argv =
    added (with_threads n).threads (with_threads-nulls n argc argv)
  where
    added :
        (ts : List Thread)
        → All HasNull (map (initialize_thread argc argv) ts)
        → All HasNull (map (initialize_thread argc argv) (ts ++ new_thread ∷ []))
    added [] h = (unfold new_thread in refl, tt)
    added (t ∷ ts) h = (h.0, added ts h.1)

with_threads-unposted : (n : ℕ) → (with_threads n).stop_count ≡ 0
unfolding with_threads
with_threads-unposted zero = refl
with_threads-unposted (suc n) = with_threads-unposted n

main-IsUnstopped : (n argc : ℕ) (argv : List Str) → IsUnstopped (main argc argv (with_threads n))
unfolding main initialize
main-IsUnstopped n argc argv = record {
  unposted = with_threads-unposted n;
  nulls = with_threads-nulls n argc argv;
  before = inl (0, refl);
}

end_task-fatal :
    (g : Program) (i : ℕ) (t : Thread) (ex : Exception)
    → HasNull t
    → is_fatal ex ≡ true
    → end_task g i t (throws ex) ≡ none
unfolding end_task exec_run
end_task-fatal g i t ex null_event fatal = elim (Option-cases (write_message ex)) [
  | inl unwritten ↦ rw unwritten refl
  | inr (line, written) ↦ rw (written, stop_process-null t g.process null_event, fatal) refl
]

-- In every state that the process, with any number of tasks attached, reaches from main: nobody has
-- posted the stop event, the main thread starts threads or waits for the stop event, and a fatal
-- exception of a thread's task follows a NULL pointer.
pub Run-Waits :
    (n argc : ℕ) (argv : List Str) (g : Program)
    → Run (main argc argv (with_threads n)) g
    → (g.process.stop_count ≡ 0)
      × (((i : ℕ) × (g.stage ≡ starting i)) ⊎ (g.stage ≡ waiting))
      × ((i : ℕ) (t : Thread) (ex : Exception)
          → get_elem? g.process.threads i ≡ some t
          → is_fatal ex ≡ true
          → end_task g i t (throws ex) ≡ none)
Run-Waits n argc argv g r =
    let w = Run-IsUnstopped r (main-IsUnstopped n argc argv) in
    (
      w.unposted,
      w.before,
      λ i t ex at fatal.
          end_task-fatal g i t ex (All-get HasNull g.process.threads i t at w.nulls) fatal,
    )
