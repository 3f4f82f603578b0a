-- ===== src/Process.antt =====
-- The classes Exception, Semaphore, Thread and MultiTaskProcess, EXECRUN and main of
-- TomyGateway/src/libmq/ProcessFramework.cpp and ProcessFramework.h: how the tasks are started, what an
-- exception of a task leads to, and how the process is stopped. Runs of the process are in Running.
pub mod Deadline
pub mod Running
pub mod Waiting
pub mod Locking
use mqtt_s_gateway.Base.{
  Str, ℕ, ◌+◌, Bool, true, false, Option, none, some, List, [], ◌∷◌, ◌++◌, map, if◌then◌else◌,
  ◌>>=◌,
}

pub data ExceptionType : Type 0 where
  ex_info : ExceptionType
  ex_warn : ExceptionType
  ex_error : ExceptionType
  ex_fatal : ExceptionType
  ex_debug : ExceptionType

-- `none` is a NULL pointer.
pub record Exception : Type 0 where
  pub type : ExceptionType
  pub ex_no : ℕ
  pub message : Str
  pub file_name : Option Str
  pub function_name : Option Str
  pub line : ℕ

-- The constructor with three arguments.
abbrev pub new_exception : ExceptionType → ℕ → Str → Exception
new_exception type number text = record {
  type = type;
  ex_no = number;
  message = text;
  file_name = none;
  function_name = none;
  line = 0;
}

-- The constructor that THROW_EXCEPTION calls.
abbrev pub thrown_at : ExceptionType → ℕ → Str → Str → Str → ℕ → Exception
thrown_at type number text file function line = record {
  type = type;
  ex_no = number;
  message = text;
  file_name = some file;
  function_name = some function;
  line = line;
}

unfoldable pub is_fatal : Exception → Bool
is_fatal ex = elim ex.type [ ex_fatal ↦ true | _ ↦ false ]

-- "Info", "Warn", "Error", "Fatal", "Debug"
unfoldable pub str_type : Exception → Str
str_type ex = elim ex.type [
  | ex_info ↦ b'I' ∷ b'n' ∷ b'f' ∷ b'o' ∷ []
  | ex_warn ↦ b'W' ∷ b'a' ∷ b'r' ∷ b'n' ∷ []
  | ex_error ↦ b'E' ∷ b'r' ∷ b'r' ∷ b'o' ∷ b'r' ∷ []
  | ex_fatal ↦ b'F' ∷ b'a' ∷ b't' ∷ b'a' ∷ b'l' ∷ []
  | ex_debug ↦ b'D' ∷ b'e' ∷ b'b' ∷ b'u' ∷ b'g' ∷ []
]

-- What a line of writeMessage shows, behind the time.
pub record Written : Type 0 where
  pub kind : Str
  pub number : ℕ
  pub file : Str
  pub at_line : ℕ
  pub function : Str
  pub what : Str

-- writeMessage: a NULL pointer for a `%s` is a fault.
unfoldable pub write_message : Exception → Option Written
write_message ex = ex.file_name >>= λ file.
    (ex.function_name >>= λ function. some (record {
      kind = str_type ex;
      number = ex.ex_no;
      file = file;
      at_line = ex.line;
      function = function;
      what = ex.message;
    }))

pub data SemaphorePointer : Type 0 where
  null : SemaphorePointer
  stop_process_event : SemaphorePointer

-- What has become of the POSIX thread of a Thread. `cancelled` is a thread that pthread_cancel was
-- called for and that has not ended yet.
pub data Phase : Type 0 where
  created : Phase
  running : Phase
  cancelled : Phase
  ended : Phase
  joined : Phase

pub record Thread : Type 0 where
  pub stop_event : SemaphorePointer
  pub argc : ℕ
  pub argv : List Str
  pub phase : Phase

-- `stop_count` is the count of `_stopProcessEvent`.
pub record MultiTaskProcess : Type 0 where
  pub argc : ℕ
  pub argv : List Str
  pub threads : List Thread
  pub stop_count : ℕ

-- The constructor. Semaphore's own constructor initialises a temporary and not the member, so that the
-- count is what `memory` says: 0 for an object of static storage.
abbrev pub new_process : ℕ → MultiTaskProcess
new_process memory = record { argc = 0; argv = []; threads = []; stop_count = memory }

-- Thread's constructor, with the assignments in the order of the source.
unfoldable pub new_thread : Thread
new_thread =
    let first : Thread = record {
      stop_event = stop_process_event;
      argc = 0;
      argv = [];
      phase = created;
    } in
    record first { stop_event = null; argc = 0; argv = [] }

abbrev pub attach : MultiTaskProcess → Thread → MultiTaskProcess
attach p t = record p { threads = p.threads ++ t ∷ [] }

-- Thread::initialize
abbrev pub initialize_thread : ℕ → List Str → Thread → Thread
initialize_thread argc argv t = record t { argc = argc; argv = argv }

-- MultiTaskProcess::initialize
unfoldable pub initialize : ℕ → List Str → MultiTaskProcess → MultiTaskProcess
initialize argc argv p = record p {
  argc = argc;
  argv = argv;
  threads = map (initialize_thread argc argv) p.threads;
}

-- stopProcess: `none` where the pointer is NULL.
unfoldable pub stop_process : Thread → MultiTaskProcess → Option MultiTaskProcess
stop_process t p = elim t.stop_event [
  | null ↦ none
  | stop_process_event ↦ some (record p { stop_count = p.stop_count + 1 })
]

-- How `run()` of a task ends.
pub data Ending : Type 0 where
  returns : Ending
  throws : Exception → Ending

-- EXECRUN: the process afterwards, and the line that was written.
unfoldable pub exec_run :
    Thread → Ending → MultiTaskProcess → Option (MultiTaskProcess × Option Written)
exec_run t returns p = some (p, none)
exec_run t (throws ex) p = write_message ex >>= λ line.
    ((if is_fatal ex then stop_process t p else some p) >>= λ q. some (q, some line))
