-- ===== src/Scheduler/Threads.antt =====
-- The threads of p2/scheduler.c and the choice of the next one. The linked list from `state.head` on
-- is a list of statuses, and a pointer to a thread is its position, NULL is `none`.
use jitcompilation.Prelude.Int.{ℤ, pos, negsuc}
use jitcompilation.Prelude.{
  ℕ, zero, suc, ◌+◌, ◌≡◌, Bool, true, false, Option, none, some, List, [], ◌∷◌, if◌then◌else◌, ltb,
  ◌==◌, length, get_elem?, set,
}

-- `status`; `created` is STATUS_.
pub data Status : Type 0 where
  created running sleeping terminated : Status

pub record Scheduler : Type 0 where
  pub threads : List Status
  pub curr_thread : Option ℕ

-- STATUS_ or STATUS_SLEEPING
unfoldable pub is_ready : Status → Bool
is_ready created = true
is_ready running = false
is_ready sleeping = true
is_ready terminated = false

-- `current->next`
unfoldable pub next : List Status → ℕ → Option ℕ
next ts c = if ltb (c + 1) (length ts) then some (c + 1) else none

-- `a == b` on pointers
abbrev pub is_same : Option ℕ → Option ℕ → Bool
is_same none none = true
is_same (some a) (some b) = a == b
is_same _ _ = false

-- `if (current == NULL) current = state.head`
abbrev pub or_head : Option ℕ → ℕ
or_head none = 0
or_head (some c) = c

-- What thread_candidate returns: a thread, or NULL. `fault` is a read through NULL, where there is no
-- thread at all; `endless` stands for a loop that takes more rounds than it was given.
pub data Candidate : Type 0 where
  thread : ℕ → Candidate
  null fault endless : Candidate

-- The do-while loop, with `current_ref` and `current`.
unfoldable pub search_from : List Status → Option ℕ → ℕ → Option ℕ → Candidate
unfolding is_ready next
search_from ts ref zero current = endless
search_from ts ref (suc f) current = elim (get_elem? ts (or_head current)) [
  | none ↦ fault
  | some s ↦ elim (is_ready s) [
    | true ↦ thread (or_head current)
    | false ↦ elim (is_same (next ts (or_head current)) ref) [
      | true ↦ null
      | false ↦ search_from ts ref f (next ts (or_head current))
    ]
  ]
]

-- `state.curr_thread->next`, or `state.head` before the first thread has run
unfoldable pub start_of : Scheduler → Option ℕ
unfolding next
start_of state = elim state.curr_thread [
  | none ↦ elim state.threads [ [] ↦ none | _ ∷ _ ↦ some 0 ]
  | some c ↦ next state.threads c
]

-- One round for each thread, and one more.
unfoldable pub thread_candidate : Scheduler → Candidate
unfolding search_from start_of
thread_candidate state =
    search_from state.threads (start_of state) (length state.threads + 1) (start_of state)

-- What `schedule` does with the candidate before it jumps to it.
unfoldable pub dispatch : Scheduler → ℕ → Scheduler
dispatch state c = record { threads = set state.threads c running; curr_thread = some c }

-- A new status of the thread that runs.
unfoldable pub set_status : Status → Scheduler → Scheduler
set_status status state = elim state.curr_thread [
  | none ↦ state
  | some c ↦ record state { threads = set state.threads c status }
]

-- A new thread, where its allocations succeed; the position of the thread that runs moves by one.
unfoldable pub scheduler_create : Bool → Scheduler → ℤ × Scheduler
scheduler_create malloc state =
    if malloc
    then (
      pos 0,
      record {
        threads = created ∷ state.threads;
        curr_thread = elim state.curr_thread [ none ↦ none | some c ↦ some (suc c) ];
      },
    )
    else (negsuc 0, state)

unfoldable pub destroy : Scheduler → Scheduler
destroy state = record { threads = []; curr_thread = none }

-- Where the processor is: in `main` before scheduler_execute, in the scheduler, in a thread, or in
-- `main` after it.
pub data Phase : Type 0 where
  before scheduling working after : Phase

-- The switches. A thread creates threads, yields (itself or by the alarm) or returns. An alarm can also come
-- inside the scheduler: the handler yields for the thread that ran last, whatever its status.
pub data Step : Phase → Scheduler → Phase → Scheduler → Type 0 where
  executes : {s : Scheduler} → Step before s scheduling s
  dispatches :
      {s : Scheduler} {c : ℕ}
      → thread_candidate s ≡ thread c
      → Step scheduling s working (dispatch s c)
  ends : {s : Scheduler} → thread_candidate s ≡ null → Step scheduling s after (destroy s)
  yields : {s : Scheduler} → Step working s scheduling (set_status sleeping s)
  interrupts :
      {s : Scheduler} {c : ℕ}
      → s.curr_thread ≡ some c
      → Step scheduling s scheduling (set_status sleeping s)
  returns : {s : Scheduler} → Step working s scheduling (set_status terminated s)
  prepares : {s : Scheduler} (m : Bool) → Step before s before (scheduler_create m s).1
  spawns : {s : Scheduler} (m : Bool) → Step working s working (scheduler_create m s).1

pub data Reaches (p : Phase) (s : Scheduler) : Phase → Scheduler → Type 0 where
  stays : Reaches p s p s
  moves : {q r : Phase} {t u : Scheduler} → Reaches p s q t → Step q t r u → Reaches p s r u
