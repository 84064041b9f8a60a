-- ===== src/Log/Tests.antt =====
-- Runs of the log of p4/logfs.c, and its theorems at concrete inputs.
use jitcompilation.Prelude.{
  ℕ, zero, suc, ◌<◌, ◌≡◌, refl, Bool, true, false, some, List, [], ◌∷◌, get_elem?, replicate, arith,
}
use jitcompilation.Log.Buffer.{WriteBuffer, write_buffer_dequeue, dequeue_from, block, exits}
use jitcompilation.Log.Window.{Holds, nth_place}
use jitcompilation.Log.Append.{Adds, add-Adds}
use jitcompilation.Log.Heads.{Fits}
use jitcompilation.Log.Dequeue.{Dequeues, Writes, dequeue-Dequeues, dequeue-Writes}
use jitcompilation.Log.Device.{gives, bind_call, Device, regular, geometry, device_open}
use jitcompilation.Log.Store.{Outside, Logfs, logfs_open}
use jitcompilation.Log.Writes.{IsLog, Appends, append-Appends}
use jitcompilation.Log.Contract.{
  Reads, read-Reads, Request, append, read, answer_all, expected, Allowed,
}
use jitcompilation.Log.Opening.{IsWhole, logfs_lem, opened_log, opened_log-IsLog}

-- A ring of 8 bytes that holds 3 of them around its end.
abbrev ring : WriteBuffer
ring = record {
  buffer = 7 ∷ 0 ∷ 0 ∷ 0 ∷ 0 ∷ 0 ∷ 5 ∷ 6 ∷ [];
  head = 1;
  tail = 5;
  size = 8;
  last_avail = 0;
}

abbrev three : List ℕ
three = 5 ∷ 6 ∷ 7 ∷ []

three_at : (i : ℕ) → i < 3 → get_elem? ring.buffer (nth_place ring i) ≡ get_elem? three i
three_at zero h = refl
three_at (suc zero) h = refl
three_at (suc (suc zero)) h = refl
three_at (suc (suc (suc i))) h = absurd (omega (arith, h))

ring-Holds : Holds ring three
ring-Holds = record {
  extent = refl;
  tail_in = omega arith;
  room = omega arith;
  head_at = refl;
  at = three_at;
}

ring-Fits : Fits ring 2
ring-Fits = record {
  some_bytes = omega arith;
  larger = omega arith;
  bounded = omega arith;
  divides = refl;
}

two_out : write_buffer_dequeue ring 2 false ≡ block (5 ∷ 6 ∷ []) (record ring { tail = 7 })
unfolding write_buffer_dequeue dequeue_from
two_out = refl

-- One byte short of full, the flush before a read gives up.
full_exits : write_buffer_dequeue (record ring { head = 5 }) 2 true ≡ exits
unfolding write_buffer_dequeue dequeue_from
full_exits = refl

add-Adds_example : Adds ring three (8 ∷ 9 ∷ [])
add-Adds_example = add-Adds ring three (8 ∷ 9 ∷ []) ring-Holds

dequeue-Dequeues_example : Dequeues ring three 2
dequeue-Dequeues_example = dequeue-Dequeues ring three ring-Holds 2 ring-Fits

dequeue-Writes_example : Writes ring three 2
dequeue-Writes_example = dequeue-Writes ring three ring-Holds 2 ring-Fits (omega arith)

-- A file of 10 bytes with blocks of 2.
abbrev file : List ℕ
file = replicate 10 0

abbrev device : Device
device = record { bytes = file; size = 10; block = 2 }

device_there : device_open true true file (some (regular 10 2)) ≡ some device
unfolding device_open geometry
device_there = refl

device-IsWhole : IsWhole device
device-IsWhole = record {
  some_bytes = omega arith;
  extent = refl;
  whole = refl;
  bounded = omega arith;
  divides = refl;
}

abbrev outside : Outside
outside = record { works = λ n. true; rand = λ n. n }

abbrev all_fresh : ℕ → Bool
all_fresh n = true

abbrev log_start : Logfs
log_start =
    opened_log all_fresh (λ n. refl) file (some (regular 10 2)) device device_there device-IsWhole

log_start-IsLog : IsLog log_start []
log_start-IsLog =
    opened_log-IsLog all_fresh (λ n. refl) file (some (regular 10 2)) device device_there
      device-IsWhole

append-Appends_example : Appends outside log_start (4 ∷ 5 ∷ []) (4 ∷ 5 ∷ [])
append-Appends_example =
    append-Appends outside (λ n. refl) log_start [] (4 ∷ 5 ∷ []) log_start-IsLog (omega arith)
      (omega arith)

-- The log after a first append.
abbrev second : Appends outside log_start (4 ∷ 5 ∷ []) (4 ∷ 5 ∷ [])
second =
    append-Appends outside (λ n. refl) log_start [] (4 ∷ 5 ∷ []) log_start-IsLog (omega arith)
      (omega arith)

read-Reads_example : Reads outside second.after (4 ∷ 5 ∷ []) 1 1
read-Reads_example =
    read-Reads outside (λ n. refl) second.after (4 ∷ 5 ∷ []) second.is_log
      (omega (arith, second.same.same_block, second.same.same_device)) 1 1 (omega arith)

abbrev requests : List Request
requests = append (4 ∷ []) ∷ read 0 1 ∷ append (5 ∷ 6 ∷ []) ∷ read 1 2 ∷ []

requests-Allowed : Allowed 2 10 [] requests
unfolding Allowed
requests-Allowed = (
  omega arith,
  omega arith,
  (omega arith, omega arith, (omega arith, omega arith, (omega arith, omega arith, tt))),
)

logfs_lem_example :
    bind_call
      (logfs_open all_fresh true file (some (regular 10 2)))
      (λ lfs. answer_all outside lfs requests)
    ≡ gives (expected [] requests)
logfs_lem_example =
    logfs_lem all_fresh (λ n. refl) file (some (regular 10 2)) device device_there device-IsWhole
      outside (λ n. refl) requests requests-Allowed
