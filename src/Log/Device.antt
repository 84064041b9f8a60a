-- ===== src/Log/Device.antt =====
-- p4/device.c over the bytes of the file or volume, with the outcomes that calls of p4/logfs.c have.
use jitcompilation.Prelude.{
  ℕ, ◌+◌, ◌*◌, ◌/◌, ◌%◌, Bool, false, ◌||◌, Option, none, some, List, length, leb, ◌==◌,
  if◌then◌else◌,
}
use jitcompilation.Prelude.Bytes.{memcpy, slice}

-- EXIT, a failed assertion or a trap; the error status; a loop out of fuel; or success.
pub data Call (A : Type 0) : Type 0 where
  stops : Call A
  fails : Call A
  hangs : Call A
  gives : A → Call A

abbrev pub bind_call : {A B : Type 0} → Call A → (A → Call B) → Call B
bind_call stops f = stops
bind_call fails f = fails
bind_call hangs f = hangs
bind_call (gives a) f = f a

abbrev pub bind_option : {A B : Type 0} → Option A → (A → Option B) → Option B
bind_option none f = none
bind_option (some a) f = f a

-- `struct device`, with the content behind its descriptor.
pub record Device : Type 0 where
  pub bytes : List ℕ
  pub size : ℕ
  pub block : ℕ

-- What fstat and the two ioctls tell: a regular file with its size and its block size, a volume whose
-- ioctls may fail, or another kind of file.
pub data Stat : Type 0 where
  regular : ℕ → ℕ → Stat
  volume : Option ℕ → Option ℕ → Stat
  other : Stat

abbrev pub measured : Stat → Option (ℕ × ℕ)
measured (regular size block) = some (size, block)
measured (volume (some size) (some block)) = some (size, block)
measured (volume _ _) = none
measured other = none

-- `fstat` returned nothing, or what it returned.
unfoldable pub geometry : List ℕ → Option Stat → Option Device
geometry bytes none = none
geometry bytes (some stat) = elim (measured stat) [
  | none ↦ none
  | some (u64, u32) ↦
      if (u32 == 0) || (u64 == 0)
      then none
      else some (record { bytes = bytes; size = u64 / u32 * u32; block = u32 })
]

-- Whether the file opens, whether there is memory, and what fstat tells.
unfoldable pub device_open : Bool → Bool → List ℕ → Option Stat → Option Device
device_open fresh opens bytes stat =
    if fresh then if opens then geometry bytes stat else none else none

-- The three tests before an access.
abbrev pub is_aligned : Device → ℕ → ℕ → Bool
is_aligned device off len =
    if (off % device.block) == 0
    then if (len % device.block) == 0 then leb (off + len) device.size else false
    else false

-- `works` says whether pread, or pwrite, transfers all the bytes.
unfoldable pub device_read : Bool → Device → ℕ → ℕ → Call (List ℕ)
device_read works device off len =
    if is_aligned device off len
    then if works then gives (slice device.bytes off len) else fails
    else stops

unfoldable pub device_write : Bool → Device → List ℕ → ℕ → Call Device
device_write works device buf off =
    if is_aligned device off (length buf)
    then if works then gives (record device { bytes = memcpy device.bytes off buf }) else fails
    else stops
