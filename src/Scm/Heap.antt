-- ===== src/Scm/Heap.antt =====
-- The functions of p3/scm.c. A pointer is its distance from `addr`, which lies eight bytes behind the
-- start of the mapping.
use jitcompilation.Prelude.Bytes.{add_size, le_bytes, le_value, memcpy, slice}
use jitcompilation.Prelude.{
  ℕ, zero, suc, ◌+◌, ◌-◌, Bool, true, false, ◌&&◌, Option, none, some, List, [], ◌∷◌, ◌++◌, length,
  ltb, leb, ◌==◌, if◌then◌else◌,
}

-- `struct scm`, with the bytes of the file.
pub record Scm : Type 0 where
  pub utilized : ℕ
  pub capacity : ℕ
  pub bytes : List ℕ

-- An access outside of the mapping, a loop without end, or a return.
pub data Run (A : Type 0) : Type 0 where
  faults : Run A
  spins : Run A
  returns : A → Run A

abbrev pub bind_run : {A B : Type 0} → Run A → (A → Run B) → Run B
bind_run faults f = faults
bind_run spins f = spins
bind_run (returns a) f = f a

-- sizeof (size_t), and the flag and the size in front of a block
abbrev pub word_len : ℕ
word_len = 8

abbrev pub head_len : ℕ
head_len = 10

-- A store through a pointer to a place of the file.
abbrev pub store : Scm → ℕ → List ℕ → Run Scm
store scm at src =
    if leb (at + length src) (length scm.bytes)
    then returns (record scm { bytes = memcpy scm.bytes at src })
    else faults

-- The flag, a short, and the size of the block at `p`.
abbrev pub flag_at : List ℕ → ℕ → ℕ
flag_at bytes p = le_value (slice bytes (word_len + p) 2)

abbrev pub size_at : List ℕ → ℕ → ℕ
size_at bytes p = le_value (slice bytes (word_len + p + 2) 8)

-- What fstat tells of a file that opens, `none` of one that does not: whether it is regular, and its
-- size, with its bytes.
abbrev pub Opening : Type 0
Opening = Option (Bool × ℕ × List ℕ)

unfoldable pub file_size : Bool → Opening → Option Scm
file_size fresh none = none
file_size fresh (some (regular, st_size, bytes)) =
    if fresh
    then if regular then some (record { utilized = 0; capacity = st_size; bytes = bytes }) else none
    else none

-- `maps` and `cuts` say whether mmap and ftruncate work; the cut is to the size that the file has.
abbrev pub mapped : Bool → Bool → Option Scm → Option Scm
mapped cuts truncate none = none
mapped cuts true (some scm) = if cuts then some (record scm { utilized = 0 }) else none
mapped cuts false (some scm) =
    some (record scm { utilized = le_value (slice scm.bytes 0 word_len) })

unfoldable pub scm_open : Bool → Opening → Bool → Bool → Bool → Option Scm
scm_open fresh opening maps cuts truncate =
    if maps then mapped cuts truncate (file_size fresh opening) else none

-- The walk over the blocks from the start, for the first free one that is large enough.
unfoldable pub first_fit : ℕ → Scm → ℕ → ℕ → Run (Option ℕ × Scm)
first_fit zero scm n p = spins
first_fit (suc rounds) scm n p =
    let next = first_fit rounds scm n (p + head_len + size_at scm.bytes p) in
    let taken =
      bind_run (store scm (word_len + p) (le_bytes 2 1))
        (λ scm'. returns (some (p + head_len), scm')) in
    if ltb (p + head_len + word_len) scm.capacity
    then if (flag_at scm.bytes p == 0) && leb n (size_at scm.bytes p) then taken else next
    else returns (none, scm)

-- The block behind the last one, and the count in the file.
abbrev pub push_block : Scm → ℕ → ℕ → Run (Option ℕ × Scm)
push_block scm n size = bind_run (store scm (word_len + scm.utilized) (le_bytes 2 1)) (λ flagged.
    bind_run (store flagged (word_len + scm.utilized + 2) (le_bytes 8 n)) (λ sized.
      bind_run (store (record sized { utilized = size }) 0 (le_bytes 8 size))
        (λ counted. returns (some (scm.utilized + head_len), counted))))

-- A walk takes a step of ten bytes or more.
unfoldable pub scm_malloc : Scm → ℕ → Run (Option ℕ × Scm)
scm_malloc scm n =
    if ltb scm.capacity (add_size scm.utilized (add_size head_len n))
    then first_fit (suc scm.capacity) scm n 0
    else push_block scm n (add_size scm.utilized (add_size head_len n))

-- `s` with its end, copied into a new block.
abbrev pub copied_to : List ℕ → Option ℕ × Scm → Run (Option ℕ × Scm)
copied_to s (none, scm) = returns (none, scm)
copied_to s (some p, scm) =
    bind_run (store scm (word_len + p) (s ++ (0 ∷ []))) (λ scm'. returns (some p, scm'))

unfoldable pub scm_strdup : Scm → List ℕ → Run (Option ℕ × Scm)
scm_strdup scm s = bind_run (scm_malloc scm (length s + 1)) (copied_to s)

-- A pointer out of range is reported, and written through all the same.
unfoldable pub scm_free : Scm → ℕ → Run Scm
scm_free scm p =
    if ltb (word_len + p) head_len
    then faults
    else store scm (word_len + p - head_len) (le_bytes 2 0)

abbrev pub scm_utilized : Scm → ℕ
scm_utilized scm = scm.utilized

abbrev pub scm_capacity : Scm → ℕ
scm_capacity scm = scm.capacity

-- `scm_mbase`
abbrev pub scm_mbase : ℕ
scm_mbase = head_len
