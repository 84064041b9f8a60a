-- ===== src/Log/Buffer.antt =====
-- The write buffer of p4/logfs.c: a ring of bytes between the last byte written to the device and
-- the next byte appended.
use jitcompilation.Prelude.Bytes.{add_size, sub_size}
use jitcompilation.Prelude.{
  ℕ, ◌+◌, ◌-◌, ◌%◌, Bool, ◌&&◌, Option, none, some, List, length, take, replicate, ltb, leb, ◌==◌,
  if◌then◌else◌, zero, suc, ◌++◌,
}
use mathlib.Core.Bool.{not}
use jitcompilation.Prelude.Bytes.{memcpy, slice, zero_padded}

-- `roundUp` of utils.c
abbrev pub padding_size : ℕ → ℕ → ℕ
padding_size available block_size =
    if (available % block_size) == 0 then 0 else block_size - available % block_size

abbrev pub round_up : ℕ → ℕ → ℕ
round_up available block_size = add_size available (padding_size available block_size)

-- `write_buffer_t`, with the memory that `buffer` points to.
pub record WriteBuffer : Type 0 where
  pub buffer : List ℕ
  pub head : ℕ
  pub tail : ℕ
  pub size : ℕ
  pub last_avail : ℕ

-- `fresh` says whether each of the two allocations succeeds.
unfoldable pub write_buffer_open : Bool × Bool → ℕ → Option WriteBuffer
write_buffer_open fresh buff_size =
    if fresh.0 && fresh.1
    then some (record {
      buffer = replicate buff_size 0;
      head = 0;
      tail = sub_size buff_size 1;
      size = buff_size;
      last_avail = 0;
    })
    else none

-- `available` on either side of the wrap; neither subtraction is below 0.
abbrev pub free_space : WriteBuffer → ℕ
free_space wb =
    if leb wb.head wb.tail then wb.tail - wb.head + 1 else wb.size - wb.head + wb.tail + 1

-- `memcpy` to `head`, and `head` moved behind it.
abbrev pub copy_in : WriteBuffer → List ℕ → WriteBuffer
copy_in wb buf = record wb {
  buffer = memcpy wb.buffer wb.head buf;
  head = (wb.head + length buf) % wb.size;
}

-- The copy in two parts: to the end, and the rest to the start.
abbrev pub copy_around : WriteBuffer → List ℕ → ℕ → WriteBuffer
copy_around wb buf space_left = record wb {
  buffer =
      memcpy (memcpy wb.buffer wb.head (take space_left buf)) 0
        (slice buf space_left (length buf - space_left));
  head = (length buf - space_left) % wb.size;
}

unfoldable pub write_buffer_add : WriteBuffer → List ℕ → ℕ × WriteBuffer
write_buffer_add wb buf =
    if leb (length buf) (free_space wb)
    then (
      0,
      (if leb wb.head wb.tail
          then copy_in wb buf
          else if ltb (wb.size - wb.head) (length buf)
          then copy_around wb buf (wb.size - wb.head)
          else copy_in wb buf),
    )
    else (1, wb)

-- What write_buffer_dequeue returns: NULL; EXIT; a division by 0; or a block to write and the buffer
-- that it leaves. `retrying` is a `goto` with no round left.
pub data Dequeued : Type 0 where
  nothing : Dequeued
  exits : Dequeued
  traps : Dequeued
  retrying : Dequeued
  block : List ℕ → WriteBuffer → Dequeued

-- From the head that a round has come to, `available` bytes are waiting.
abbrev pub waiting : WriteBuffer → ℕ → ℕ
waiting wb head =
    if leb wb.tail head then sub_size (sub_size head wb.tail) 1 else wb.size - wb.tail - 1 + head

abbrev pub noted : WriteBuffer → ℕ → Bool → WriteBuffer
noted wb available dont_dequeue = record wb { last_avail = if dont_dequeue then available else 0 }

-- The bytes behind the tail, in one piece.
abbrev pub take_straight : WriteBuffer → ℕ → ℕ → Bool → Dequeued
take_straight wb available blk dont_dequeue =
    if blk == 0
    then traps
    else if ltb (round_up available blk) available
    then exits
    else block
        (zero_padded (slice wb.buffer ((wb.tail + 1) % wb.size) available) (round_up available blk))
        (record (noted wb available dont_dequeue) {
          tail = if dont_dequeue then wb.tail else (wb.tail + available) % wb.size;
        })

-- The bytes behind the tail up to the end, and those at the start.
abbrev pub take_around : WriteBuffer → ℕ → ℕ → ℕ → Bool → Dequeued
take_around wb available round_up_size space_left dont_dequeue =
    block
      (zero_padded
        (slice wb.buffer ((wb.tail + 1) % wb.size) space_left
          ++ take (available - space_left) wb.buffer)
        round_up_size)
      (record (noted wb available dont_dequeue) {
        tail = if dont_dequeue then wb.tail else sub_size (available - space_left) 1 % wb.size;
      })

abbrev pub take_out : WriteBuffer → ℕ → ℕ → ℕ → Bool → Dequeued
take_out wb head available blk dont_dequeue =
    if leb wb.tail head
    then take_straight wb available blk dont_dequeue
    else take_around wb available (round_up available (if blk == 0 then available else blk))
        (wb.size - wb.tail - 1) dont_dequeue

-- The head that leaves one block to write.
abbrev pub moved_back : WriteBuffer → ℕ → ℕ → ℕ
moved_back wb head blk = sub_size head (waiting wb head - blk) % wb.size

unfoldable pub dequeue_from : ℕ → WriteBuffer → ℕ → ℕ → Bool → Dequeued
dequeue_from zero wb head blk dont_dequeue = retrying
dequeue_from (suc rounds) wb head blk dont_dequeue =
    let retry = dequeue_from rounds wb (moved_back wb head blk) blk dont_dequeue in
    if waiting wb head == 0
    then nothing
    else if not dont_dequeue && ltb blk (waiting wb head)
    then retry
    else if dont_dequeue && leb (waiting wb head) wb.last_avail
    then nothing
    else take_out wb head (waiting wb head) blk dont_dequeue

-- One retry is enough.
unfoldable pub write_buffer_dequeue : WriteBuffer → ℕ → Bool → Dequeued
write_buffer_dequeue wb blk dont_dequeue = dequeue_from 2 wb wb.head blk dont_dequeue

-- The bytes that are buffered, as logfs_append and logfs_wb_avail count them.
abbrev pub amount_buffered : WriteBuffer → ℕ
amount_buffered wb =
    if ltb wb.tail wb.head then wb.head - wb.tail - 1 else wb.size - wb.tail - 1 + wb.head
