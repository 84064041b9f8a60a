-- ===== src/Log/Store.antt =====
-- The log of p4/logfs.c: `struct logfs`, one round of the flusher, and the calls of the client. A
-- client that signals the flusher waits for it, so a round runs where the call waits.
use jitcompilation.Prelude.{
  ℕ, zero, suc, ◌+◌, ◌-◌, ◌*◌, Bool, true, false, Option, none, some, List, [], ◌++◌, length, leb,
  ◌==◌, if◌then◌else◌, min,
}
use jitcompilation.Prelude.Bytes.{slice}
use jitcompilation.Log.Buffer.{
  WriteBuffer, write_buffer_open, write_buffer_add, Dequeued, nothing, exits, traps, retrying,
  block, write_buffer_dequeue, amount_buffered,
}
use jitcompilation.Log.Device.{
  Call, stops, fails, hangs, gives, bind_call, bind_option, Device, Stat, device_open, device_read,
  device_write,
}
use jitcompilation.Log.Cache.{
  CacheElem, ReadCache, read_cache_open, read_cache_add, rounded_down, read_cache_lookup,
  read_cache_invalidate,
}

-- What the n-th call to the outside answers: whether a transfer works, and what `rand` returns. Without
-- memory for a block that is read, pread is given NULL, and the transfer does not work.
pub record Outside : Type 0 where
  pub works : ℕ → Bool
  pub rand : ℕ → ℕ

-- `struct logfs`, with the number of calls to the outside so far.
pub record Logfs : Type 0 where
  pub device : Device
  pub tail_offset : ℕ
  pub write_buffer : WriteBuffer
  pub read_cache : ReadCache
  pub dont_dequeue_wb : Bool
  pub calls : ℕ

-- WCACHE_BLOCKS and RCACHE_BLOCKS
abbrev pub wcache_blocks : ℕ
wcache_blocks = 32

abbrev pub rcache_blocks : ℕ
rcache_blocks = 256

abbrev pub opened : Device → WriteBuffer → ReadCache → Logfs
opened device write_buffer read_cache = record {
  device = device;
  tail_offset = 0;
  write_buffer = write_buffer;
  read_cache = read_cache;
  dont_dequeue_wb = false;
  calls = 0;
}

-- A failure behind the handle goes to logfs_close, which traps: it joins a flusher that never started.
abbrev pub or_close : Option Logfs → Call Logfs
or_close none = stops
or_close (some lfs) = gives lfs

-- `fresh` says whether the n-th allocation succeeds: the handle, the device, the buffer's two, the
-- cache's. `fails` is NULL.
unfoldable pub logfs_open : (ℕ → Bool) → Bool → List ℕ → Option Stat → Call Logfs
logfs_open fresh opens bytes stat =
    if fresh 0
    then or_close (
        bind_option (device_open (fresh 1) opens bytes stat) (λ device.
          bind_option (write_buffer_open (fresh 2, fresh 3) (wcache_blocks * device.block))
            (λ write_buffer.
              bind_option (read_cache_open (λ n. fresh (4 + n)) rcache_blocks device.block)
                (λ read_cache. some (opened device write_buffer read_cache)))))
    else fails

-- The block is on the device: its cache element is dropped, and the offset moves on if the block has
-- left the buffer.
abbrev pub written : Logfs → Device → ℕ → Option ReadCache → Call Logfs
written lfs device size none = stops
written lfs device size (some read_cache) = gives (record lfs {
  device = device;
  read_cache = read_cache;
  dont_dequeue_wb = false;
  tail_offset = if lfs.dont_dequeue_wb then lfs.tail_offset else lfs.tail_offset + size;
})

-- A write that fails is reported, and the round goes on.
abbrev pub after_write : Logfs → ℕ → Call Device → Call Logfs
after_write lfs size stops = stops
after_write lfs size hangs = hangs
after_write lfs size fails = gives lfs
after_write lfs size (gives device) =
    written lfs device size (read_cache_invalidate lfs.read_cache lfs.tail_offset)

abbrev pub called : Logfs → Logfs
called lfs = record lfs { calls = suc lfs.calls }

-- `index` of `off` in its block, and how many bytes of it are copied.
abbrev pub index_of : Logfs → ℕ → ℕ
index_of lfs off = off - rounded_down lfs.read_cache off

abbrev pub to_cpy : Logfs → ℕ → ℕ → ℕ
to_cpy lfs off len = min len (lfs.read_cache.elem_size - index_of lfs off)

module _ (outside : Outside) where
  abbrev pub write_out : Logfs → List ℕ → Call Logfs
  write_out lfs buf =
      after_write (called lfs) (length buf)
        (device_write (outside.works lfs.calls) lfs.device buf lfs.tail_offset)

  abbrev pub after_dequeue : Logfs → Dequeued → Call Logfs
  after_dequeue lfs nothing = gives lfs
  after_dequeue lfs exits = stops
  after_dequeue lfs traps = stops
  after_dequeue lfs retrying = hangs
  after_dequeue lfs (block buf write_buffer) =
      write_out (record lfs { write_buffer = write_buffer }) buf

  -- The body of `flusher`, once it was signalled.
  unfoldable pub flush : Logfs → Call Logfs
  flush lfs =
      after_dequeue lfs (write_buffer_dequeue lfs.write_buffer lfs.device.block lfs.dont_dequeue_wb)

  -- A flush that takes bytes out of the buffer, and one that keeps them.
  abbrev pub flush_out : Logfs → Call Logfs
  flush_out lfs = flush (record lfs { dont_dequeue_wb = false })

  abbrev pub flush_copy : Logfs → Call Logfs
  flush_copy lfs = flush (record lfs { dont_dequeue_wb = true })

  -- The buffer was given the bytes: a block or more is flushed.
  abbrev pub after_add : Logfs → Call Logfs
  after_add lfs =
      if leb lfs.device.block (amount_buffered lfs.write_buffer) then flush_out lfs else gives lfs

  -- While the buffer has no room, it is flushed.
  abbrev pub added : Logfs → ℕ × WriteBuffer → Call Logfs → Call Logfs
  added lfs (zero, write_buffer) retry = after_add (record lfs { write_buffer = write_buffer })
  added lfs (suc rv, write_buffer) retry = retry

  unfoldable pub append_loop : ℕ → Logfs → List ℕ → Call Logfs
  append_loop zero lfs buf = hangs
  append_loop (suc rounds) lfs buf =
      let retry = bind_call (flush_out lfs) (λ lfs'. append_loop rounds lfs' buf) in
      added lfs (write_buffer_add lfs.write_buffer buf) retry

  -- A round that changes nothing would go on forever, and one that does takes out a byte or more.
  unfoldable pub logfs_append : Logfs → List ℕ → Call Logfs
  logfs_append lfs buf = append_loop (suc lfs.write_buffer.size) lfs buf

  -- The block that has the byte at `off`, from the cache, or from the device into the cache.
  abbrev pub cached : Logfs → ℕ → List ℕ → List ℕ × Logfs
  cached lfs offset tmp_buff = (
    tmp_buff,
    record (called lfs) {
      read_cache = read_cache_add lfs.read_cache tmp_buff offset (outside.rand lfs.calls);
    },
  )

  abbrev pub after_lookup : Logfs → ℕ → Option CacheElem → Call (List ℕ × Logfs)
  after_lookup lfs offset (some elem) = gives (elem.data_bytes, lfs)
  after_lookup lfs offset none =
      bind_call (device_read (outside.works lfs.calls) lfs.device offset lfs.read_cache.elem_size)
        (λ tmp_buff. gives (cached lfs offset tmp_buff))

  unfoldable pub read_block : Logfs → ℕ → Call (List ℕ × Logfs)
  read_block lfs off =
      after_lookup lfs (rounded_down lfs.read_cache off) (read_cache_lookup lfs.read_cache off)

  unfoldable pub read_loop : ℕ → Logfs → ℕ → ℕ → Call (List ℕ × Logfs)
  read_loop zero lfs off len = if len == 0 then gives ([], lfs) else hangs
  read_loop (suc rounds) lfs off len =
      let round = bind_call (read_block lfs off) (λ found.
        bind_call (read_loop rounds found.1 (off + to_cpy lfs off len) (len - to_cpy lfs off len))
          (λ rest.
            gives (slice found.0 (index_of lfs off) (to_cpy lfs off len) ++ rest.0, rest.1))) in
      if len == 0 then gives ([], lfs) else round

  -- A round copies a byte or more.
  unfoldable pub logfs_read_with_flush : Logfs → ℕ → ℕ → Bool → Call (List ℕ × Logfs)
  logfs_read_with_flush lfs off len flush_before_read =
      if flush_before_read
      then bind_call (flush_copy lfs) (λ lfs'. read_loop len lfs' off len)
      else read_loop len lfs off len

  unfoldable pub logfs_read : Logfs → ℕ → ℕ → Call (List ℕ × Logfs)
  logfs_read lfs off len = logfs_read_with_flush lfs off len true

  -- The last round of the flusher; what is left in the buffer is lost.
  unfoldable pub logfs_close : Logfs → Call Device
  logfs_close lfs = bind_call (flush lfs) (λ lfs'. gives lfs'.device)

-- The calls with which p4/kvraw.c sets up the log again.
unfoldable pub logfs_set_tail_offset : Logfs → ℕ → Logfs
logfs_set_tail_offset lfs offset = record lfs { tail_offset = lfs.tail_offset + offset }

unfoldable pub logfs_wb_avail : Logfs → ℕ
logfs_wb_avail lfs = amount_buffered lfs.write_buffer

unfoldable pub logfs_wb_add : Logfs → List ℕ → Logfs
logfs_wb_add lfs buf = record lfs {
  write_buffer = record wb { last_avail = wb.last_avail + length buf };
}
  where
    wb : WriteBuffer
    wb = (write_buffer_add lfs.write_buffer buf).1

abbrev pub discarded : Logfs → Dequeued → Call Logfs
discarded lfs nothing = gives lfs
discarded lfs exits = stops
discarded lfs traps = stops
discarded lfs retrying = hangs
discarded lfs (block buf write_buffer) = gives (record lfs { write_buffer = write_buffer })

unfoldable pub logfs_wb_deq : Logfs → Call Logfs
logfs_wb_deq lfs = discarded lfs (write_buffer_dequeue lfs.write_buffer lfs.device.block false)
