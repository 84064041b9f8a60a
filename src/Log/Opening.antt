-- ===== src/Log/Opening.antt =====
-- logfs_open of p4/logfs.c: on a device of whole blocks, an opened log is empty and in order.
use jitcompilation.Prelude.Bytes.{sub_size}
use jitcompilation.Prelude.{
  ℕ, zero, suc, ◌+◌, ◌*◌, ◌%◌, ◌^◌, ◌≤◌, ◌<◌, ◌≡◌, refl, ap, ◌∙◌, Bool, true, Option, some, List,
  [], length, replicate, arith,
}
use native.Mathlib.Nat.{mod-eq_of_lt}
use jitcompilation.Log.Buffer.{WriteBuffer, write_buffer_open}
use jitcompilation.Log.Window.{Holds}
use jitcompilation.Log.Append.{open-Holds}
use jitcompilation.Log.Device.{gives, Device, Stat, device_open, bind_call}
use jitcompilation.Log.Cache.{CacheElem, ReadCache, read_cache_open, fill_cache, unused_elem}
use jitcompilation.Log.Coherent.{Coherent, no_elem, with_elem}
use jitcompilation.Log.Store.{Logfs, Outside, logfs_open, opened, rcache_blocks}
use jitcompilation.Log.Writes.{IsLog}
use jitcompilation.Log.Contract.{Request, answer_all, expected, Allowed, answers-expected}

-- Whole blocks, of which 32 are a power of two of bytes.
pub record IsWhole (device : Device) : Type 0 where
  pub some_bytes : 0 < device.block
  pub extent : length device.bytes ≡ device.size
  pub whole : device.size % device.block ≡ 0
  pub bounded : 32 * device.block ≤ 2 ^ 63
  pub divides : (2 ^ 64) % (32 * device.block) ≡ 0

-- An opened cache has no valid element.
abbrev unused : ℕ → ℕ → List CacheElem
unused elem_size n = replicate n (unused_elem elem_size)

unused-Coherent : (bytes : List ℕ) (blk elem_size n : ℕ) → Coherent bytes blk (unused elem_size n)
unused-Coherent bytes blk elem_size zero = no_elem
unused-Coherent bytes blk elem_size (suc n) =
    with_elem (λ e. absurd (cc e)) (unused-Coherent bytes blk elem_size n)

fill_cache-unused :
    (fresh : ℕ → Bool) (elem_size i left : ℕ)
    → ((n : ℕ) → fresh n ≡ true)
    → fill_cache fresh elem_size i left ≡ some (unused elem_size left)
fill_cache-unused fresh elem_size i zero all = refl
fill_cache-unused fresh elem_size i (suc left) all =
    rw (all i, fill_cache-unused fresh elem_size (suc i) left all) refl

module _ (fresh : ℕ → Bool) (all : (n : ℕ) → fresh n ≡ true) (bytes : List ℕ) (stat : Option Stat)
    (device : Device) (there : device_open true true bytes stat ≡ some device)
    (h : IsWhole device) where
  abbrev pub ring : WriteBuffer
  ring = record {
    buffer = replicate (32 * device.block) 0;
    head = 0;
    tail = sub_size (32 * device.block) 1;
    size = 32 * device.block;
    last_avail = 0;
  }

  abbrev pub read_cache : ReadCache
  read_cache = record { num_elems = 256; elem_size = device.block; cache = unused device.block 256 }

  opens_buffer : write_buffer_open (true, true) (32 * device.block) ≡ some ring
  unfolding write_buffer_open
  opens_buffer = refl

  opens_cache : read_cache_open (λ n. fresh (4 + n)) rcache_blocks device.block ≡ some read_cache
  unfolding read_cache_open
  opens_cache =
      rw
        (all 4, all 5, fill_cache-unused (λ n. fresh (4 + n)) device.block 2 256 (λ n. all (4 + n)))
        refl

  ring-Holds : Holds ring [] × (ring.size ≡ 32 * device.block) × (ring.last_avail ≡ 0)
  ring-Holds =
      open-Holds (32 * device.block) (omega (arith, h.some_bytes)) (omega (arith, h.bounded))
        opens_buffer

  abbrev pub opened_log : Logfs
  opened_log = opened device ring read_cache

  pub opened_log-IsLog : IsLog opened_log []
  opened_log-IsLog = record {
    done = [];
    held = [];
    keeps = record {
      fits = record {
        some_bytes = h.some_bytes;
        larger = omega (arith, h.some_bytes);
        bounded = h.bounded;
        divides = h.divides;
      };
      holds = ring-Holds.0;
      elem_block = refl;
      extent = h.extent;
      whole = h.whole;
      tail_whole = mod-eq_of_lt h.some_bytes;
      tail_at = refl;
      tail_in = omega arith;
      on_device = refl;
      synced_in = omega arith;
      synced = refl;
      coherent = unused-Coherent device.bytes device.block device.block 256;
    };
    parts = refl;
    few = h.some_bytes;
    ring = omega arith;
  }

  pub opens : logfs_open fresh true bytes stat ≡ gives opened_log
  unfolding logfs_open
  opens = rw (all 0, all 1, all 2, all 3, there, opens_buffer, opens_cache) refl

  -- On a device of whole blocks that opens and works, where 32 blocks are a power of two of bytes, of at
  -- most 2^63, with memory for the log, logfs_open gives a log; a client that then appends at most a
  -- block at a time, and reads inside what it has appended while a block of the device is free behind
  -- it, gets back what it appended.
  pub logfs_lem :
      (outside : Outside)
      → ((n : ℕ) → outside.works n ≡ true)
      → (requests : List Request) → Allowed device.block device.size [] requests
      → bind_call (logfs_open fresh true bytes stat) (λ lfs. answer_all outside lfs requests)
        ≡ gives (expected [] requests)
  logfs_lem outside works requests ok =
      ap (λ call. bind_call call (λ lfs. answer_all outside lfs requests)) opens
      ∙ answers-expected outside works requests opened_log [] opened_log-IsLog ok
