-- ===== src/Log/Contract.antt =====
-- p4/logfs.c against what it promises: bytes that were appended can be read back at any offset.
use jitcompilation.Prelude.{
  ℕ, ◌+◌, ◌≤◌, ◌≡◌, refl, sym, ap, ◌∙◌, subst, true, List, [], ◌∷◌, ◌++◌, length, length-append,
  take, arith,
}
use jitcompilation.Prelude.Bytes.{slice, slice-add, slice-take, take-all}
use jitcompilation.Log.Device.{Call, gives, bind_call}
use jitcompilation.Log.Store.{
  Outside, Logfs, logfs_append, logfs_read, logfs_read_with_flush, read_loop,
}
use jitcompilation.Log.Flush.{Keeps}
use jitcompilation.Log.Round.{Copied, flush_copy-Flushed}
use jitcompilation.Log.Writes.{SameSizes, IsLog, append-Appends}
use jitcompilation.Log.Reads.{Readable, GivesBytes, cache_set, read_loop-bytes}

-- A read that gives bytes of a log, which is in order after it.
pub record Reads (outside : Outside) (lfs : Logfs) (log : List ℕ) (off len : ℕ) : Type 0 where
  pub after : Logfs
  pub ran : logfs_read outside lfs off len ≡ gives (slice log off len, after)
  pub is_log : IsLog after log
  pub same : SameSizes lfs after

-- All of a log is on the device.
all_on_device :
    (lfs : Logfs) (done held : List ℕ)
    → Keeps lfs done held
    → lfs.write_buffer.last_avail ≡ length held
    → take (length (done ++ held)) lfs.device.bytes ≡ done ++ held
all_on_device lfs done held h all_synced =
    ap (λ n. take n lfs.device.bytes) (omega (arith, length-append done held, h.tail_at))
    ∙ sym (slice-add lfs.device.bytes 0 lfs.tail_offset (length held))
    ∙ ap (λ xs. xs ++ slice lfs.device.bytes (0 + lfs.tail_offset) (length held)) h.on_device
    ∙ ap (λ xs. done ++ xs) held_there
  where
    held_there : slice lfs.device.bytes (0 + lfs.tail_offset) (length held) ≡ held
    held_there =
        ap (λ p. slice lfs.device.bytes p (length held)) (omega arith)
        ∙ ap (slice lfs.device.bytes lfs.tail_offset) (sym all_synced)
        ∙ h.synced
        ∙ take-all lfs.write_buffer.last_avail held (omega (arith, all_synced))

module _ (outside : Outside) (works : (n : ℕ) → outside.works n ≡ true) (lfs : Logfs) (log : List ℕ)
    (h : IsLog lfs log) (room : length log + lfs.device.block ≤ lfs.device.size) where
  log_length : length h.done + length h.held ≡ length log
  log_length = sym (length-append h.done h.held) ∙ ap length h.parts

  copied : Copied outside lfs h.done h.held
  copied =
      flush_copy-Flushed outside works lfs h.done h.held h.keeps
        (omega (arith, room, log_length, h.keeps.tail_at)) (omega (arith, h.few))

  readable : Readable copied.0.after
  readable =
      let k = copied.0.keeps in
      record {
        some_bytes = k.fits.some_bytes;
        elem_block = k.elem_block;
        extent = k.extent;
        whole = k.whole;
        coherent = k.coherent;
      }

  on_device : take (length log) copied.0.after.device.bytes ≡ log
  on_device =
      ap (λ xs. take (length xs) copied.0.after.device.bytes) (sym h.parts)
      ∙ all_on_device copied.0.after h.done h.held copied.0.keeps copied.1
      ∙ h.parts

  module _ (off len : ℕ) (inside : off + len ≤ length log) where
    found :
        GivesBytes copied.0.after
          (slice copied.0.after.device.bytes off len)
          (read_loop outside len copied.0.after off len)
    found =
        read_loop-bytes outside works len copied.0.after off len readable (omega arith)
          (omega (arith, inside, room, copied.0.same_device))

    same_bytes : slice copied.0.after.device.bytes off len ≡ slice log off len
    same_bytes =
        sym (
          slice-take copied.0.after.device.bytes off len (length log) inside
            (omega (arith, room, copied.0.same_device, copied.0.keeps.extent)))
        ∙ ap (λ xs. slice xs off len) on_device

    -- If every transfer of the device works and a block of it is free behind the log, a read inside a
    -- log in order returns the bytes of the log, which stays in order.
    pub read-Reads : Reads outside lfs log off len
    unfolding logfs_read logfs_read_with_flush
    read-Reads = record {
      after = cache_set copied.0.after found.read_cache found.calls;
      ran =
          ap (λ call. bind_call call (λ lfs'. read_loop outside len lfs' off len)) copied.0.ran
          ∙ found.result
          ∙ ap (λ xs. gives (xs, cache_set copied.0.after found.read_cache found.calls)) same_bytes;
      is_log =
          let k = copied.0.keeps in
          record {
            done = h.done;
            held = h.held;
            keeps = record {
              fits = k.fits;
              holds = k.holds;
              elem_block = found.readable.elem_block;
              extent = k.extent;
              whole = k.whole;
              tail_whole = k.tail_whole;
              tail_at = k.tail_at;
              tail_in = k.tail_in;
              on_device = k.on_device;
              synced_in = k.synced_in;
              synced = k.synced;
              coherent = found.readable.coherent;
            };
            parts = h.parts;
            few = omega (arith, h.few, copied.0.same_block);
            ring = omega (arith, h.ring, copied.0.same_block, copied.0.same_ring);
          };
      same = record {
        same_device = copied.0.same_device;
        same_block = copied.0.same_block;
        same_ring = copied.0.same_ring;
      };
    }

-- What a client asks for.
pub data Request : Type 0 where
  append : List ℕ → Request
  read : ℕ → ℕ → Request

-- The program's answers to the reads of a client, one request after the other.
unfoldable pub answer_all : Outside → Logfs → List Request → Call (List (List ℕ))
answer_all outside lfs [] = gives []
answer_all outside lfs (append buf ∷ requests) =
    bind_call (logfs_append outside lfs buf) (λ lfs'. answer_all outside lfs' requests)
answer_all outside lfs (read off len ∷ requests) =
    bind_call (logfs_read outside lfs off len) (λ found.
      bind_call (answer_all outside found.1 requests) (λ answers. gives (found.0 ∷ answers)))

abbrev answer_rest : Outside → List Request → List ℕ × Logfs → Call (List (List ℕ))
answer_rest outside requests found =
    bind_call (answer_all outside found.1 requests) (λ answers. gives (found.0 ∷ answers))

-- The answers of a list of bytes that grows at its end.
unfoldable pub expected : List ℕ → List Request → List (List ℕ)
expected log [] = []
expected log (append buf ∷ requests) = expected (log ++ buf) requests
expected log (read off len ∷ requests) = slice log off len ∷ expected log requests

-- Appends of at most a block, reads inside the log, and a device with a block to spare.
unfoldable pub Allowed : ℕ → ℕ → List ℕ → List Request → Type 0
Allowed blk size log [] = Unit {0}
Allowed blk size log (append buf ∷ requests) =
    (length buf ≤ blk) × (length log + blk ≤ size) × Allowed blk size (log ++ buf) requests
Allowed blk size log (read off len ∷ requests) =
    (off + len ≤ length log) × (length log + blk ≤ size) × Allowed blk size log requests

Allowed-SameSizes :
    (lfs lfs' : Logfs) (log : List ℕ) (requests : List Request)
    → SameSizes lfs lfs'
    → Allowed lfs.device.block lfs.device.size log requests
    → Allowed lfs'.device.block lfs'.device.size log requests
Allowed-SameSizes lfs lfs' log requests same ok =
    subst (λ blk. Allowed blk lfs'.device.size log requests) (sym same.same_block)
      (subst (λ size. Allowed lfs.device.block size log requests) (sym same.same_device) ok)

module _ (outside : Outside) (works : (n : ℕ) → outside.works n ≡ true) where
  -- From a log in order, a client that keeps to what is allowed gets the answers of a growing list.
  pub answers-expected :
      (requests : List Request) (lfs : Logfs) (log : List ℕ)
      → IsLog lfs log
      → Allowed lfs.device.block lfs.device.size log requests
      → answer_all outside lfs requests ≡ gives (expected log requests)
  unfolding answer_all expected Allowed
  answers-expected [] lfs log h ok = refl
  answers-expected (append buf ∷ requests) lfs log h (short, room, ok) =
      let step = append-Appends outside works lfs log buf h short room in
      ap (λ call. bind_call call (λ lfs'. answer_all outside lfs' requests)) step.ran
      ∙ answers-expected requests step.after (log ++ buf) step.is_log
          (Allowed-SameSizes lfs step.after (log ++ buf) requests step.same ok)
  answers-expected (read off len ∷ requests) lfs log h (inside, room, ok) =
      let step = read-Reads outside works lfs log h room off len inside in
      ap (λ call. bind_call call (answer_rest outside requests)) step.ran
      ∙ ap (λ call. bind_call call (λ answers. gives (slice log off len ∷ answers)))
          (answers-expected requests step.after log step.is_log
            (Allowed-SameSizes lfs step.after log requests step.same ok))
