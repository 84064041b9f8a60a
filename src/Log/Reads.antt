-- ===== src/Log/Reads.antt =====
-- The loop of logfs_read_with_flush in p4/logfs.c: it copies the bytes of the device, through a cache
-- that agrees with it.
use jitcompilation.Prelude.{
  ℕ, zero, suc, ◌+◌, ◌-◌, ◌*◌, ◌/◌, ◌%◌, ◌≤◌, ◌<◌, ◌≡◌, inl, inr, refl, sym, ap, ◌∙◌, true, false,
  List, ◌++◌, length, leb, ◌==◌, Option-cases, Bool-cases, arith,
}
use native.Mathlib.Nat.{mod_self, mod-lt, mul-mod_left, div-add-mod'}
use jitcompilation.Prelude.Bytes.{slice, slice-slice, slice-add}
use jitcompilation.Log.Device.{Call, gives, bind_call, is_aligned, device_read}
use jitcompilation.Log.Cache.{
  ReadCache, read_cache_add, rounded_down, read_cache_lookup, found_index,
}
use jitcompilation.Log.Coherent.{Coherent, first_match-IsFresh, set-Coherent, block_after}
use jitcompilation.Log.Store.{
  Outside, Logfs, after_lookup, cached, read_block, index_of, to_cpy, read_loop,
}

-- Only the cache and the count of calls change.
abbrev pub cache_set : Logfs → ReadCache → ℕ → Logfs
cache_set lfs read_cache calls = record lfs { read_cache = read_cache; calls = calls }

-- Whole blocks, and a cache that agrees with the device.
pub record Readable (lfs : Logfs) : Type 0 where
  pub some_bytes : 0 < lfs.device.block
  pub elem_block : lfs.read_cache.elem_size ≡ lfs.device.block
  pub extent : length lfs.device.bytes ≡ lfs.device.size
  pub whole : lfs.device.size % lfs.device.block ≡ 0
  pub coherent : Coherent lfs.device.bytes lfs.device.block lfs.read_cache.cache

-- A call that gives some bytes, and changes at most the cache.
pub record GivesBytes (lfs : Logfs) (bytes : List ℕ) (ran : Call (List ℕ × Logfs)) : Type 0 where
  pub read_cache : ReadCache
  pub calls : ℕ
  pub result : ran ≡ gives (bytes, cache_set lfs read_cache calls)
  pub readable : Readable (cache_set lfs read_cache calls)

module _ (outside : Outside) (works : (n : ℕ) → outside.works n ≡ true) where
  module _ (lfs : Logfs) (h : Readable lfs) (off : ℕ) (inside : off < lfs.device.size) where
    -- Where the block of `off` begins.
    abbrev down : ℕ
    down = rounded_down lfs.read_cache off

    down_whole : down % lfs.device.block ≡ 0
    down_whole =
        ap (λ n. off / n * n % lfs.device.block) h.elem_block
        ∙ mul-mod_left (off / lfs.device.block) lfs.device.block

    down_near : (down ≤ off) × (off < down + lfs.device.block)
    down_near =
        let e : down ≡ off / lfs.device.block * lfs.device.block =
          ap (λ n. off / n * n) h.elem_block in
        let parts = div-add-mod' off lfs.device.block in
        let rest = mod-lt off {m = lfs.device.block} h.some_bytes in
        (omega (arith, e, parts), omega (arith, e, parts, rest))

    down_in : down + lfs.device.block ≤ lfs.device.size
    down_in =
        block_after down lfs.device.size lfs.device.block down_whole h.whole
          (omega (arith, down_near.0, inside))

    block_bytes : List ℕ
    block_bytes = slice lfs.device.bytes down lfs.device.block

    read_aligned : is_aligned lfs.device down lfs.read_cache.elem_size ≡ true
    read_aligned =
        let start : ((down % lfs.device.block) == 0) ≡ true = ground (arith, down_whole) in
        let all : ((lfs.read_cache.elem_size % lfs.device.block) == 0) ≡ true =
          ground (arith, ap (λ n. n % lfs.device.block) h.elem_block ∙ mod_self lfs.device.block) in
        let within : leb (down + lfs.read_cache.elem_size) lfs.device.size ≡ true =
          ground (arith, down_in, h.elem_block) in
        rw (start, all, within) refl

    from_device :
        device_read (outside.works lfs.calls) lfs.device down lfs.read_cache.elem_size
        ≡ gives (slice lfs.device.bytes down lfs.device.block)
    unfolding device_read
    from_device =
        rw (read_aligned, works lfs.calls)
          (ap (λ n. gives (slice lfs.device.bytes down n)) h.elem_block)

    added-Coherent :
        Coherent lfs.device.bytes lfs.device.block
          (read_cache_add lfs.read_cache
            (slice lfs.device.bytes down lfs.device.block)
            down
            (outside.rand lfs.calls)).cache
    unfolding read_cache_add
    added-Coherent =
        set-Coherent h.coherent (found_index lfs.read_cache (outside.rand lfs.calls))
          (record {
            begin_offset = down;
            data_bytes = slice lfs.device.bytes down lfs.device.block;
            valid = true;
          })
          (record { aligned = down_whole; within = omega (arith, down_in, h.extent); same = refl })

    same_elem_size :
        (read_cache_add lfs.read_cache
          (slice lfs.device.bytes down lfs.device.block)
          down
          (outside.rand lfs.calls)).elem_size
        ≡ lfs.device.block
    unfolding read_cache_add
    same_elem_size = h.elem_block

    read_block-bytes :
        GivesBytes lfs (slice lfs.device.bytes down lfs.device.block) (read_block outside lfs off)
    unfolding read_block read_cache_lookup
    read_block-bytes = elim (Option-cases (read_cache_lookup lfs.read_cache off)) [
      | inl missing ↦ record {
        read_cache =
            read_cache_add lfs.read_cache (slice lfs.device.bytes down lfs.device.block) down
              (outside.rand lfs.calls);
        calls = suc lfs.calls;
        result =
            ap (after_lookup outside lfs down) missing
            ∙ ap (λ call. bind_call call (λ tmp_buff. gives (cached outside lfs down tmp_buff)))
                from_device;
        readable = record {
          some_bytes = h.some_bytes;
          elem_block = same_elem_size;
          extent = h.extent;
          whole = h.whole;
          coherent = added-Coherent;
        };
      }
      | inr (elem, found) ↦
          let (there, fresh) = first_match-IsFresh h.coherent down found in
          record {
            read_cache = lfs.read_cache;
            calls = lfs.calls;
            result =
                ap (after_lookup outside lfs down) found
                ∙ ap (λ xs. gives (xs, lfs))
                    (fresh.same ∙ ap (λ p. slice lfs.device.bytes p lfs.device.block) there);
            readable = h;
          }
    ]

  -- What one round takes from its block.
  module _ (lfs : Logfs) (h : Readable lfs) (off len : ℕ) (some_left : 0 < len)
      (inside : off + len ≤ lfs.device.size) where
    off_in : off < lfs.device.size
    off_in = omega (arith, some_left, inside)

    near : (down lfs h off off_in ≤ off) × (off < down lfs h off off_in + lfs.device.block)
    near = down_near lfs h off off_in

    progress : (0 < to_cpy lfs off len) × (to_cpy lfs off len ≤ len)
    progress = (omega (arith, some_left, near, h.elem_block), omega arith)

    round_bytes :
        slice
            (slice lfs.device.bytes (down lfs h off off_in) lfs.device.block)
            (index_of lfs off)
            (to_cpy lfs off len)
          ++ slice lfs.device.bytes (off + to_cpy lfs off len) (len - to_cpy lfs off len)
        ≡ slice lfs.device.bytes off len
    round_bytes =
        ap
          (λ xs. xs ++ slice lfs.device.bytes (off + to_cpy lfs off len) (len - to_cpy lfs off len))
          (slice-slice lfs.device.bytes (down lfs h off off_in) lfs.device.block (index_of lfs off)
              (to_cpy lfs off len) (omega (arith, near, h.elem_block))
              (omega (arith, down_in lfs h off off_in, h.extent))
            ∙ ap (λ p. slice lfs.device.bytes p (to_cpy lfs off len)) (omega (arith, near)))
        ∙ slice-add lfs.device.bytes off (to_cpy lfs off len) (len - to_cpy lfs off len)
        ∙ ap (slice lfs.device.bytes off) (omega (arith, progress))

  none_left :
      (rounds : ℕ) (lfs : Logfs) (off len : ℕ)
      → Readable lfs
      → (len == 0) ≡ true
      → GivesBytes lfs (slice lfs.device.bytes off len) (read_loop outside rounds lfs off len)
  unfolding read_loop
  none_left zero lfs off len h e =
      let empty : len ≡ 0 = ground (arith, e) in
      record {
        read_cache = lfs.read_cache;
        calls = lfs.calls;
        result = rw e (ap (λ n. gives (slice lfs.device.bytes off n, lfs)) (sym empty));
        readable = h;
      }
  none_left (suc rounds) lfs off len h e =
      let empty : len ≡ 0 = ground (arith, e) in
      record {
        read_cache = lfs.read_cache;
        calls = lfs.calls;
        result = rw e (ap (λ n. gives (slice lfs.device.bytes off n, lfs)) (sym empty));
        readable = h;
      }

  abbrev block_of : Logfs → ℕ → List ℕ
  block_of lfs off = slice lfs.device.bytes (rounded_down lfs.read_cache off) lfs.device.block

  abbrev put_before : Logfs → ℕ → ℕ → List ℕ → List ℕ × Logfs → Call (List ℕ × Logfs)
  put_before lfs off len found rest =
      gives (slice found (index_of lfs off) (to_cpy lfs off len) ++ rest.0, rest.1)

  abbrev go_on : ℕ → Logfs → ℕ → ℕ → List ℕ × Logfs → Call (List ℕ × Logfs)
  go_on rounds lfs off len found =
      bind_call
        (read_loop outside rounds found.1 (off + to_cpy lfs off len) (len - to_cpy lfs off len))
        (put_before lfs off len found.0)

  one_round :
      (rounds : ℕ) (lfs : Logfs) (off len : ℕ)
      → (len == 0) ≡ false
      → read_loop outside (suc rounds) lfs off len
        ≡ bind_call (read_block outside lfs off) (go_on rounds lfs off len)
  unfolding read_loop
  one_round rounds lfs off len e = rw e refl

  -- With a round for each byte the loop ends, and gives the bytes of the device.
  pub read_loop-bytes :
      (rounds : ℕ) (lfs : Logfs) (off len : ℕ)
      → Readable lfs
      → len ≤ rounds
      → off + len ≤ lfs.device.size
      → GivesBytes lfs (slice lfs.device.bytes off len) (read_loop outside rounds lfs off len)
  read_loop-bytes zero lfs off len h enough inside =
      none_left zero lfs off len h (ground (arith, enough))
  read_loop-bytes (suc rounds) lfs off len h enough inside = elim (Bool-cases (len == 0)) [
    | inl e ↦ none_left (suc rounds) lfs off len h e
    | inr e ↦
        let some_left : 0 < len = ground (arith, e) in
        let found = read_block-bytes lfs h off (off_in lfs h off len some_left inside) in
        let steps = progress lfs h off len some_left inside in
        let rest =
          read_loop-bytes rounds (cache_set lfs found.read_cache found.calls)
            (off + to_cpy lfs off len) (len - to_cpy lfs off len) found.readable
            (omega (arith, enough, steps)) (omega (arith, inside, steps)) in
        record {
          read_cache = rest.read_cache;
          calls = rest.calls;
          result =
              one_round rounds lfs off len e
              ∙ ap (λ call. bind_call call (go_on rounds lfs off len)) found.result
              ∙ ap (λ call. bind_call call (put_before lfs off len (block_of lfs off))) rest.result
              ∙ ap (λ xs. gives (xs, cache_set lfs rest.read_cache rest.calls))
                  (round_bytes lfs h off len some_left inside);
          readable = rest.readable;
        }
  ]
