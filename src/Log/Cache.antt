-- ===== src/Log/Cache.antt =====
-- The read cache of p4/logfs.c.
use jitcompilation.Prelude.{
  ℕ, zero, suc, ◌*◌, ◌/◌, ◌%◌, Bool, true, false, ◌&&◌, Option, none, some, List, [], ◌∷◌, map, set,
  replicate, ◌==◌, if◌then◌else◌,
}
use jitcompilation.Log.Device.{bind_option}

-- `cache_elem_t`
pub record CacheElem : Type 0 where
  pub begin_offset : ℕ
  pub data_bytes : List ℕ
  pub valid : Bool

-- `read_cache_t`: `num_elems` places of `elem_size` bytes.
pub record ReadCache : Type 0 where
  pub num_elems : ℕ
  pub elem_size : ℕ
  pub cache : List CacheElem

abbrev pub unused_elem : ℕ → CacheElem
unused_elem elem_size = record {
  begin_offset = 0;
  data_bytes = replicate elem_size 0;
  valid = false;
}

-- `fresh` says whether the n-th allocation succeeds, from `i`.
abbrev pub fill_cache : (ℕ → Bool) → ℕ → ℕ → ℕ → Option (List CacheElem)
fill_cache fresh elem_size i zero = some []
fill_cache fresh elem_size i (suc left) =
    let rest = fill_cache fresh elem_size (suc i) left in
    if fresh i then bind_option rest (λ cache. some (unused_elem elem_size ∷ cache)) else none

unfoldable pub read_cache_open : (ℕ → Bool) → ℕ → ℕ → Option ReadCache
read_cache_open fresh num_elems elem_size =
    if fresh 0 && fresh 1
    then bind_option (fill_cache fresh elem_size 2 num_elems)
        (λ cache. some (record { num_elems = num_elems; elem_size = elem_size; cache = cache }))
    else none

abbrev pub find_unused : List CacheElem → ℕ → Option ℕ
find_unused [] i = none
find_unused (elem ∷ cache) i = if elem.valid then find_unused cache (suc i) else some i

-- The place that is filled: an unused one, or the one that `rand` chooses.
abbrev pub found_index : ReadCache → ℕ → ℕ
found_index rc rand = elim (find_unused rc.cache 0) [ none ↦ rand % rc.num_elems | some i ↦ i ]

unfoldable pub read_cache_add : ReadCache → List ℕ → ℕ → ℕ → ReadCache
read_cache_add rc buff offset rand = record rc {
  cache =
      set rc.cache (found_index rc rand)
        (record { begin_offset = offset; data_bytes = buff; valid = true });
}

abbrev pub rounded_down : ReadCache → ℕ → ℕ
rounded_down rc offset = offset / rc.elem_size * rc.elem_size

abbrev pub first_match : List CacheElem → ℕ → Option CacheElem
first_match [] offset = none
first_match (elem ∷ cache) offset =
    if (offset == elem.begin_offset) && elem.valid then some elem else first_match cache offset

unfoldable pub read_cache_lookup : ReadCache → ℕ → Option CacheElem
read_cache_lookup rc offset = first_match rc.cache (rounded_down rc offset)

abbrev pub drop_elem : ℕ → ℕ → CacheElem → CacheElem
drop_elem elem_size offset elem =
    if (offset == elem.begin_offset) && elem.valid
    then record elem { valid = false; data_bytes = replicate elem_size 0 }
    else elem

-- `none` is an exit.
unfoldable pub read_cache_invalidate : ReadCache → ℕ → Option ReadCache
read_cache_invalidate rc offset =
    if rounded_down rc offset == offset
    then some (record rc { cache = map (drop_elem rc.elem_size offset) rc.cache })
    else none
