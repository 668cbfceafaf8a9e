-- ===== src/Naming/Cache/Defs.antt =====
-- The cache of naming_server.c: an array of `CACHE_CAPACITY` entries of which the first `size`
-- are in use, least recently used first.
use network_file_system.Prelude.{
  ℕ, zero, suc, ◌-◌, ◌+◌, Bool, true, false, Option, none, some, List, [], ◌∷◌, Bytes, str_eq,
  get_or, set, replicate, ltb, ◌==◌, if◌then◌else◌,
}

abbrev pub cache_capacity : ℕ
cache_capacity = 3

-- `key` is none where it is NULL, `index` where it is -1.
pub record CacheEntry : Type 0 where
  pub key : Option Bytes
  pub index : Option ℕ

pub record LruCache : Type 0 where
  pub queue : List CacheEntry
  pub size : ℕ

abbrev pub empty_entry : CacheEntry
empty_entry = record { key = none; index = none }

unfoldable pub initialize_cache : LruCache
initialize_cache = record { queue = replicate cache_capacity empty_entry; size = 0 }

-- `strcmp(entry.key, key) == 0`. No entry in use has a NULL key.
unfoldable pub has_key : Bytes → CacheEntry → Bool
has_key key e = elim e.key [ some k ↦ str_eq k key | none ↦ false ]

-- The loop of `search_cache` at `i`, with `left` entries to go.
unfoldable pub search_from : Bytes → (left i : ℕ) → List CacheEntry → Option ℕ
unfolding has_key
search_from key zero i q = none
search_from key (suc n) i [] = none
search_from key (suc n) i (e ∷ q) =
    let rest = search_from key n (suc i) q in if has_key key e then some i else rest

-- `search_cache`: none for -1.
unfoldable pub search_cache : Bytes → LruCache → Option ℕ
unfolding search_from
search_cache key c = search_from key c.size 0 c.queue

-- `n` rounds of `queue[i] = queue[i + 1]`, for `i` counting up.
unfoldable pub shift_left : (n i : ℕ) → List CacheEntry → List CacheEntry
shift_left zero i q = q
shift_left (suc n) i q = shift_left n (suc i) (set q i (get_or q (suc i) empty_entry))

unfoldable pub evict_lru : LruCache → LruCache
unfolding shift_left
evict_lru c =
    if ltb 0 c.size
    then record { queue = shift_left (c.size - 1) 0 c.queue; size = c.size - 1 }
    else c

-- The assignments of `add_to_cache`, behind its test.
unfoldable pub append_entry : Bytes → Option ℕ → LruCache → LruCache
append_entry key index c = record {
  queue = set c.queue c.size (record { key = some key; index = index });
  size = c.size + 1;
}

unfoldable pub add_to_cache : Bytes → Option ℕ → LruCache → LruCache
unfolding evict_lru append_entry
add_to_cache key index c =
    append_entry key index (if c.size == cache_capacity then evict_lru c else c)

unfoldable pub move_to_back : ℕ → LruCache → LruCache
unfolding shift_left
move_to_back index c =
    let temp = get_or c.queue index empty_entry in
    let shifted = shift_left (c.size - 1 - index) index c.queue in
    record { queue = set shifted (c.size - 1) temp; size = c.size }

-- `delete_from_cache`: true if the key was not found, where the source posts the semaphore.
unfoldable pub delete_from_cache : Bytes → LruCache → LruCache × Bool
unfolding search_cache shift_left
delete_from_cache key c = elim (search_cache key c) [
  | none ↦ (c, true)
  | some index ↦
      (record { queue = shift_left (c.size - 1 - index) index c.queue; size = c.size - 1 }, false)
]
