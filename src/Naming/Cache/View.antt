-- ===== src/Naming/Cache/View.antt =====
-- The cache as a list, least recently used first: what each function does to that list, and the
-- invariant of the array.
use network_file_system.Prelude.{
  ℕ, zero, suc, ◌+◌, ◌-◌, ◌<◌, ◌≤◌, ◌≡◌, refl, sym, ap, ◌∙◌, true, false, Option, none, some,
  Option-cases, Bool-cases, inl, inr, arith, List, [], ◌∷◌, ◌++◌, Bytes, length, length-set, take,
  set, get_or, lt→ltb, ltb, ltb→lt, ◌⊎◌, ◌==◌, if◌then◌else◌,
}
use network_file_system.Naming.Cache.Defs.{
  CacheEntry, LruCache, cache_capacity, empty_entry, initialize_cache, has_key, search_from,
  search_cache, shift_left, evict_lru, append_entry, add_to_cache, move_to_back, delete_from_cache,
}
use network_file_system.Naming.Cache.Array.{remove_at, take-set, length-shift_left, take-shift_left}

-- The entries in use.
abbrev pub view : LruCache → List CacheEntry
view c = take c.size c.queue

pub record IsValid (c : LruCache) : Type 0 where
  pub whole : length c.queue ≡ cache_capacity
  pub bounded : c.size ≤ cache_capacity

length-take_le : {A : Type 0} (n : ℕ) (q : List A) → n ≤ length q → length (take n q) ≡ n
length-take_le zero q h = refl
length-take_le (suc n) [] h = absurd (omega arith)
length-take_le (suc n) (x ∷ q) h = ap suc (length-take_le n q (omega arith))

pub get_or-take :
    {A : Type 0} (n i : ℕ) (q : List A) (d : A) → i < n → get_or (take n q) i d ≡ get_or q i d
get_or-take zero i q d h = absurd (omega arith)
get_or-take (suc n) i [] d h = refl
get_or-take (suc n) zero (x ∷ q) d h = refl
get_or-take (suc n) (suc i) (x ∷ q) d h = get_or-take n i q d (omega arith)

pub length-view : (c : LruCache) → IsValid c → length (view c) ≡ c.size
length-view c v = length-take_le c.size c.queue (omega arith)

-- The first entry with the key.
unfoldable pub position : Bytes → List CacheEntry → Option ℕ
position key [] = none
position key (e ∷ v) =
    if has_key key e then some 0 else elim (position key v) [ some i ↦ some (suc i) | none ↦ none ]

-- The list that `add_to_cache`, `move_to_back` and `delete_from_cache` stand for.
unfoldable pub push_back : Bytes → Option ℕ → List CacheEntry → List CacheEntry
push_back key index v =
    (if length v == cache_capacity then remove_at 0 v else v)
    ++ record { key = some key; index = index } ∷ []

unfoldable pub touch : ℕ → List CacheEntry → List CacheEntry
touch i v = remove_at i v ++ get_or v i empty_entry ∷ []

unfoldable pub remove_key : Bytes → List CacheEntry → List CacheEntry
remove_key key v = elim (position key v) [ some i ↦ remove_at i v | none ↦ v ]

abbrev offset : ℕ → Option ℕ → Option ℕ
offset i none = none
offset i (some j) = some (i + j)

search_from_lem :
    (key : Bytes) (n i : ℕ) (q : List CacheEntry)
    → search_from key n i q ≡ offset i (position key (take n q))
unfolding search_from position
search_from_lem key zero i q = refl
search_from_lem key (suc n) i [] = refl
search_from_lem key (suc n) i (e ∷ q) =
    ground (arith, search_from_lem key n (suc i) q, Option-cases (position key (take n q)))

pub search_cache-position :
    (key : Bytes) (c : LruCache) → search_cache key c ≡ position key (view c)
unfolding search_cache
search_cache-position key c =
    ground (arith, search_from_lem key c.size 0 c.queue, Option-cases (position key (view c)))

pub position-lt :
    (key : Bytes) (v : List CacheEntry) (i : ℕ) → position key v ≡ some i → i < length v
unfolding position
position-lt key [] i h = cc
position-lt key (e ∷ v) i h = elim (Option-cases (position key v)) [
  | inl miss ↦ ground arith
  | inr (j, hit) ↦ ground (arith, position-lt key v j hit)
]

-- Taking the entry at `i` out of a valid cache that has it.
view-remove :
    (c : LruCache) (i : ℕ)
    → IsValid c
    → i < c.size
    → take (c.size - 1) (shift_left (c.size - 1 - i) i c.queue) ≡ remove_at i (view c)
view-remove c i v h =
    let back : suc (c.size - 1) ≡ c.size = omega arith in
    take-shift_left (c.size - 1 - i) i (c.size - 1) c.queue (omega arith) (omega arith)
    ∙ ap (λ n. remove_at i (take n c.queue)) back

evict_lru-view :
    (c : LruCache)
    → IsValid c
    → 0 < c.size
    → IsValid (evict_lru c)
      × (view (evict_lru c) ≡ remove_at 0 (view c))
      × ((evict_lru c).size ≡ c.size - 1)
unfolding evict_lru
evict_lru-view c v h =
    let back : suc (c.size - 1) ≡ c.size = omega arith in
    rw (lt→ltb 0 c.size h) (
      record { whole = length-shift_left (c.size - 1) 0 c.queue ∙ v.whole; bounded = omega arith },
      take-shift_left (c.size - 1) 0 (c.size - 1) c.queue (omega arith) (omega arith)
          ∙ ap (λ n. remove_at 0 (take n c.queue)) back,
      refl,
    )

append_entry-view :
    (key : Bytes) (index : Option ℕ) (c : LruCache)
    → IsValid c
    → c.size < cache_capacity
    → IsValid (append_entry key index c)
      × (view (append_entry key index c) ≡ view c ++ record { key = some key; index = index } ∷ [])
unfolding append_entry
append_entry-view key index c v h =
    let e : CacheEntry = record { key = some key; index = index } in
    let next : c.size + 1 ≡ suc c.size = omega arith in
    (
      record { whole = length-set _ _ _ ∙ v.whole; bounded = omega arith },
      ap (λ n. take n (set c.queue c.size e)) next ∙ take-set c.size c.queue e (omega arith),
    )

add_to_cache_lem :
    (key : Bytes) (index : Option ℕ) (c : LruCache)
    → add_to_cache key index c
      ≡ append_entry key index (if c.size == cache_capacity then evict_lru c else c)
unfolding add_to_cache
add_to_cache_lem key index c = refl

pub add_to_cache-view :
    (key : Bytes) (index : Option ℕ) (c : LruCache)
    → IsValid c
    → IsValid (add_to_cache key index c)
      × (view (add_to_cache key index c) ≡ push_back key index (view c))
unfolding push_back
add_to_cache-view key index c v = elim (Bool-cases (c.size == cache_capacity)) [
  | inl full ↦
      let (valid, shorter, size) = evict_lru-view c v (ground arith) in
      let room : (evict_lru c).size < cache_capacity = ground arith in
      let (kept, seen) = append_entry-view key index (evict_lru c) valid room in
      rw (add_to_cache_lem, full, length-view c v, full) (kept, rw (seen, shorter))
  | inr free ↦
      let (kept, seen) = append_entry-view key index c v (ground arith) in
      rw (add_to_cache_lem, free, length-view c v, free) (kept, seen)
]

pub move_to_back-view :
    (i : ℕ) (c : LruCache)
    → IsValid c
    → i < c.size
    → IsValid (move_to_back i c) × (view (move_to_back i c) ≡ touch i (view c))
unfolding move_to_back touch
move_to_back-view i c v h =
    let shifted = shift_left (c.size - 1 - i) i c.queue in
    let e = get_or c.queue i empty_entry in
    let next : c.size ≡ suc (c.size - 1) = omega arith in
    let same : length shifted ≡ length c.queue = length-shift_left (c.size - 1 - i) i c.queue in
    (
      record { whole = length-set _ _ _ ∙ same ∙ v.whole; bounded = v.bounded },
      ap (λ n. take n (set shifted (c.size - 1) e)) next
          ∙ take-set (c.size - 1) shifted e (omega arith)
          ∙ ap (λ l. l ++ e ∷ []) (view-remove c i v h)
          ∙ ap (λ (x : CacheEntry). remove_at i (view c) ++ x ∷ [])
              (sym (get_or-take c.size i c.queue empty_entry h)),
    )

delete_miss :
    (key : Bytes) (c : LruCache) → search_cache key c ≡ none → delete_from_cache key c ≡ (c, true)
unfolding delete_from_cache
delete_miss key c h = ground arith

delete_hit :
    (key : Bytes) (c : LruCache) (i : ℕ)
    → search_cache key c ≡ some i
    → delete_from_cache key c
      ≡ (record { queue = shift_left (c.size - 1 - i) i c.queue; size = c.size - 1 }, false)
unfolding delete_from_cache
delete_hit key c i h = ground arith

pub delete_from_cache-view :
    (key : Bytes) (c : LruCache)
    → IsValid c
    → IsValid (delete_from_cache key c).0
      × (view (delete_from_cache key c).0 ≡ remove_key key (view c))
unfolding remove_key
delete_from_cache-view key c v = elim (Option-cases (position key (view c))) [
  | inl miss ↦
      rw (delete_miss key c (search_cache-position key c ∙ miss), miss, remove_key) (v, refl)
  | inr (i, hit) ↦
      let used : i < c.size = omega (arith, position-lt key (view c) i hit, length-view c v) in
      rw (delete_hit key c i (search_cache-position key c ∙ hit), hit, remove_key)
        (
          record {
            whole = length-shift_left (c.size - 1 - i) i c.queue ∙ v.whole;
            bounded = omega arith;
          },
          view-remove c i v used,
        )
]

pub initialize_cache-view : IsValid initialize_cache × (view initialize_cache ≡ [])
unfolding initialize_cache
initialize_cache-view = (record { whole = refl; bounded = omega arith }, refl)

-- The cache starts valid and empty. On a valid cache each function leaves a valid one, and acts
-- on the list of the entries in use: a search gives the first position of the key, an addition
-- drops the least recent entry if all are in use and puts the new one at the back, an entry in use moves
-- to the back, and a removal takes out the first entry with the key.
pub cache_refines_list :
    (key : Bytes) (index : Option ℕ) (i : ℕ) (c : LruCache)
    → IsValid c
    → (IsValid initialize_cache × (view initialize_cache ≡ []))
      × (search_cache key c ≡ position key (view c))
      × (IsValid (add_to_cache key index c)
          × (view (add_to_cache key index c) ≡ push_back key index (view c)))
      × ((c.size ≤ i) ⊎ (IsValid (move_to_back i c) × (view (move_to_back i c) ≡ touch i (view c))))
      × (IsValid (delete_from_cache key c).0
          × (view (delete_from_cache key c).0 ≡ remove_key key (view c)))
cache_refines_list key index i c v = (
  initialize_cache-view,
  search_cache-position key c,
  add_to_cache-view key index c v,
  elim (Bool-cases (ltb i c.size)) [
    | inl used ↦ inr (move_to_back-view i c v (ltb→lt _ _ used))
    | inr unused ↦ inl (ground arith)
  ],
  delete_from_cache-view key c v,
)
