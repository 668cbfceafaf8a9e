-- ===== src/Naming/System/Valid.antt =====
-- Functions that end in a valid state if they start in one, and do not wait for ever; the search is
-- one.
use network_file_system.Prelude.{
  ℕ, ◌<◌, ◌≡◌, refl, ap, ◌∙◌, Bool, true, false, Option, none, some, Option-cases, Bool-cases, inl,
  inr, arith, Bytes, length, ltb, ltb→lt, if◌then◌else◌,
}
use network_file_system.Tries.Defs.{max_path, parse_path}
use network_file_system.Naming.Cache.Defs.{search_cache}
use network_file_system.Naming.Cache.View.{view, position, push_back, search_cache-position}
use network_file_system.Naming.World.{
  Network, World, Outcome, ok, blocked, fault, M, ◌>>=◌, ◌>>◌, return, when, sem_wait_lem,
}
use network_file_system.Naming.Valid.{IsValid}
use network_file_system.Naming.Search.Defs.{search_in_tries, search_miss, search_storage_server}
use network_file_system.Naming.Search.Lookup.{
  Answer, in_table, remember, search_storage_server-hit, search_storage_server_lem,
}
use network_file_system.Naming.Commands.Removed.{position-touch, position-push_back}
use network_file_system.Naming.System.Keeps.{Inv, Safe, Safe-bind, Safe-ok, Keeps}

pub Inv-IsValid : (w : World) → IsValid w → Inv 1 w.storage_server_index w.storage_server_index w
Inv-IsValid w v = record {
  cached = v.cached;
  counted = refl;
  known = v.known;
  table = v.table;
  trees = v.trees;
  free = v.free;
}

pub IsValid-Inv : (n : ℕ) (w : World) → Inv 1 n n w → IsValid w
IsValid-Inv n w v = record {
  cached = v.cached;
  known = rw v.counted v.known;
  table = v.table;
  trees = rw v.counted v.trees;
  free = v.free;
}

unfoldable pub StaysValid : {A : Type 0} → M A → Type 0
StaysValid m = (w : World) → IsValid w → Safe (m w) (λ a w'. IsValid w')

pub Safe-map :
    {A : Type 0} (P Q : A → World → Type 0) (o : Outcome A)
    → ((a : A) (w : World) → P a w → Q a w)
    → Safe o P
    → Safe o Q
Safe-map P Q (ok a w) f h = f a w h
Safe-map P Q blocked f h = h
Safe-map P Q fault f h = h

-- With the semaphore at 1 when the function starts.
pub StaysValid-Keeps_free : {A : Type 0} (m : M A) → ((n r : ℕ) → Keeps 1 n r m) → StaysValid m
unfolding StaysValid Keeps
StaysValid-Keeps_free m h w v =
    let n = w.storage_server_index in
    Safe-map (λ a w'. Inv 1 n n w') (λ a w'. IsValid w') (m w) (λ a w' i. IsValid-Inv n w' i)
      (h n n w (Inv-IsValid w v))

pub StaysValid-Keeps : {A : Type 0} (m : M A) → ((k n r : ℕ) → Keeps k n r m) → StaysValid m
StaysValid-Keeps m h = StaysValid-Keeps_free m (h 1)

pub StaysValid-bind :
    {A B : Type 0} (m : M A) (f : A → M B)
    → StaysValid m
    → ((a : A) → StaysValid (f a))
    → StaysValid (m >>= f)
unfolding StaysValid
StaysValid-bind m f h i w v =
    Safe-bind (m w) f (λ a w'. IsValid w') (λ b w'. IsValid w') (h w v) (λ a w' v'. i a w' v')

pub StaysValid-then :
    {A B : Type 0} (m : M A) (f : M B) → StaysValid m → StaysValid f → StaysValid (m >> f)
StaysValid-then m f h i = StaysValid-bind m (λ a. f) h (λ a. i)

pub StaysValid-return : {A : Type 0} (a : A) → StaysValid (return a)
unfolding StaysValid
StaysValid-return a w v = v

pub StaysValid-if :
    {A : Type 0} (b : Bool) (m f : M A)
    → StaysValid m
    → StaysValid f
    → StaysValid (if b then m else f)
StaysValid-if true m f h i = h
StaysValid-if false m f h i = i

pub StaysValid-when : (b : Bool) (m : M (Unit {0})) → StaysValid m → StaysValid (when b m)
StaysValid-when true m h = h
StaysValid-when false m h = StaysValid-return tt

pub ruleset stays_valid =
    (StaysValid-bind, StaysValid-then, StaysValid-return, StaysValid-if, StaysValid-when)

-- What a search leaves: an index of the table or -1, and the path in the cache where it found one.
pub record IsFound (p : Bytes) (r : Option ℕ) (w : World) : Type 0 where
  pub valid : IsValid w
  pub below : in_table r w.storage_server_index ≡ true
  pub remembered : (i : ℕ) → r ≡ some i → (j : ℕ) × (position p (view w.cache) ≡ some j)

module _ (net : Network) where
  Answer-searched :
      (p : Bytes) (w : World) → Answer net p w → Safe (search_storage_server net p w) (IsFound p)
  Answer-searched p w (r, w', searched, valid, below, inl (i, hit, _, seen)) =
      Safe-ok (IsFound p) (search_storage_server net p w) r w' searched (record {
        valid = valid;
        below = below;
        remembered = λ k e. rw seen (position-touch p (view w.cache) i hit);
      })
  Answer-searched p w (r, w', searched, valid, below, inr (miss, _, seen)) =
      Safe-ok (IsFound p) (search_storage_server net p w) r w' searched (record {
        valid = valid;
        below = below;
        remembered = λ k e.
            let seen' : view w'.cache ≡ push_back p (some k) (view w.cache) =
              seen ∙ ap (λ t. remember p t (view w.cache)) e in
            rw seen' (position-push_back p (some k) (view w.cache));
      })

  -- A path that is too long and not in the cache is written behind the end of its array.
  search_long :
      (p : Bytes) (w : World)
      → IsValid w
      → position p (view w.cache) ≡ none
      → ltb (length (parse_path p)) max_path ≡ false
      → search_storage_server net p w ≡ fault
  unfolding search_storage_server search_miss search_in_tries
  search_long p w v miss long =
      let open_ : 0 < w.storage_semaphore = omega (arith, v.free) in
      let missed : search_cache p w.cache ≡ none = search_cache-position p w.cache ∙ miss in
      rw (sem_wait_lem w open_, ◌>>=◌, missed, long) refl

  pub search-IsFound :
      (p : Bytes) (w : World) → IsValid w → Safe (search_storage_server net p w) (IsFound p)
  search-IsFound p w v = elim (Option-cases (position p (view w.cache))) [
    | inr (i, hit) ↦ Answer-searched p w (search_storage_server-hit net p w i v hit)
    | inl miss ↦ elim (Bool-cases (ltb (length (parse_path p)) max_path)) [
      | inl short ↦ Answer-searched p w (search_storage_server_lem net p w v (ltb→lt _ _ short))
      | inr long ↦ rw (search_long p w v miss long) tt
    ]
  ]

  pub StaysValid-search : (p : Bytes) → StaysValid (search_storage_server net p)
  unfolding StaysValid
  StaysValid-search p w v =
      Safe-map (IsFound p) (λ a w'. IsValid w') (search_storage_server net p w) (λ a w' f. f.valid)
        (search-IsFound p w v)

  -- A search, and what goes on with what it found.
  pub StaysValid-found :
      {B : Type 0} (p : Bytes) (f : Option ℕ → M B)
      → ((r : Option ℕ) (w : World) → IsFound p r w → Safe (f r w) (λ b w'. IsValid w'))
      → StaysValid (search_storage_server net p >>= f)
  unfolding StaysValid
  StaysValid-found p f h w v =
      Safe-bind (search_storage_server net p w) f (IsFound p) (λ b w'. IsValid w')
        (search-IsFound p w v) h
