-- ===== src/Naming/Valid.antt =====
-- The invariant of the naming server's global variables, and total correctness of its functions:
-- what the small ones leave when they start in a state that meets it.
use network_file_system.Prelude.{
  ℕ, zero, suc, ◌<◌, ◌≡◌, refl, ◌∙◌, Bool, true, false, ◌&&◌, none, some, Option-cases, Bool-cases,
  inl, inr, arith, List, [], ◌∷◌, ◌++◌, Bytes, length, get_elem?, get_or, set, ltb, ◌==◌,
  if◌then◌else◌,
}
use network_file_system.Naming.Cache.Defs.{CacheEntry, cache_capacity, empty_entry}
use network_file_system.Naming.Cache.Array.{remove_at}
use network_file_system.Naming.Cache.View
use network_file_system.Naming.Cache.View.{view, touch, push_back}
use network_file_system.Naming.World.{
  StorageServerInfo, World, Outcome, ok, blocked, fault, M, max_storage_servers,
}

-- The function ends with a value, and the value and the state meet the condition.
abbrev pub Ensures : {A : Type 0} → Outcome A → (A → World → Type 0) → Type 0
Ensures (ok a w) P = P a w
Ensures blocked P = ⊥
Ensures fault P = ⊥

pub Ensures-bind :
    {A B : Type 0} (m : Outcome A) (f : A → M B) (P : A → World → Type 0) (Q : B → World → Type 0)
    → Ensures m P
    → ((a : A) (w : World) → P a w → Ensures (f a w) Q)
    → Ensures (elim m [ ok a w ↦ f a w | blocked ↦ blocked | fault ↦ fault ]) Q
Ensures-bind (ok a w) f P Q h k = k a w h
Ensures-bind blocked f P Q h k = absurd h
Ensures-bind fault f P Q h k = absurd h

-- The entry names one of the first `n` servers.
abbrev pub indexed : ℕ → CacheEntry → Bool
indexed n e = elim e.index [ some i ↦ ltb i n | none ↦ false ]

abbrev pub all_indexed : ℕ → List CacheEntry → Bool
all_indexed n [] = true
all_indexed n (e ∷ v) = indexed n e && all_indexed n v

-- The first `n` entries of the table exist and have a tree.
abbrev pub has_root : StorageServerInfo → Bool
has_root s = elim s.root [ some r ↦ true | none ↦ false ]

abbrev pub rooted : ℕ → List StorageServerInfo → Bool
rooted zero servers = true
rooted (suc n) [] = false
rooted (suc n) (s ∷ servers) = has_root s && rooted n servers

-- No other thread is inside the semaphore.
pub record IsValid (w : World) : Type 0 where
  pub cached : View.IsValid w.cache
  pub known : all_indexed w.storage_server_index (view w.cache) ≡ true
  pub table : length w.storage_servers ≡ max_storage_servers
  pub trees : rooted w.storage_server_index w.storage_servers ≡ true
  pub free : w.storage_semaphore ≡ 1

all_indexed-append :
    (n : ℕ) (xs ys : List CacheEntry)
    → all_indexed n (xs ++ ys) ≡ (all_indexed n xs && all_indexed n ys)
all_indexed-append n [] ys = refl
all_indexed-append n (x ∷ xs) ys =
    rw (all_indexed-append n xs ys) (ground (arith, Bool-cases (indexed n x)))

pub all_indexed-remove_at :
    (n i : ℕ) (xs : List CacheEntry)
    → all_indexed n xs ≡ true
    → all_indexed n (remove_at i xs) ≡ true
unfolding remove_at
all_indexed-remove_at n i [] h = refl
all_indexed-remove_at n zero (x ∷ xs) h = ground arith
all_indexed-remove_at n (suc i) (x ∷ xs) h = ground (arith, all_indexed-remove_at n i xs)

pub all_indexed-get_or :
    (n i : ℕ) (xs : List CacheEntry)
    → all_indexed n xs ≡ true
    → i < length xs
    → (k : ℕ) × ((get_or xs i empty_entry).index ≡ some k) × (k < n)
all_indexed-get_or n i [] h lt = absurd (omega arith)
all_indexed-get_or n zero (x ∷ xs) h lt = elim (Option-cases x.index) [
  | inl e ↦ ground arith
  | inr (k, e) ↦ (k, e, ground arith)
]
all_indexed-get_or n (suc i) (x ∷ xs) h lt = all_indexed-get_or n i xs (ground arith) (omega arith)

pub touch-all_indexed :
    (n i : ℕ) (v : List CacheEntry)
    → all_indexed n v ≡ true
    → i < length v
    → all_indexed n (touch i v) ≡ true
unfolding touch
touch-all_indexed n i v h lt =
    let (k, e, kn) = all_indexed-get_or n i v h lt in
    let last : indexed n (get_or v i empty_entry) ≡ true = ground arith in
    all_indexed-append n (remove_at i v) (get_or v i empty_entry ∷ [])
    ∙ ground (arith, all_indexed-remove_at n i v h, last)

pub push_back-all_indexed :
    (n i : ℕ) (key : Bytes) (v : List CacheEntry)
    → all_indexed n v ≡ true
    → i < n
    → all_indexed n (push_back key (some i) v) ≡ true
unfolding push_back
push_back-all_indexed n i key v h lt =
    let e : CacheEntry = record { key = some key; index = some i } in
    let front = if length v == cache_capacity then remove_at 0 v else v in
    let kept : all_indexed n front ≡ true =
      ground (arith, all_indexed-remove_at n 0 v h, Bool-cases (length v == cache_capacity)) in
    all_indexed-append n front (e ∷ []) ∙ ground arith

pub rooted-get :
    (n i : ℕ) (servers : List StorageServerInfo)
    → rooted n servers ≡ true
    → i < n
    → (s : StorageServerInfo) × (get_elem? servers i ≡ some s) × (has_root s ≡ true)
rooted-get zero i servers h lt = absurd (omega arith)
rooted-get (suc n) i [] h lt = cc
rooted-get (suc n) zero (s ∷ servers) h lt = (s, refl, ground arith)
rooted-get (suc n) (suc i) (s ∷ servers) h lt = rooted-get n i servers (ground arith) (omega arith)

pub rooted-set :
    (n i : ℕ) (servers : List StorageServerInfo) (s s' : StorageServerInfo)
    → get_elem? servers i ≡ some s
    → s'.root ≡ s.root
    → rooted n (set servers i s') ≡ rooted n servers
rooted-set zero i servers s s' h e = refl
rooted-set (suc n) i [] s s' h e = refl
rooted-set (suc n) zero (r ∷ servers) s s' h e = ground arith
rooted-set (suc n) (suc i) (r ∷ servers) s s' h e = rw (rooted-set n i servers s s' h e) refl
