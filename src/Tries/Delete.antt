-- ===== src/Tries/Delete.antt =====
-- What a search finds after `DeletePath`, and the names that stay distinct.
use network_file_system.Prelude.{
  ℕ, ◌<◌, ◌≡◌, refl, ◌∙◌, Bool, true, false, not, ◌&&◌, Option, none, some, Option-cases,
  Bool-cases, if◌then◌else◌, str_eq_sym, str_eq→eq, inl, inr, arith, List, [], ◌∷◌, Bytes, str_eq,
  length,
}
use network_file_system.Tries.Defs.{
  Node, node, Slots, end, null, child, name, childeren, max_path, find_child, set_slot, clear_slot,
  search_path_helper, parse_path, search_path, delete_components, delete_path,
}
use network_file_system.Tries.Slots.{
  IsDistinct, find_child-name, find_child-set_slot, find_child-clear_slot, find_child-null,
  find_child-child,
}
use network_file_system.Tries.Search.{is_prefix, search_path_lem}

-- The tree that `DeletePath` leaves, for a path that the tree has.
pub name-delete_components :
    (p : List Bytes) (n n' : Node) → delete_components p n ≡ some n' → name n' ≡ name n
unfolding delete_components
name-delete_components [] n n' h = cc
name-delete_components (c ∷ []) (node l d s) n' h = ground (arith, Option-cases (find_child c s))
name-delete_components (c ∷ c' ∷ cs) (node l d s) n' h = elim (Option-cases (find_child c s)) [
  | inl miss ↦ ground arith
  | inr ((j, m), hit) ↦ ground (arith, Option-cases (delete_components (c' ∷ cs) m))
]

pub IsDistinct-find_child :
    (c : Bytes) (s : Slots) (j : ℕ) (m : Node)
    → find_child c s ≡ some (j, m)
    → IsDistinct s
    → IsDistinct (childeren m)
unfolding find_child
IsDistinct-find_child c end j m h d = cc
IsDistinct-find_child c (null s) j m h d =
    let (i, a, b) = find_child-null c s j m h in IsDistinct-find_child c s i m b d
IsDistinct-find_child c (child (node l x t) s) j m h d =
    elim (find_child-child c (node l x t) s j m h) [
      | inl (e, a, b) ↦ rw b d.1
      | inr (i, e, a, b) ↦ IsDistinct-find_child c s i m b d.2
    ]

-- What a search for `q` says below the child that was found.
below : List Bytes → Option (ℕ × Node) → Bool
below q (some (j, m)) = search_path_helper m q
below q none = false

below-if :
    (b : Bool) (q : List Bytes) (f g : Option (ℕ × Node)) (r : Bool)
    → (b ≡ true → below q f ≡ (below q g && not r))
    → below q (if b then f else g) ≡ (below q g && not (b && r))
below-if true q f g r h = h refl
below-if false q f g r h = ground (arith, Bool-cases (below q g))

delete_components-total :
    (c : Bytes) (p : List Bytes) (n : Node)
    → search_path_helper n (c ∷ p) ≡ true
    → (n' : Node) × (delete_components (c ∷ p) n ≡ some n')
unfolding search_path_helper delete_components
delete_components-total c [] (node l x s) h = elim (Option-cases (find_child c s)) [
  | inl miss ↦ ground arith
  | inr ((j, m), hit) ↦ (node l x (clear_slot j s), ground arith)
]
delete_components-total c (c' ∷ p) (node l x s) h = elim (Option-cases (find_child c s)) [
  | inl miss ↦ ground arith
  | inr ((j, m), hit) ↦
      let (m', gone) = delete_components-total c' p m (ground arith) in
      (node l x (set_slot j m' s), ground arith)
]

pub delete_components-inv :
    (c c' : Bytes) (p : List Bytes) (l : Bool) (x : Bytes) (s : Slots) (n' : Node)
    → delete_components (c ∷ c' ∷ p) (node l x s) ≡ some n'
    → (j : ℕ) × (m : Node) × (m' : Node) × (find_child c s ≡ some (j, m))
      × (delete_components (c' ∷ p) m ≡ some m')
      × (n' ≡ node l x (set_slot j m' s))
unfolding delete_components
delete_components-inv c c' p l x s n' h = elim (Option-cases (find_child c s)) [
  | inl miss ↦ ground arith
  | inr ((j, m), hit) ↦ elim (Option-cases (delete_components (c' ∷ p) m)) [
    | inl lost ↦ ground arith
    | inr (m', gone) ↦ (j, m, m', hit, gone, ground arith)
  ]
]

search-delete_components :
    (c : Bytes) (p q : List Bytes) (n n' : Node)
    → IsDistinct (childeren n)
    → delete_components (c ∷ p) n ≡ some n'
    → search_path_helper n' q ≡ (search_path_helper n q && not (is_prefix (c ∷ p) q))
unfolding search_path_helper delete_components is_prefix below
search-delete_components c p [] n n' d h = ground arith
search-delete_components c [] (e ∷ q) (node l x s) n' d h = elim (Option-cases (find_child c s)) [
  | inl miss ↦ ground arith
  | inr ((j, m), hit) ↦
      let n'_eq : n' ≡ node l x (clear_slot j s) = ground arith in
      let step : below q (find_child e (clear_slot j s))
          ≡ (below q (find_child e s) && not (str_eq e c && true)) =
        rw (find_child-clear_slot c e s j m hit d, str_eq_sym e c)
          (below-if (str_eq c e) q none (find_child e s) true (λ t. ground arith)) in
      rw n'_eq step
]
search-delete_components c (c' ∷ p) (e ∷ q) (node l x s) n' d h =
    let (j, m, m', hit, gone, n'_eq) = delete_components-inv c c' p l x s n' h in
    let named = name-delete_components (c' ∷ p) m m' gone ∙ find_child-name c s j m hit in
    let step : below q (find_child e (set_slot j m' s))
        ≡ (below q (find_child e s) && not (str_eq e c && is_prefix (c' ∷ p) q)) =
      rw (find_child-set_slot c e s j m m' hit named, str_eq_sym e c)
        (below-if (str_eq c e) q (some (j, m')) (find_child e s) (is_prefix (c' ∷ p) q) (λ t.
          rw (← str_eq→eq c e t, hit)
            (search-delete_components c' p q m m' (IsDistinct-find_child c s j m hit d) gone))) in
    rw n'_eq step

-- For a path of one component or more, and of fewer than `max_path`, that is in a tree whose
-- siblings have distinct names, `DeletePath` is defined, and afterwards a search for any path of
-- fewer than `max_path` components succeeds exactly if it did before and the removed path is no
-- prefix of it.
pub search_path-delete_path :
    (c : Bytes) (cs : List Bytes) (p q : Bytes) (t : Node)
    → parse_path p ≡ c ∷ cs
    → length (parse_path p) < max_path
    → length (parse_path q) < max_path
    → IsDistinct (childeren t)
    → search_path_helper t (parse_path p) ≡ true
    → (t' : Node) × (delete_path p t ≡ some t')
      × (search_path t' q
          ≡ some (
              search_path_helper t (parse_path q) && not (is_prefix (parse_path p) (parse_path q))))
unfolding delete_path
search_path-delete_path c cs p q t e hp hq d found =
    let (t', gone) = delete_components-total c cs t (rw e at found) in
    (
      t',
      rw (search_path_lem p t hp, found, delete_path, e) gone,
      rw (search_path_lem q t' hq, e, search-delete_components c cs (parse_path q) t t' d gone),
    )
