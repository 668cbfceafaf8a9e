-- ===== src/Tries/Slots.antt =====
-- What a write to one slot of a node does to the search for a child by name.
use network_file_system.Prelude.{
  ℕ, zero, suc, ◌≡◌, refl, true, false, none, some, Option-cases, Bool-cases, ◌⊎◌, inl, inr, arith,
  Bytes, str_eq, str_eq_sym, str_eq→eq, str_eq_iff, if◌then◌else◌,
}
use network_file_system.Tries.Defs.{
  Node, node, Slots, end, null, child, name, childeren, find_child, first_null, set_slot,
  clear_slot, null_slots,
}

-- No two children of a node have the same name, all through the tree.
abbrev pub IsDistinct : Slots → Type 0
IsDistinct end = Unit
IsDistinct (null s) = IsDistinct s
IsDistinct (child (node l d t) s) = (find_child d s ≡ none) × IsDistinct t × IsDistinct s

pub find_child-null_slots : (c : Bytes) (n : ℕ) → find_child c (null_slots n) ≡ none
unfolding find_child null_slots
find_child-null_slots c zero = refl
find_child-null_slots c (suc n) = rw (find_child-null_slots c n, find_child)

-- What a search past the first slot answers comes from the search behind it.
pub find_child-null :
    (c : Bytes) (s : Slots) (j : ℕ) (m : Node)
    → find_child c (null s) ≡ some (j, m)
    → (i : ℕ) × (j ≡ suc i) × (find_child c s ≡ some (i, m))
unfolding find_child
find_child-null c s j m h = elim (Option-cases (find_child c s)) [
  | inl e ↦ ground arith
  | inr (p, e) ↦ (p.0, ground arith, ground arith)
]

pub find_child-child :
    (c : Bytes) (n : Node) (s : Slots) (j : ℕ) (m : Node)
    → find_child c (child n s) ≡ some (j, m)
    → ((str_eq (name n) c ≡ true) × (j ≡ zero) × (m ≡ n))
      ⊎ ((i : ℕ) × (str_eq (name n) c ≡ false) × (j ≡ suc i) × (find_child c s ≡ some (i, m)))
unfolding find_child
find_child-child c n s j m h = elim (Bool-cases (str_eq (name n) c)) [
  | inl e ↦ inl (e, ground arith, ground arith)
  | inr e ↦
      let h' : find_child c (null s) ≡ some (j, m) = ground arith in
      let (i, a, b) = find_child-null c s j m h' in inr (i, e, a, b)
]

find_child-none :
    (c : Bytes) (n : Node) (s : Slots)
    → find_child c (child n s) ≡ none
    → (str_eq (name n) c ≡ false) × (find_child c s ≡ none)
unfolding find_child
find_child-none c n s h = elim (Bool-cases (str_eq (name n) c)) [
  | inl e ↦ ground arith
  | inr e ↦ (e, ground (arith, Option-cases (find_child c s)))
]

pub find_child-name :
    (c : Bytes) (s : Slots) (j : ℕ) (m : Node) → find_child c s ≡ some (j, m) → name m ≡ c
unfolding find_child
find_child-name c end j m h = cc
find_child-name c (null s) j m h =
    let (i, a, b) = find_child-null c s j m h in find_child-name c s i m b
find_child-name c (child n s) j m h = elim (find_child-child c n s j m h) [
  | inl (e, a, b) ↦ rw b (str_eq→eq (name n) c e)
  | inr (i, e, a, b) ↦ find_child-name c s i m b
]

-- A child put in the place of one with the same name is what a search for the name now finds.
pub find_child-set_slot :
    (c q : Bytes) (s : Slots) (j : ℕ) (m m' : Node)
    → find_child c s ≡ some (j, m)
    → name m' ≡ c
    → find_child q (set_slot j m' s) ≡ (if str_eq c q then some (j, m') else find_child q s)
unfolding find_child set_slot
find_child-set_slot c q end j m m' h e = cc
find_child-set_slot c q (null s) j m m' h e =
    let (i, a, b) = find_child-null c s j m h in
    rw (a, find_child-set_slot c q s i m m' b e) (ground arith)
find_child-set_slot c q (child n s) j m m' h e = elim (find_child-child c n s j m h) [
  | inl (t, a, b) ↦ rw a (ground (arith, e, str_eq→eq (name n) c t))
  | inr (i, t, a, b) ↦ rw a (
      ground (
        arith,
        find_child-set_slot c q s i m m' b e,
        str_eq_iff (name n) q,
        str_eq_iff c q,
        str_eq_iff (name n) c,
      ))
]

-- A child put into the first null slot is found by its name, and hides no other.
pub find_child-link :
    (c q : Bytes) (s : Slots) (j : ℕ) (m : Node)
    → first_null s ≡ some j
    → find_child c s ≡ none
    → name m ≡ c
    → find_child q (set_slot j m s) ≡ (if str_eq c q then some (j, m) else find_child q s)
unfolding find_child set_slot first_null
find_child-link c q end j m h f e = cc
find_child-link c q (null s) j m h f e =
    let z : j ≡ zero = ground arith in
    rw z (ground (arith, e, str_eq→eq c q, Option-cases (find_child c s)))
find_child-link c q (child n s) j m h f e = elim (Option-cases (first_null s)) [
  | inl g ↦ ground arith
  | inr (i, g) ↦
      let z : j ≡ suc i = ground arith in
      rw z (
        ground (
          arith,
          find_child-link c q s i m g (ground arith) e,
          str_eq_iff (name n) q,
          str_eq_iff c q,
          str_eq_iff (name n) c,
        ))
]

-- With no second child of that name, a cleared slot is a name that is not found any more.
pub find_child-clear_slot :
    (c q : Bytes) (s : Slots) (j : ℕ) (m : Node)
    → find_child c s ≡ some (j, m)
    → IsDistinct s
    → find_child q (clear_slot j s) ≡ (if str_eq c q then none else find_child q s)
unfolding find_child clear_slot
find_child-clear_slot c q end j m h d = cc
find_child-clear_slot c q (null s) j m h d =
    let (i, a, b) = find_child-null c s j m h in
    rw a (ground (arith, find_child-clear_slot c q s i m b d))
find_child-clear_slot c q (child (node l x t) s) j m h d =
    elim (find_child-child c (node l x t) s j m h) [
      | inl (e, a, b) ↦ rw a (ground (arith, d.0, str_eq→eq x c e, str_eq_iff x q, str_eq_iff c q))
      | inr (i, e, a, b) ↦ rw a (
          ground (
            arith,
            find_child-clear_slot c q s i m b d.2,
            str_eq_iff x q,
            str_eq_iff c q,
            str_eq_iff x c,
          ))
    ]

pub set_slot_self :
    (c : Bytes) (s : Slots) (j : ℕ) (m : Node) → find_child c s ≡ some (j, m) → set_slot j m s ≡ s
unfolding find_child set_slot
set_slot_self c end j m h = cc
set_slot_self c (null s) j m h =
    let (i, a, b) = find_child-null c s j m h in rw (a, set_slot_self c s i m b)
set_slot_self c (child n s) j m h = elim (find_child-child c n s j m h) [
  | inl (e, a, b) ↦ rw (a, b)
  | inr (i, e, a, b) ↦ rw (a, set_slot_self c s i m b)
]

pub IsDistinct-null_slots : (n : ℕ) → IsDistinct (null_slots n)
unfolding null_slots
IsDistinct-null_slots zero = tt
IsDistinct-null_slots (suc n) = IsDistinct-null_slots n

find_child-none-clear_slot :
    (c : Bytes) (s : Slots) (j : ℕ) → find_child c s ≡ none → find_child c (clear_slot j s) ≡ none
unfolding find_child clear_slot
find_child-none-clear_slot c end j h = h
find_child-none-clear_slot c (null s) zero h = h
find_child-none-clear_slot c (child n s) zero h =
    ground (arith, Bool-cases (str_eq (name n) c), Option-cases (find_child c s))
find_child-none-clear_slot c (null s) (suc j) h =
    rw
      (find_child-none-clear_slot c s j (ground (arith, Option-cases (find_child c s))), find_child)
find_child-none-clear_slot c (child n s) (suc j) h =
    ground (arith, find_child-none-clear_slot c s j)

pub IsDistinct-clear_slot : (j : ℕ) (s : Slots) → IsDistinct s → IsDistinct (clear_slot j s)
unfolding clear_slot
IsDistinct-clear_slot j end d = tt
IsDistinct-clear_slot zero (null s) d = d
IsDistinct-clear_slot (suc j) (null s) d = IsDistinct-clear_slot j s d
IsDistinct-clear_slot zero (child (node l x t) s) d = d.2
IsDistinct-clear_slot (suc j) (child (node l x t) s) d =
    (find_child-none-clear_slot x s j d.0, d.1, IsDistinct-clear_slot j s d.2)

pub IsDistinct-set_slot :
    (c : Bytes) (s : Slots) (j : ℕ) (m m' : Node)
    → find_child c s ≡ some (j, m)
    → name m' ≡ c
    → IsDistinct (childeren m')
    → IsDistinct s
    → IsDistinct (set_slot j m' s)
unfolding set_slot find_child
IsDistinct-set_slot c end j m m' h e d' d = cc
IsDistinct-set_slot c (null s) j m m' h e d' d =
    let (i, a, b) = find_child-null c s j m h in rw a (IsDistinct-set_slot c s i m m' b e d' d)
IsDistinct-set_slot c (child (node l x t) s) j m (node l' x' t') h e d' d =
    elim (find_child-child c (node l x t) s j m h) [
      | inl (q, a, b) ↦ rw a (rw (e, ← str_eq→eq x c q) d.0, d', d.2)
      | inr (i, q, a, b) ↦ rw a (
        ground (arith, d.0, find_child-set_slot c x s i m (node l' x' t') b e, str_eq_sym x c),
        d.1,
        IsDistinct-set_slot c s i m (node l' x' t') b e d' d.2,
      )
    ]

pub IsDistinct-link :
    (c : Bytes) (s : Slots) (j : ℕ) (m : Node)
    → first_null s ≡ some j
    → find_child c s ≡ none
    → name m ≡ c
    → IsDistinct (childeren m)
    → IsDistinct s
    → IsDistinct (set_slot j m s)
unfolding set_slot find_child first_null
IsDistinct-link c end j m f h e d' d = cc
IsDistinct-link c (null s) j (node l' x' t') f h e d' d =
    let z : j ≡ zero = ground arith in
    rw z (rw e (ground (arith, Option-cases (find_child c s))), d', d)
IsDistinct-link c (child (node l x t) s) j (node l' x' t') f h e d' d =
    elim (Option-cases (first_null s)) [
      | inl g ↦ ground arith
      | inr (i, g) ↦
          let z : j ≡ suc i = ground arith in
          let (other, miss) = find_child-none c (node l x t) s h in
          rw z (
            rw (find_child-link c x s i (node l' x' t') g miss e, str_eq_sym c x, other) d.0,
            d.1,
            IsDistinct-link c s i (node l' x' t') g miss e d' d.2,
          )
    ]
