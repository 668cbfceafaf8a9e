-- ===== src/Tries/Display.antt =====
-- The display functions of tries.c: isLastChild, PrintTree, CountItems, DisplayTrie,
-- PrintTreeNetwork and DisplayTrieNetwork.
use network_file_system.Prelude.{
  ℕ, zero, suc, ◌+◌, ◌≡◌, refl, sym, ◌∙◌, Bool, true, false, ◌&&◌, Option, none, some, arith,
  Bool-cases, List, [], ◌∷◌, ◌++◌, Bytes, codes, length, length-append, ltb, ◌==◌, if◌then◌else◌,
}
use mathlib.Core.List.{append_assoc, append-nil}
use network_file_system.Tries.Defs.{Node, node, Slots, end, null, child}

-- The bytes of the escape sequences, and of the UTF-8 characters │, └, ├ and ─.
abbrev escape : Bytes → Bytes
escape s = 27 ∷ 91 ∷ s

abbrev yellow : Bytes
yellow = escape (codes "33m")

abbrev blue : Bytes
blue = escape (codes "34m")

abbrev white : Bytes
white = escape (codes "37m")

abbrev plain : Bytes
plain = escape (codes "0m")

abbrev bar : Bytes
bar = 0xe2 ∷ 0x94 ∷ 0x82 ∷ []

abbrev corner : Bool → Bytes
corner last = if last then 0xe2 ∷ 0x94 ∷ 0x94 ∷ [] else 0xe2 ∷ 0x94 ∷ 0x9c ∷ []

abbrev dashes : Bytes
dashes = 0xe2 ∷ 0x94 ∷ 0x80 ∷ 0xe2 ∷ 0x94 ∷ 0x80 ∷ codes " "

-- The size of `buffer` in PrintTreeNetwork.
abbrev pub line_size : ℕ
line_size = 1024

-- `isLastChild`, for the child in front of these slots: there is no child behind it.
unfoldable pub is_last_child : Slots → Bool
is_last_child end = true
is_last_child (null s) = is_last_child s
is_last_child (child n s) = false

unfoldable pub indentation : Bytes → Bytes
indentation [] = []
indentation (c ∷ prefix) =
    (if c == b'1' then yellow ++ bar ++ codes "   " ++ plain else codes "    ")
    ++ indentation prefix

-- The line of one node: the indentation that `prefix` says, the connector and the name.
unfoldable pub node_line : ℕ → Bytes → Bool → Bool → Bytes → Bytes
unfolding indentation
node_line zero prefix last leaf name = blue ++ name ++ plain ++ codes "\n"
node_line (suc depth) prefix last leaf name =
    indentation prefix
    ++ yellow
    ++ corner last
    ++ dashes
    ++ plain
    ++ (if leaf then white else blue)
    ++ name
    ++ plain
    ++ codes "\n"

abbrev pub extend : Bytes → Bool → Bytes
extend prefix last = prefix ++ (if last then b'0' else b'1') ∷ []

-- `PrintTree`: the lines that it writes to the standard output.
unfoldable mutual
  unfolding node_line is_last_child

  pub print_tree : Node → ℕ → Bytes → Bool → List Bytes
  print_tree (node l d s) depth prefix last =
      node_line depth prefix last l d ∷ print_childeren s (suc depth) (extend prefix last)

  pub print_childeren : Slots → ℕ → Bytes → List Bytes
  print_childeren end depth prefix = []
  print_childeren (null s) depth prefix = print_childeren s depth prefix
  print_childeren (child n s) depth prefix =
      print_tree n depth prefix (is_last_child s) ++ print_childeren s depth prefix

-- `CountItems`: directories and files, counted up from the two numbers.
unfoldable mutual
  pub count_items : Node → ℕ × ℕ → ℕ × ℕ
  count_items (node true d s) (dirs, files) = count_childeren s (dirs, files + 1)
  count_items (node false d s) (dirs, files) = count_childeren s (dirs + 1, files)

  pub count_childeren : Slots → ℕ × ℕ → ℕ × ℕ
  count_childeren end c = c
  count_childeren (null s) c = count_childeren s c
  count_childeren (child n s) c = count_childeren s (count_items n c)

-- `DisplayTrie`: the lines of the tree, and the two numbers of the summary.
unfoldable pub display_trie : Node → List Bytes × (ℕ × ℕ)
unfolding print_tree print_childeren count_items count_childeren
display_trie root = (print_tree root 0 [] true, count_items root (0, 0))

-- The indentation of `PrintTreeNetwork`, which `snprintf` puts behind what is in the buffer.
unfoldable pub indent_buffer : (buffer prefix : Bytes) → Bytes
indent_buffer buffer [] = buffer
indent_buffer buffer (c ∷ prefix) =
    indent_buffer
      (buffer ++ (if c == b'1' then yellow ++ bar ++ codes "   " ++ plain else codes "    ")) prefix

-- What is in the buffer of `PrintTreeNetwork` when it is sent.
unfoldable pub line_buffer : ℕ → Bytes → Bool → Bool → Bytes → Bytes
unfolding indent_buffer
line_buffer zero prefix last leaf name = blue ++ name ++ plain ++ codes "\n"
line_buffer (suc depth) prefix last leaf name =
    let indented = indent_buffer [] prefix in
    let branch = indented ++ (yellow ++ corner last ++ dashes ++ plain) in
    branch ++ ((if leaf then white else blue) ++ name ++ plain ++ codes "\n")

-- `PrintTreeNetwork`, over a `send` that answers whether it succeeded: after a failure the nodes
-- below are left out. A line that does not fit the buffer is written behind it: `none`.
module _ {ℓ} {S : Type ℓ} (send : Bytes → S → Bool × S) where
  unfoldable mutual
    unfolding line_buffer is_last_child

    pub print_tree_network : Node → ℕ → Bytes → Bool → S → Option S
    print_tree_network (node l d s) depth prefix last st =
        let line = line_buffer depth prefix last l d in
        let (ok, st') = send line st in
        elim (ltb (length line) line_size) [
          | true ↦ elim ok [
            | true ↦ print_childeren_network s (suc depth) (extend prefix last) st'
            | false ↦ some st'
          ]
          | false ↦ none
        ]

    pub print_childeren_network : Slots → ℕ → Bytes → S → Option S
    print_childeren_network end depth prefix st = some st
    print_childeren_network (null s) depth prefix st = print_childeren_network s depth prefix st
    print_childeren_network (child n s) depth prefix st =
        elim (print_tree_network n depth prefix (is_last_child s) st) [
          | some st' ↦ print_childeren_network s depth prefix st'
          | none ↦ none
        ]

  -- `DisplayTrieNetwork`
  unfoldable pub display_trie_network : Node → S → Option S
  unfolding print_tree_network print_childeren_network
  display_trie_network root st = print_tree_network root 0 [] true st

-- A connection on which every send succeeds, with what was sent.
abbrev pub sent : Bytes → List Bytes → Bool × List Bytes
sent line lines = (true, lines ++ line ∷ [])

abbrev pub all_fit : List Bytes → Bool
all_fit [] = true
all_fit (line ∷ lines) = ltb (length line) line_size && all_fit lines

all_fit-append : (xs ys : List Bytes) → all_fit (xs ++ ys) ≡ (all_fit xs && all_fit ys)
all_fit-append [] ys = refl
all_fit-append (x ∷ xs) ys = rw (all_fit-append xs ys) (ground (arith, Bool-cases (all_fit xs)))

indent_buffer-indentation :
    (buffer prefix : Bytes) → indent_buffer buffer prefix ≡ buffer ++ indentation prefix
unfolding indent_buffer indentation
indent_buffer-indentation buffer [] = sym (append-nil buffer)
indent_buffer-indentation buffer (c ∷ prefix) =
    let one = if c == b'1' then yellow ++ bar ++ codes "   " ++ plain else codes "    " in
    indent_buffer-indentation (buffer ++ one) prefix ∙ append_assoc buffer one (indentation prefix)

-- Both functions write the same line.
line_buffer-node_line :
    (depth : ℕ) (prefix : Bytes) (last leaf : Bool) (name : Bytes)
    → line_buffer depth prefix last leaf name ≡ node_line depth prefix last leaf name
unfolding line_buffer node_line
line_buffer-node_line zero prefix last leaf name = refl
line_buffer-node_line (suc depth) prefix last leaf name =
    rw (line_buffer, node_line, indent_buffer-indentation [] prefix) (simp append_assoc refl)

mutual
  unfolding print_tree print_childeren print_tree_network print_childeren_network

  print_tree_network-sent :
      (n : Node) (depth : ℕ) (prefix : Bytes) (last : Bool) (out : List Bytes)
      → all_fit (print_tree n depth prefix last) ≡ true
      → print_tree_network sent n depth prefix last out
        ≡ some (out ++ print_tree n depth prefix last)
  print_tree_network-sent (node l d s) depth prefix last out h =
      let line = node_line depth prefix last l d in
      let rest = print_childeren s (suc depth) (extend prefix last) in
      let fits : ltb (length line) line_size ≡ true = ground arith in
      let below : print_childeren_network sent s (suc depth) (extend prefix last) (out ++ line ∷ [])
          ≡ some ((out ++ line ∷ []) ++ rest) =
        print_childeren_network-sent s (suc depth) (extend prefix last) (out ++ line ∷ [])
          (ground arith) in
      ground (
        arith,
        line_buffer-node_line depth prefix last l d,
        below,
        append_assoc out (line ∷ []) rest,
      )

  print_childeren_network-sent :
      (s : Slots) (depth : ℕ) (prefix : Bytes) (out : List Bytes)
      → all_fit (print_childeren s depth prefix) ≡ true
      → print_childeren_network sent s depth prefix out
        ≡ some (out ++ print_childeren s depth prefix)
  print_childeren_network-sent end depth prefix out h = rw append-nil
  print_childeren_network-sent (null s) depth prefix out h =
      print_childeren_network-sent s depth prefix out h
  print_childeren_network-sent (child n s) depth prefix out h =
      let here = print_tree n depth prefix (is_last_child s) in
      let both : (all_fit here && all_fit (print_childeren s depth prefix)) ≡ true =
        sym (all_fit-append here (print_childeren s depth prefix)) ∙ h in
      let first : print_tree_network sent n depth prefix (is_last_child s) out
          ≡ some (out ++ here) =
        print_tree_network-sent n depth prefix (is_last_child s) out (ground arith) in
      let behind : print_childeren_network sent s depth prefix (out ++ here)
          ≡ some ((out ++ here) ++ print_childeren s depth prefix) =
        print_childeren_network-sent s depth prefix (out ++ here) (ground arith) in
      ground (arith, first, behind, append_assoc out here (print_childeren s depth prefix))

mutual
  unfolding print_tree print_childeren count_items count_childeren

  length-print_tree :
      (n : Node) (depth : ℕ) (prefix : Bytes) (last : Bool) (c : ℕ × ℕ)
      → length (print_tree n depth prefix last) + c.0 + c.1
        ≡ (count_items n c).0 + (count_items n c).1
  length-print_tree (node true d s) depth prefix last c =
      omega (arith, length-print_childeren s (suc depth) (extend prefix last) (c.0, c.1 + 1))
  length-print_tree (node false d s) depth prefix last c =
      omega (arith, length-print_childeren s (suc depth) (extend prefix last) (c.0 + 1, c.1))

  length-print_childeren :
      (s : Slots) (depth : ℕ) (prefix : Bytes) (c : ℕ × ℕ)
      → length (print_childeren s depth prefix) + c.0 + c.1
        ≡ (count_childeren s c).0 + (count_childeren s c).1
  length-print_childeren end depth prefix c = omega arith
  length-print_childeren (null s) depth prefix c = length-print_childeren s depth prefix c
  length-print_childeren (child n s) depth prefix c = omega (
    arith,
    length-append (print_tree n depth prefix (is_last_child s)) (print_childeren s depth prefix),
    length-print_tree n depth prefix (is_last_child s) c,
    length-print_childeren s depth prefix (count_items n c),
  )

-- If every line of the tree fits the buffer, then on a connection that accepts every send
-- `DisplayTrieNetwork` sends the lines that `DisplayTrie` prints, in that order, one message for
-- each directory and each file of its summary.
pub display_trie_network-sent :
    (t : Node) (out : List Bytes)
    → all_fit (display_trie t).0 ≡ true
    → (display_trie_network sent t out ≡ some (out ++ (display_trie t).0))
      × (length (display_trie t).0 ≡ (display_trie t).1.0 + (display_trie t).1.1)
unfolding display_trie display_trie_network
display_trie_network-sent t out h =
    (print_tree_network-sent t 0 [] true out h, omega (arith, length-print_tree t 0 [] true (0, 0)))
