-- ===== src/Naming/System/Handlers.antt =====
-- The branches of `process_client`: the invariant.
use network_file_system.Prelude.{
  ℕ, zero, suc, Bool, true, false, Option, none, some, Option-cases, inl, inr, [], Bytes, length,
  ltb,
}
use network_file_system.Tries.Defs.{Node, node, Slots, end, null, child}
use network_file_system.Tries.Display.{
  line_buffer, is_last_child, extend, line_size, print_tree_network, print_childeren_network,
  display_trie_network,
}
use network_file_system.Naming.World.{Network, sent}
use network_file_system.Naming.Commands.Lookup.{
  send_line, display_folder, list_roots, handle_list_root,
}
use network_file_system.Naming.System.Keeps.{
  Keeps, keeps, Inv-note, Inv, Keeps-return, Keeps-send_good,
}
use network_file_system.Naming.System.Commands.{Keeps-exported_folder}

-- What every message keeps, a listing keeps.
abbrev Holds : {S : Type 0} → (S → Type 0) → Option S → Type 0
Holds P none = Unit
Holds P (some s) = P s

module _ {S : Type 0} (send : Bytes → S → Bool × S) (P : S → Type 0)
    (closed : (line : Bytes) (s : S) → P s → P (send line s).1) where
  on_line :
      (fits ok_ : Bool) (o : Option S) (s : S)
      → P s
      → Holds P o
      → Holds P (elim fits [ true ↦ elim ok_ [ true ↦ o | false ↦ some s ] | false ↦ none ])
  on_line true true o s h i = i
  on_line true false o s h i = h
  on_line false ok_ o s h i = tt

  on_first :
      (o : Option S) (f : S → Option S)
      → Holds P o
      → ((s : S) → P s → Holds P (f s))
      → Holds P (elim o [ some s ↦ f s | none ↦ none ])
  on_first none f h i = tt
  on_first (some s) f h i = i s h

  mutual
    unfolding print_tree_network print_childeren_network

    tree-Holds :
        (n : Node) (depth : ℕ) (prefix : Bytes) (last : Bool) (s : S)
        → P s
        → Holds P (print_tree_network send n depth prefix last s)
    tree-Holds (node l d slots) depth prefix last s h =
        let line = line_buffer depth prefix last l d in
        let after : P (send line s).1 = closed line s h in
        on_line (ltb (length line) line_size) (send line s).0
          (print_childeren_network send slots (suc depth) (extend prefix last) (send line s).1)
          (send line s).1 after
          (childeren_hold slots (suc depth) (extend prefix last) (send line s).1 after)

    childeren_hold :
        (slots : Slots) (depth : ℕ) (prefix : Bytes) (s : S)
        → P s
        → Holds P (print_childeren_network send slots depth prefix s)
    childeren_hold end depth prefix s h = h
    childeren_hold (null slots) depth prefix s h = childeren_hold slots depth prefix s h
    childeren_hold (child n slots) depth prefix s h =
        on_first (print_tree_network send n depth prefix (is_last_child slots) s)
          (print_childeren_network send slots depth prefix)
          (tree-Holds n depth prefix (is_last_child slots) s h)
          (λ s' h'. childeren_hold slots depth prefix s' h')

module _ (net : Network) where
  Keeps-display_folder :
      (k n r : ℕ) (client : ℕ) (folder : Option Node)
      → Keeps k n r (display_folder net client folder)
  unfolding Keeps display_folder display_trie_network
  Keeps-display_folder k n r client none w v = v
  Keeps-display_folder k n r client (some t) w v =
      let holds : Holds (Inv k n r) (display_trie_network (send_line net client) t w) =
        tree-Holds (send_line net client) (Inv k n r)
          (λ line s i. Inv-note k n r (sent client line) s i) t 0 [] true w v in
      elim (Option-cases (display_trie_network (send_line net client) t w)) [
        | inl e ↦ rw (display_folder, e) tt
        | inr (w', e) ↦ rw (display_folder, e) (rw e at holds)
      ]

  Keeps-list_roots : (k n r : ℕ) (left i client : ℕ) → Keeps k n r (list_roots net left i client)
  unfolding list_roots
  Keeps-list_roots k n r zero i client = Keeps-return k n r tt
  Keeps-list_roots k n r (suc m) i client =
      search (keeps, Keeps-exported_folder, Keeps-display_folder, Keeps-list_roots k n r m) depth 30

  pub Keeps-handle_list_root : (k n r client : ℕ) → Keeps k n r (handle_list_root net client)
  unfolding handle_list_root
  Keeps-handle_list_root k n r client = search (keeps, Keeps-list_roots, Keeps-send_good) depth 30
