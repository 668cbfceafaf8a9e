-- ===== src/Naming/System/Process.antt =====
-- One command of a client: the state stays valid.
use network_file_system.Prelude.{
  ℕ, ◌<◌, ◌≡◌, refl, true, Option, none, some, Option-cases, inl, inr, List, [], ◌∷◌, Bytes, ltb→lt,
  if◌then◌else◌,
}
use network_file_system.Naming.Cache.Defs.{CacheEntry, add_to_cache}
use network_file_system.Naming.Cache.View.{
  view, position, remove_key, add_to_cache-view, delete_from_cache-view,
}
use network_file_system.Naming.World.{
  Network, World, M, ◌>>=◌, ◌>>◌, return, deref, get_server, send_good,
}
use network_file_system.Naming.Valid.{
  IsValid, all_indexed, all_indexed-remove_at, push_back-all_indexed,
}
use network_file_system.Naming.Search.Defs.{search_storage_server}
use network_file_system.Naming.Commands.Text.{next_command, reply, storage_server_not_found}
use network_file_system.Naming.Commands.Create.{
  parent_path, forward_create, create_at, handle_create,
}
use network_file_system.Naming.Commands.Remove.{forward_remove, remove_at_server, handle_remove}
use network_file_system.Naming.Commands.Removed.{forgotten, forget_path_lem}
use network_file_system.Naming.Commands.Lookup.{
  handle_list_root, handle_write, handle_lookup, write_at, lookup_at,
}
use network_file_system.Naming.Commands.Dispatch.{dispatch_path, dispatch_words, handle_command}
use network_file_system.Naming.System.Keeps.{
  Safe, Safe-bind, Keeps, keeps, Keeps-send_good, Keeps-deref,
}
use network_file_system.Naming.System.Valid.{
  StaysValid, stays_valid, StaysValid-Keeps, StaysValid-Keeps_free, StaysValid-search,
  StaysValid-found, IsFound,
}
use network_file_system.Naming.System.Commands.{
  Keeps-reply, Keeps-forward_create, Keeps-forward_remove, Keeps-write_at, Keeps-lookup_at,
}
use network_file_system.Naming.Copy.Defs.{handle_copy_request, copy_paths, copy_at, process_command}
use network_file_system.Naming.System.Handlers.{Keeps-handle_list_root}
use network_file_system.Naming.System.Copies.{Keeps-copy_at}

all_indexed-remove_key :
    (n : ℕ) (key : Bytes) (v : List CacheEntry)
    → all_indexed n v ≡ true
    → all_indexed n (remove_key key v) ≡ true
unfolding remove_key
all_indexed-remove_key n key v h = elim (Option-cases (position key v)) [
  | inl e ↦ rw (remove_key, e) h
  | inr (i, e) ↦ rw (remove_key, e) (all_indexed-remove_at n i v h)
]

remembered-IsValid :
    (path : Bytes) (i : ℕ) (w : World)
    → IsValid w
    → i < w.storage_server_index
    → IsValid (record w { cache = add_to_cache path (some i) w.cache })
remembered-IsValid path i w v lt =
    let (kept, seen) = add_to_cache-view path (some i) w.cache v.cached in
    record {
      cached = kept;
      known =
          rw seen (push_back-all_indexed w.storage_server_index i path (view w.cache) v.known lt);
      table = v.table;
      trees = v.trees;
      free = v.free;
    }

forgotten-IsValid : (path : Bytes) (w : World) → IsValid w → IsValid (forgotten path w)
forgotten-IsValid path w v =
    let (kept, seen) = delete_from_cache-view path w.cache v.cached in
    record {
      cached = kept;
      known = rw seen (all_indexed-remove_key w.storage_server_index path (view w.cache) v.known);
      table = v.table;
      trees = v.trees;
      free = v.free;
    }

module _ (net : Network) where
  StaysValid-reply : (client : ℕ) (text : Bytes) → StaysValid (reply net client text)
  StaysValid-reply client text =
      StaysValid-Keeps (reply net client text) (λ k n r. Keeps-reply net k n r client text)

  -- Behind the cache.
  create_rest : (client i : ℕ) (buffer command path : Bytes) → M (Unit {0})
  create_rest client i buffer command path = get_server i >>= (λ ss.
      if ss.is_up
      then forward_create net client i buffer command path ss
      else reply net client storage_server_not_found)

  Keeps-create_rest :
      (k n r client i : ℕ) (buffer command path : Bytes)
      → Keeps k n r (create_rest client i buffer command path)
  unfolding create_rest
  Keeps-create_rest k n r client i buffer command path =
      search (keeps, Keeps-reply, Keeps-forward_create) depth 30

  create_at-Safe :
      (client : ℕ) (buffer command path parent : Bytes) (found : Option ℕ) (w : World)
      → IsFound parent found w
      → Safe (create_at net client buffer command path found w) (λ a w'. IsValid w')
  unfolding create_at StaysValid create_rest
  create_at-Safe client buffer command path parent none w f =
      StaysValid-reply client storage_server_not_found w f.valid
  create_at-Safe client buffer command path parent (some i) w f =
      StaysValid-Keeps (create_rest client i buffer command path)
        (λ k n r. Keeps-create_rest k n r client i buffer command path)
        (record w { cache = add_to_cache path (some i) w.cache })
        (remembered-IsValid path i w f.valid (ltb→lt _ _ f.below))

  remove_rest : (client i : ℕ) (buffer command path : Bytes) → M (Unit {0})
  remove_rest client i buffer command path = get_server i >>= (λ ss.
      if ss.is_up
      then forward_remove net client i buffer command path ss
      else reply net client storage_server_not_found)

  Keeps-remove_rest :
      (k n r client i : ℕ) (buffer command path : Bytes)
      → Keeps k n r (remove_rest client i buffer command path)
  unfolding remove_rest
  Keeps-remove_rest k n r client i buffer command path =
      search (keeps, Keeps-reply, Keeps-forward_remove) depth 30

  remove_at_server-Safe :
      (client : ℕ) (buffer command path : Bytes) (found : Option ℕ) (w : World)
      → IsFound path found w
      → Safe (remove_at_server net client buffer command path found w) (λ a w'. IsValid w')
  unfolding remove_at_server StaysValid remove_rest
  remove_at_server-Safe client buffer command path none w f =
      StaysValid-reply client storage_server_not_found w f.valid
  remove_at_server-Safe client buffer command path (some i) w f =
      let (j, at) = f.remembered i refl in
      let rest =
        StaysValid-Keeps (remove_rest client i buffer command path)
          (λ k n r. Keeps-remove_rest k n r client i buffer command path) (forgotten path w)
          (forgotten-IsValid path w f.valid) in
      rw (remove_at_server, ◌>>◌, ◌>>=◌, forget_path_lem net path w j at) rest

  StaysValid-send_good : (client : ℕ) (text : Bytes) → StaysValid (send_good net client text)
  StaysValid-send_good client text =
      StaysValid-Keeps (send_good net client text) (λ k n r. Keeps-send_good net k n r client text)

  StaysValid-create_at :
      (client : ℕ) (buffer command path : Bytes)
      → StaysValid (
          search_storage_server net (parent_path path)
          >>= (λ found. create_at net client buffer command path found >> return next_command))
  StaysValid-create_at client buffer command path =
      StaysValid-found net (parent_path path) _ (λ found w f.
        Safe-bind (create_at net client buffer command path found w) _ (λ a w'. IsValid w')
          (λ a w'. IsValid w')
          (create_at-Safe client buffer command path (parent_path path) found w f) (λ a w' v. v))

  StaysValid-handle_create :
      (client : ℕ) (buffer command path : Bytes)
      → StaysValid (handle_create net client buffer command path)
  unfolding handle_create
  StaysValid-handle_create client buffer command path =
      search (stays_valid, StaysValid-send_good, StaysValid-create_at) depth 30

  StaysValid-remove_at_server :
      (client : ℕ) (buffer command path : Bytes)
      → StaysValid (
          search_storage_server net path >>= (λ found.
            remove_at_server net client buffer command path found >> return next_command))
  StaysValid-remove_at_server client buffer command path = StaysValid-found net path _ (λ found w f.
      Safe-bind (remove_at_server net client buffer command path found w) _ (λ a w'. IsValid w')
        (λ a w'. IsValid w') (remove_at_server-Safe client buffer command path found w f)
        (λ a w' v. v))

  StaysValid-handle_remove :
      (client : ℕ) (buffer command path : Bytes)
      → StaysValid (handle_remove net client buffer command path)
  unfolding handle_remove
  StaysValid-handle_remove client buffer command path =
      search (stays_valid, StaysValid-send_good, StaysValid-remove_at_server) depth 30

  StaysValid-deref : {A : Type 0} (o : Option A) → StaysValid (deref o)
  StaysValid-deref o = StaysValid-Keeps (deref o) (λ k n r. Keeps-deref k n r o)

  StaysValid-write_at :
      (client : ℕ) (flag : Bytes) (found : Option ℕ) → StaysValid (write_at net client flag found)
  StaysValid-write_at client flag found =
      StaysValid-Keeps (write_at net client flag found)
        (λ k n r. Keeps-write_at net k n r client flag found)

  StaysValid-handle_write :
      (client : ℕ) (words : List Bytes) → StaysValid (handle_write net client words)
  unfolding handle_write
  StaysValid-handle_write client words =
      search (stays_valid, StaysValid-deref, StaysValid-search, StaysValid-write_at) depth 30

  StaysValid-lookup_at : (client : ℕ) (found : Option ℕ) → StaysValid (lookup_at net client found)
  StaysValid-lookup_at client found =
      StaysValid-Keeps (lookup_at net client found)
        (λ k n r. Keeps-lookup_at net k n r client found)

  StaysValid-handle_lookup :
      (client : ℕ) (path : Bytes) → StaysValid (handle_lookup net client path)
  unfolding handle_lookup
  StaysValid-handle_lookup client path =
      search (stays_valid, StaysValid-search, StaysValid-lookup_at) depth 30

  StaysValid-copy_at :
      (client : ℕ) (buffer src dest : Bytes) (from to : Option ℕ)
      → StaysValid (copy_at net client buffer src dest from to)
  StaysValid-copy_at client buffer src dest from to =
      StaysValid-Keeps_free (copy_at net client buffer src dest from to)
        (λ n r. Keeps-copy_at net n r client buffer src dest from to)

  StaysValid-copy_paths :
      (client : ℕ) (buffer : Bytes) (words : List Bytes)
      → StaysValid (copy_paths net client buffer words)
  unfolding copy_paths
  StaysValid-copy_paths client buffer [] = StaysValid-reply client _
  StaysValid-copy_paths client buffer (a ∷ []) = StaysValid-reply client _
  StaysValid-copy_paths client buffer (a ∷ b ∷ []) = StaysValid-reply client _
  StaysValid-copy_paths client buffer (a ∷ b ∷ c ∷ words) =
      search (stays_valid, StaysValid-reply, StaysValid-search, StaysValid-copy_at) depth 30

  StaysValid-handle_copy_request :
      (client : ℕ) (buffer : Bytes) → StaysValid (handle_copy_request net client buffer)
  unfolding handle_copy_request
  StaysValid-handle_copy_request client buffer =
      search (stays_valid, StaysValid-copy_paths) depth 30

  StaysValid-dispatch_path :
      (client : ℕ) (buffer command path : Bytes)
      → StaysValid (dispatch_path net (handle_copy_request net) client buffer command path)
  unfolding dispatch_path
  StaysValid-dispatch_path client buffer command path =
      search
        (stays_valid, StaysValid-handle_create, StaysValid-handle_remove, StaysValid-handle_lookup)
        depth 30

  StaysValid-dispatch_words :
      (client : ℕ) (buffer : Bytes) (words : List Bytes)
      → StaysValid (dispatch_words net (handle_copy_request net) client buffer words)
  unfolding dispatch_words
  StaysValid-dispatch_words client buffer [] = search (stays_valid, StaysValid-reply) depth 30
  StaysValid-dispatch_words client buffer (a ∷ []) = search (stays_valid, StaysValid-reply) depth 30
  StaysValid-dispatch_words client buffer (command ∷ path ∷ words) =
      search (stays_valid, StaysValid-reply, StaysValid-handle_write, StaysValid-dispatch_path)
        depth 30

  StaysValid-handle_list_root : (client : ℕ) → StaysValid (handle_list_root net client)
  StaysValid-handle_list_root client =
      StaysValid-Keeps (handle_list_root net client)
        (λ k n r. Keeps-handle_list_root net k n r client)

  -- For every command of a client, whatever it is: in a valid state it ends in a valid state, with the
  -- semaphore free, or has undefined behaviour; it does not wait for ever.
  pub StaysValid-process_command :
      (client : ℕ) (buffer : Bytes) → StaysValid (process_command net client buffer)
  unfolding process_command handle_command
  StaysValid-process_command client buffer =
      search
        (
          stays_valid, StaysValid-handle_list_root, StaysValid-handle_copy_request,
          StaysValid-dispatch_words,
        )
        depth 30
