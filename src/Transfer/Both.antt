-- ===== src/Transfer/Both.antt =====
-- The two commands for a copy, side by side.
use network_file_system.Prelude.{
  ℕ, ◌+◌, ◌<◌, ◌≤◌, ◌≡◌, refl, ap, ◌∙◌, Bool, true, false, some, List, [], ◌∷◌, ◌++◌, Bytes, codes,
  drop, length, arith,
}
use network_file_system.Naming.World.{max_path_size}
use network_file_system.Transfer.Source.{Source, missing, directory, regular, unsupported}
use network_file_system.Transfer.Send.{
  line_feed, finished_copying, join, scan_copy, skipped, skips_to, copy_different_src,
}
use network_file_system.Transfer.Receive.{
  Made, made_directory, Peer, send_to_peer, ack_from_peer, greeted,
}
use network_file_system.Transfer.Confirm.{willing, is_sendable}
use network_file_system.Transfer.Copied.{
  sendable_source, saved_source, at_end, copy_different_src-at_end,
}
use network_file_system.Transfer.Local.{scan_copy_same, copy_directory, copy_file, copy_same}
use network_file_system.Transfer.Same.{
  readable_directory, is_plain, drop-append, join_lem, same_directory, same_file,
}

unfoldable pub readable_source : (room : ℕ) → Source → Bool
unfolding readable_directory
readable_source room (directory d) = readable_directory room d
readable_source room s = true

module _ (ready : Peer → ℕ) (exists : Bytes → Bool) (front rel dest : Bytes) (room : ℕ) where
  copied_source : Source → List Made
  unfolding copy_directory copy_file
  copied_source (directory d) = copy_directory (willing ready) exists d (dest ++ b'/' ∷ rel)
  copied_source (regular bytes) = copy_file (willing ready) exists bytes (dest ++ b'/' ∷ rel)
  copied_source s = []

  saved_source-copied_source :
      (s : Source)
      → length front + length rel ≤ room
      → length dest + 1 + length rel ≤ room
      → room < max_path_size
      → is_plain rel ≡ true
      → readable_source room s ≡ true
      → saved_source false dest (front ++ rel) (length front, length front) s ≡ copied_source s
  unfolding copied_source saved_source readable_source
  saved_source-copied_source missing one two three plain h = refl
  saved_source-copied_source unsupported one two three plain h = refl
  saved_source-copied_source (directory d) one two three plain h =
      same_directory ready exists front rel dest room d one two three plain h
  saved_source-copied_source (regular bytes) one two three plain h =
      same_file ready exists front rel dest bytes plain (omega (arith, two, three))

  copy_same-copied_source :
      (buffer : Bytes) (stat : Bytes → Source)
      → length dest + 1 + length rel < max_path_size
      → scan_copy_same buffer ≡ some (front ++ rel, dest)
      → skipped (front ++ rel) ≡ some (length front)
      → sendable_source (front ++ rel) (length front, length front) (stat (front ++ rel)) ≡ true
      → copy_same (willing ready) exists buffer stat
        ≡ some (codes "Finished Copying" ++ line_feed, copied_source (stat (front ++ rel)))
  unfolding copy_same copied_source sendable_source
  copy_same-copied_source buffer stat short read named h = go (stat (front ++ rel)) refl h
    where
      target : join dest (drop (length front) (front ++ rel)) ≡ dest ++ b'/' ∷ rel
      target = ap (join dest) (drop-append front rel) ∙ join_lem dest rel short

      go :
          (s : Source)
          → stat (front ++ rel) ≡ s
          → sendable_source (front ++ rel) (length front, length front) s ≡ true
          → copy_same (willing ready) exists buffer stat
            ≡ some (codes "Finished Copying" ++ line_feed, copied_source s)
      go missing e h = cc
      go unsupported e h = cc
      go (directory d) e h = rw (copy_same, read, e, named, target) refl
      go (regular bytes) e h = rw (copy_same, read, e, named, target) refl

-- A copy within a storage server and one to another storage server do the same: where both commands
-- name the same source and destination, the source is not the root of a storage server on its way
-- to a backup, its name is not ".", its folders open, every name and size fits its message, and
-- every path its buffer, both end with "Finished Copying", and `copy_different_dest` has made the
-- destination and then, path by path and byte by byte, what `copy_same` makes.
pub copy_different_src-copy_same :
    (ready : Peer → ℕ) (exists : Bytes → Bool) (buffer buffer' front rel dest : Bytes)
    (stat : Bytes → Source) (room : ℕ)
    → scan_copy_same buffer ≡ some (front ++ rel, dest)
    → scan_copy buffer' ≡ some (front ++ rel, dest)
    → skipped (front ++ rel) ≡ some (length front)
    → skips_to dest false (length front) ≡ (length front, length front)
    → length front + length rel ≤ room
    → length dest + 1 + length rel ≤ room
    → room < max_path_size
    → is_plain rel ≡ true
    → is_sendable dest ≡ true
    → sendable_source (front ++ rel) (length front, length front) (stat (front ++ rel)) ≡ true
    → readable_source room (stat (front ++ rel)) ≡ true
    → (made : List Made) × (copy_same (willing ready) exists buffer stat
        ≡ some (codes "Finished Copying" ++ line_feed, made))
      × (copy_different_src
            (send_to_peer (willing ready) false)
            (ack_from_peer (willing ready) false)
            buffer'
            stat
            false
            greeted
          ≡ some (finished_copying, at_end (made_directory dest ∷ made)))
copy_different_src-copy_same ready exists buffer buffer' front rel dest stat room read read' named
      same one two three plain fits sendable readable =
    let src = front ++ rel in
    let s = stat src in
    (
      copied_source ready exists front rel dest room s,
      copy_same-copied_source ready exists front rel dest room buffer stat
          (omega (arith, two, three)) read named sendable,
      copy_different_src-at_end ready buffer' src dest stat false (length front) read' named fits
            (ap (λ t. sendable_source src t s) same ∙ sendable)
          ∙ ap
              (λ t.
                some (
                  finished_copying,
                  at_end (made_directory dest ∷ saved_source false dest src t s),
                ))
              same
          ∙ ap (λ t. some (finished_copying, at_end (made_directory dest ∷ t)))
              (saved_source-copied_source ready exists front rel dest room s one two three plain
                readable),
    )
