-- ===== src/Transfer/Local.antt =====
-- A copy within one storage server: `copy_same`, `copy_directory` and `copy_file`.
use network_file_system.Prelude.{
  ℕ, Bool, true, false, ◌||◌, Option, none, some, List, [], ◌∷◌, ◌++◌, Bytes, codes, starts_with,
  drop, if◌then◌else◌,
}
use network_file_system.Transfer.Source.{
  Directory, closed, opened, Items, end, file, folder, other, Source, missing, directory, regular,
  unsupported, is_dot, chunks_of,
}
use network_file_system.Transfer.Send.{line_feed, join, scan_words, skipped}
use network_file_system.Transfer.Receive.{Made, made_directory, wrote, Disk}

-- The bytes of `buffer` in `copy_file`.
abbrev pub copy_buffer_size : ℕ
copy_buffer_size = 4096

unfoldable pub scan_copy_same : Bytes → Option (Bytes × Bytes)
unfolding scan_words
scan_copy_same buffer = elim (starts_with buffer (codes "copysame")) [
  | false ↦ none
  | true ↦ elim (scan_words 2 (drop 8 buffer)) [
    | some (src ∷ dest ∷ [], rest) ↦ some (src, dest)
    | _ ↦ none
  ]
]

-- `exists` says whether `stat` finds the destination.
module _ (disk : Disk) (exists : Bytes → Bool) where
  -- The loop over the pieces, up to the first `write` that fails.
  unfoldable pub write_chunks : (dest : Bytes) → List Bytes → Bytes
  write_chunks dest [] = []
  write_chunks dest (c ∷ cs) = if disk.writes dest then c ++ write_chunks dest cs else []

  unfoldable pub copy_file : Option Bytes → (dest : Bytes) → List Made
  unfolding write_chunks chunks_of
  copy_file none dest = []
  copy_file (some bytes) dest =
      if disk.opens dest
      then wrote dest (write_chunks dest (chunks_of copy_buffer_size bytes)) ∷ []
      else []

  -- The kind of an entry is that of `d_type`, so that a symbolic link is an `other`.
  unfoldable mutual
    unfolding copy_file is_dot join

    pub copy_directory : Directory → (dest : Bytes) → List Made
    copy_directory closed dest =
        if exists dest || disk.makes dest then made_directory dest ∷ [] else []
    copy_directory (opened items) dest =
        if exists dest || disk.makes dest then made_directory dest ∷ copy_items items dest else []

    pub copy_items : Items → (dest : Bytes) → List Made
    copy_items end dest = []
    copy_items (file name bytes items) dest =
        (if is_dot name then [] else copy_file bytes (join dest name)) ++ copy_items items dest
    copy_items (folder name d items) dest =
        (if is_dot name then [] else copy_directory d (join dest name)) ++ copy_items items dest
    copy_items (other name items) dest = copy_items items dest

  -- The reply and what is done: none where the source has no '/', which is read through NULL.
  unfoldable pub copy_same : (buffer : Bytes) (stat : Bytes → Source) → Option (Bytes × List Made)
  unfolding scan_copy_same skipped copy_directory copy_file join
  copy_same buffer stat = elim (scan_copy_same buffer) [
    | none ↦
        some
          (codes "Invalid input format. Expected: copysame <srcpath> <destpath>" ++ line_feed, [])
    | some (src, dest) ↦ elim (stat src) [
      | missing ↦ some (codes "Source path does not exist" ++ line_feed, [])
      | unsupported ↦ some (codes "Unsupported file type" ++ line_feed, [])
      | directory d ↦ elim (skipped src) [
        | none ↦ none
        | some n ↦
            some (codes "Finished Copying" ++ line_feed, copy_directory d (join dest (drop n src)))
      ]
      | regular bytes ↦ elim (skipped src) [
        | none ↦ none
        | some n ↦
            some (codes "Finished Copying" ++ line_feed, copy_file bytes (join dest (drop n src)))
      ]
    ]
  ]
