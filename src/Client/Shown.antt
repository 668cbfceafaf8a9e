-- ===== src/Client/Shown.antt =====
-- What the client prints of a listing.
use network_file_system.Prelude.{
  suc, ◌+◌, ◌<◌, ◌≡◌, refl, ◌∙◌, Bool, true, ◌&&◌, some, arith, List, [], ◌∷◌, ◌++◌, Bytes,
  replicate, length, leb,
}
use mathlib.Core.List.{append_assoc}
use network_file_system.Naming.World.{buffer_size}
use network_file_system.Transfer.Same.{flat}
use network_file_system.Client.World.{Event, printed, World, Host, next_command, ask}
use network_file_system.Transfer.Send.{◌>>=◌, ◌>>◌}
use network_file_system.Client.Listing.{list_end, show_chunks, list_root}
use network_file_system.Client.Clean.{IsClean, is_markless, show_chunk, show_last}

-- What the events printed, in their order.
abbrev pub shown : List Event → Bytes
shown [] = []
shown (printed text ∷ es) = shown es ++ text
shown (e ∷ es) = shown es

-- A chunk that a receive returns with room for a NUL.
abbrev pub all_plain : List Bytes → Bool
all_plain [] = true
all_plain (c ∷ cs) = leb (suc (length c)) 1023 && is_markless c && all_plain cs

-- The chunks of a listing, up to the marker.
show_chunks-list_end :
    (buffer : Bytes) (front : List Bytes) (last behind : Bytes) (more : List Bytes) (w : World)
    → IsClean buffer
    → all_plain front ≡ true
    → is_markless last ≡ true
    → length last + 11 + length behind < 1024
    → (w' : World) × (show_chunks buffer (front ++ (last ++ (list_end ++ behind)) ∷ more) w
        ≡ some (tt, w'))
      × (shown w'.events ≡ shown w.events ++ (flat front ++ last))
      × (w'.input ≡ w.input)
show_chunks-list_end buffer [] last behind more w clean ok_ plain short = (
  record w { events = printed last ∷ w.events },
  show_last buffer last behind more w clean short plain,
  refl,
  refl,
)
show_chunks-list_end buffer (c ∷ cs) last behind more w clean ok_ plain short =
    let small : length c < 1023 = ground arith in
    let (next, clean', step) =
      show_chunk buffer c (cs ++ (last ++ (list_end ++ behind)) ∷ more) w clean small
        (ground arith) in
    let (w', run, text, same) =
      show_chunks-list_end next cs last behind more (record w { events = printed c ∷ w.events })
        clean' (ground arith) plain short in
    (w', step ∙ run, text ∙ simp append_assoc refl, same)

zeroed-IsClean : IsClean (replicate buffer_size 0)
zeroed-IsClean = record { whole = refl; ended = refl; plain = refl }

-- A listing of the naming server without NUL and without the first byte of the marker, which arrives
-- in any chunks of fewer than 1023 bytes, the last of which is followed in the same receive by the
-- whole marker and perhaps more, 1023 bytes together at most: `ls` on the root prints the listing,
-- stops at the marker, and goes on with the next command.
pub list_root_lem :
    (host : Host) (front : List Bytes) (last behind : Bytes) (more : List Bytes) (w : World)
    → host.list_chunks w.events ≡ front ++ (last ++ (list_end ++ behind)) ∷ more
    → all_plain front ≡ true
    → is_markless last ≡ true
    → length last + 11 + length behind < 1024
    → (w' : World) × (list_root host w ≡ some (next_command, w'))
      × (shown w'.events ≡ shown w.events ++ (flat front ++ last))
      × (w'.input ≡ w.input)
unfolding list_root
list_root_lem host front last behind more w chunks ok_ plain short =
    let (w', run, text, same) =
      show_chunks-list_end (replicate buffer_size 0) front last behind more w zeroed-IsClean ok_
        plain short in
    (w', rw (list_root, ◌>>=◌, ◌>>◌, ask, chunks, run) refl, text, same)
