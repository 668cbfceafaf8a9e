-- ===== src/Client/Text.antt =====
-- `trim` of helper.c and `count_words`, and the other functions on a command.
use network_file_system.Prelude.{
  ℕ, zero, suc, Bool, ◌||◌, Option, none, some, [], ◌∷◌, Bytes, codes, str_eq, starts_with, strtok,
  length, ltb, ◌==◌, if◌then◌else◌,
}
use network_file_system.Transfer.Text.{is_space, skip_spaces}

-- What is left without the blanks at the end.
unfoldable pub trim_end : Bytes → Bytes
trim_end [] = []
trim_end (c ∷ cs) = elim (trim_end cs) [
  | [] ↦ if is_space c then [] else c ∷ []
  | d ∷ ds ↦ c ∷ d ∷ ds
]

-- `trim`, as the caller's buffer shows it: the blanks in front stay, and a text of blanks stays
-- whole.
unfoldable pub trim : Bytes → Bytes
unfolding trim_end skip_spaces
trim text = elim (skip_spaces text) [ [] ↦ text | c ∷ cs ↦ trim_end text ]

-- The size of the buffer of `count_words`.
abbrev pub count_buffer : ℕ
count_buffer = 100

-- `count_words`: undefined for a text that does not fit its buffer.
unfoldable pub count_words : Bytes → Option ℕ
count_words text = if ltb (length text) count_buffer then some (length (strtok b' ' text)) else none

-- What stands in front of the first `needle`, `strstr(text, needle)`; none if there is none.
unfoldable pub before_text : (needle text : Bytes) → Option Bytes
unfolding starts_with
before_text needle [] = if starts_with [] needle then some [] else none
before_text needle (c ∷ cs) =
    let rest = before_text needle cs in
    if starts_with (c ∷ cs) needle
    then some []
    else elim rest [ some front ↦ some (c ∷ front) | none ↦ none ]

-- `fgets` into a buffer with room for `count` bytes and the NUL: the line, and what is left.
unfoldable pub fgets : (count : ℕ) → Bytes → Bytes × Bytes
fgets zero text = ([], text)
fgets (suc n) [] = ([], [])
fgets (suc n) (c ∷ cs) =
    let more = fgets n cs in if c == 10 then (c ∷ [], cs) else (c ∷ more.0, more.1)

-- The loop of `fgetc` up to a line feed, and what is left; it does not end at the end of the input.
unfoldable pub read_data : Bytes → Option (Bytes × Bytes)
read_data [] = none
read_data (c ∷ cs) =
    let more = read_data cs in
    if c == 10
    then some ([], cs)
    else elim more [ some (text, rest) ↦ some (c ∷ text, rest) | none ↦ none ]

abbrev pub is_root_listing : Bytes → Bool
is_root_listing buffer = str_eq buffer (codes "ls ~") || str_eq buffer (codes "ls .")

-- The commands that the naming server answers itself.
abbrev pub is_direct : Bytes → Bool
is_direct buffer =
    starts_with buffer (codes "mkdir")
    || starts_with buffer (codes "rmdir")
    || starts_with buffer (codes "touch")
    || starts_with buffer (codes "rm")
    || starts_with buffer (codes "copy")
