-- ===== src/Client/Grant.antt =====
-- What the client reads in an answer to a `write`.
use network_file_system.Prelude.{
  ℕ, zero, suc, ◌+◌, ◌/◌, ◌%◌, ◌<◌, ◌≤◌, ◌≡◌, refl, ap, ◌∙◌, true, false, ◌||◌, some, arith,
  Bool-cases, inl, inr, [], ◌∷◌, ◌++◌, Bytes, codes, c_string, lacks, lacks-append, is_part, str_eq,
  strtok, strtok-part, strtok-last, decimal, decimal_from, snprintf, take, take_of_length-le,
  length, length-append, lt→ltb, ltb, ◌==◌,
}
use mathlib.Core.List.{append_assoc, append-nil}
use network_file_system.Naming.World.{buffer_size, StorageServerInfo, Network}
use network_file_system.Naming.Commands.Lookup.{write_grant}
use network_file_system.Naming.Copy.Messages.{length-decimal}
use network_file_system.Naming.Copy.Read.{decimal-cons}
use network_file_system.Storage.Async.{has_nul}
use network_file_system.Storage.Appended.{c_string-front, has_nul-front}
use network_file_system.Transfer.Text.{is_digit}
use network_file_system.Client.World.{in_zeroed}

pub has_nul-lacks : (cs : Bytes) → lacks 0 cs ≡ true → has_nul cs ≡ false
has_nul-lacks [] h = refl
has_nul-lacks (c ∷ cs) h = ground (arith, has_nul-lacks cs)

pub c_string-lacks : (cs rest : Bytes) → lacks 0 cs ≡ true → c_string (cs ++ 0 ∷ rest) ≡ cs
unfolding c_string
c_string-lacks cs rest h = c_string-front cs (0 ∷ rest) (has_nul-lacks cs h) ∙ append-nil cs

pub c_string-whole : (cs : Bytes) → lacks 0 cs ≡ true → c_string cs ≡ cs
unfolding c_string
c_string-whole [] h = refl
c_string-whole (c ∷ cs) h =
    let other : (c == 0) ≡ false = ground arith in
    rw other (ap (◌∷◌ c) (c_string-whole cs (ground arith)))

take-behind :
    (n : ℕ) (a : Bytes) (r : ℕ) (rest : Bytes)
    → length a < n
    → (more : Bytes) × (take n (a ++ r ∷ rest) ≡ a ++ r ∷ more)
take-behind zero a r rest h = absurd (omega arith)
take-behind (suc n) [] r rest h = (take n rest, refl)
take-behind (suc n) (c ∷ cs) r rest h =
    let (more, e) = take-behind n cs r rest (omega arith) in (more, ap (◌∷◌ c) e)

-- A text with a NUL behind it, which may be followed by anything.
pub in_zeroed-nul :
    (a rest : Bytes)
    → lacks 0 a ≡ true
    → length a < buffer_size
    → in_zeroed (a ++ 0 ∷ rest) ≡ some a
unfolding in_zeroed
in_zeroed-nul a rest h short =
    let (more, cut) = take-behind buffer_size a 0 rest short in
    let nul : has_nul (a ++ 0 ∷ more) ≡ true = has_nul-front a (0 ∷ more) refl in
    let found : (ltb (length (a ++ 0 ∷ rest)) buffer_size || true) ≡ true = ground arith in
    rw (cut, nul, found, c_string-lacks a more h) refl

-- A text without a NUL behind it, which leaves room.
pub in_zeroed-whole : (a : Bytes) → lacks 0 a ≡ true → length a < buffer_size → in_zeroed a ≡ some a
unfolding in_zeroed
in_zeroed-whole a h short =
    let fits : take buffer_size a ≡ a = take_of_length-le buffer_size a (omega arith) in
    let room : ltb (length a) buffer_size ≡ true = lt→ltb (length a) buffer_size short in
    rw (room, fits, c_string-whole a h) refl

lacks-decimal_from : (d f n : ℕ) → is_digit d ≡ false → lacks d (decimal_from f n) ≡ true
unfolding decimal_from
lacks-decimal_from d zero n h = refl
lacks-decimal_from d (suc f) n h =
    let digit : is_digit (b'0' + n % 10) ≡ true = ground arith in
    let other : ((b'0' + n % 10) == d) ≡ false = ground arith in
    let last : lacks d ((b'0' + n % 10) ∷ []) ≡ true = rw other refl in
    elim (Bool-cases (ltb n 10)) [
      | inl small ↦ rw small last
      | inr large ↦ rw large (
          lacks-append d (decimal_from f (n / 10)) ((b'0' + n % 10) ∷ [])
            (lacks-decimal_from d f (n / 10) h) last)
    ]

pub lacks-decimal : (d n : ℕ) → is_digit d ≡ false → lacks d (decimal n) ≡ true
unfolding decimal
lacks-decimal d n h = lacks-decimal_from d 10 n h

is_part-lacks : (d c : ℕ) (cs : Bytes) → lacks d (c ∷ cs) ≡ true → is_part d (c ∷ cs) ≡ true
is_part-lacks d c cs h = h

pub is_part-decimal : (d n : ℕ) → is_digit d ≡ false → is_part d (decimal n) ≡ true
unfolding decimal decimal_from
is_part-decimal d n h =
    let (c, cs, e, digit) = decimal-cons n in
    rw e (is_part-lacks d c cs (rw e at (lacks-decimal d n h)))

-- Three parts with a delimiter between them.
pub strtok-three :
    (d : ℕ) (a b c : Bytes)
    → is_part d a ≡ true
    → is_part d b ≡ true
    → is_part d c ≡ true
    → strtok d (a ++ d ∷ (b ++ d ∷ c)) ≡ a ∷ b ∷ c ∷ []
strtok-three d a b c h k l =
    strtok-part d a (b ++ d ∷ c) h
    ∙ ap (◌∷◌ a) (strtok-part d b c k ∙ ap (◌∷◌ b) (strtok-last d c l))

-- The answer without the NUL at its end.
abbrev pub grant : (tag : Bytes) → StorageServerInfo → Bytes
grant tag s = tag ++ b'|' ∷ (s.ip ++ b'|' ∷ decimal s.port_client)

pub length-grant :
    (tag : Bytes) (s : StorageServerInfo)
    → length s.ip ≤ 15
    → length (grant tag s) ≤ length tag + 27
length-grant tag s h = omega (
  arith,
  h,
  length-append tag (b'|' ∷ (s.ip ++ b'|' ∷ decimal s.port_client)),
  length-append s.ip (b'|' ∷ decimal s.port_client),
  length-decimal s.port_client,
)

pub lacks-grant :
    (tag : Bytes) (s : StorageServerInfo)
    → lacks 0 tag ≡ true
    → lacks 0 s.ip ≡ true
    → lacks 0 (grant tag s) ≡ true
lacks-grant tag s h k =
    lacks-append 0 tag (b'|' ∷ (s.ip ++ b'|' ∷ decimal s.port_client)) h
      (lacks-append 0 s.ip (b'|' ∷ decimal s.port_client) k (lacks-decimal 0 s.port_client refl))

grant_bytes :
    (s : StorageServerInfo)
    → length s.ip ≤ 15
    → snprintf buffer_size (codes "|" ++ s.ip ++ codes "|" ++ decimal s.port_client)
      ≡ b'|' ∷ (s.ip ++ b'|' ∷ decimal s.port_client)
grant_bytes s h =
    let split : codes "|" ++ s.ip ++ codes "|" ++ decimal s.port_client
        ≡ b'|' ∷ (s.ip ++ b'|' ∷ decimal s.port_client) =
      simp append_assoc refl in
    ap (take 1023) split
    ∙ take_of_length-le 1023 (b'|' ∷ (s.ip ++ b'|' ∷ decimal s.port_client)) (
        omega (
          arith,
          h,
          length-append s.ip (b'|' ∷ decimal s.port_client),
          length-decimal s.port_client,
        ))

module _ (net : Network) where
  pub write_grant-sync :
      (s : StorageServerInfo)
      → length s.ip ≤ 15
      → write_grant net (codes "-s") s ≡ grant (codes "PATH_OK_SYNC") s ++ 0 ∷ []
  unfolding write_grant str_eq
  write_grant-sync s h = ap (λ t. (codes "PATH_OK_SYNC" ++ t) ++ 0 ∷ []) (grant_bytes s h)

  pub write_grant-async :
      (s : StorageServerInfo)
      → length s.ip ≤ 15
      → write_grant net (codes "-a") s ≡ grant (codes "PATH_OK_ASYNC") s ++ 0 ∷ []
  unfolding write_grant str_eq
  write_grant-async s h = ap (λ t. (codes "PATH_OK_ASYNC" ++ t) ++ 0 ∷ []) (grant_bytes s h)
