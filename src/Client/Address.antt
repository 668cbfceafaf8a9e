-- ===== src/Client/Address.antt =====
-- The addresses that the naming server sends to a client, as the client reads them.
use network_file_system.Prelude.{
  ℕ, ◌+◌, ◌^◌, ◌<◌, ◌≤◌, ◌≡◌, refl, sym, ap, ◌∙◌, Bool, true, false, ◌&&◌, ◌||◌, none, some, arith,
  [], ◌∷◌, ◌++◌, Bytes, codes, starts_with, lacks, lacks-append, is_part, strtok, strtok-part,
  strtok-last, decimal, snprintf, take, take_of_length-le, length, length-append, and-true, leb,
  ◌==◌,
}
use mathlib.Core.List.{append_assoc, append-nil}
use network_file_system.Naming.World.{StorageServerInfo, Network, buffer_size}
use network_file_system.Naming.Commands.Lookup.{server_address}
use network_file_system.Naming.Copy.Messages.{length-decimal}
use network_file_system.Transfer.Text.{
  is_digit, atol, skip_spaces-decimal_from, digits_value-decimal_from, digits_value,
}
use network_file_system.Client.World.{Host}
use network_file_system.Client.Text.{before_text}
use network_file_system.Client.Loop.{transformed}
use network_file_system.Client.Grant.{lacks-decimal, is_part-decimal}

-- The text of an address.
abbrev pub is_address : Bytes → Bool
is_address [] = true
is_address (c ∷ cs) = (is_digit c || c == b'.') && is_address cs

pub lacks-address :
    (d : ℕ) (ip : Bytes)
    → is_digit d ≡ false
    → (d == b'.') ≡ false
    → is_address ip ≡ true
    → lacks d ip ≡ true
lacks-address d [] h k l = refl
lacks-address d (c ∷ cs) h k l = ground (arith, lacks-address d cs)

-- A port is read back in front of whatever does not start with a digit.
pub atol-decimal :
    (n c : ℕ) (rest : Bytes) → n < 10 ^ 10 → is_digit c ≡ false → atol (decimal n ++ c ∷ rest) ≡ n
unfolding atol decimal digits_value
atol-decimal n c rest h k =
    rw (skip_spaces-decimal_from 9 n (c ∷ rest) h)
      (digits_value-decimal_from 10 n (c ∷ rest) h ∙ rw k refl)

pub atol-decimal_whole : (n : ℕ) → n < 10 ^ 10 → atol (decimal n) ≡ n
unfolding atol decimal digits_value
atol-decimal_whole n h =
    ap atol (sym (append-nil (decimal n)))
    ∙ rw (skip_spaces-decimal_from 9 n [] h) (digits_value-decimal_from 10 n [] h)

-- A text without 'n' in front changes nothing about whether "not found" is in it.
pub before_text-behind :
    (a b : Bytes)
    → lacks b'n' a ≡ true
    → before_text (codes "not found") b ≡ none
    → before_text (codes "not found") (a ++ b) ≡ none
unfolding before_text starts_with
before_text-behind [] b h k = k
before_text-behind (c ∷ cs) b h k =
    let other : (c == b'n') ≡ false = ground arith in
    rw (other, before_text-behind cs b (ground arith) k) refl

pub before_text-lacks :
    (text : Bytes) → lacks b'n' text ≡ true → before_text (codes "not found") text ≡ none
unfolding before_text starts_with
before_text-lacks text h =
    ap (before_text (codes "not found")) (sym (append-nil text)) ∙ before_text-behind text [] h refl

pub starts_with-lacks :
    (text : Bytes) → lacks b'B' text ≡ true → starts_with text (codes "Backup") ≡ false
unfolding starts_with
starts_with-lacks [] h = refl
starts_with-lacks (c ∷ cs) h = let other : (c == b'B') ≡ false = ground arith in rw other refl

-- The address and the port that the client is told.
abbrev pub address_text : StorageServerInfo → (rest : Bytes) → Bytes
address_text s rest = s.ip ++ b',' ∷ (decimal s.port_client ++ rest)

pub lacks-address_text :
    (d : ℕ) (s : StorageServerInfo) (rest : Bytes)
    → is_digit d ≡ false
    → (d == b'.') ≡ false
    → (d == b',') ≡ false
    → is_address s.ip ≡ true
    → lacks d rest ≡ true
    → lacks d (address_text s rest) ≡ true
lacks-address_text d s rest h k l ip_ok tail =
    let comma : lacks d (b',' ∷ []) ≡ true = ground arith in
    lacks-append d s.ip (b',' ∷ (decimal s.port_client ++ rest)) (lacks-address d s.ip h k ip_ok) (
      lacks-append d (b',' ∷ []) (decimal s.port_client ++ rest) comma
        (lacks-append d (decimal s.port_client) rest (lacks-decimal d s.port_client h) tail))

pub length-address_text :
    (s : StorageServerInfo) (rest : Bytes)
    → length (address_text s rest) ≤ length s.ip + length rest + 11
length-address_text s rest = omega (
  arith,
  length-append s.ip (b',' ∷ (decimal s.port_client ++ rest)),
  length-append (decimal s.port_client) rest,
  length-decimal s.port_client,
)

pub is_part-append :
    (d : ℕ) (a b : Bytes) → is_part d a ≡ true → lacks d b ≡ true → is_part d (a ++ b) ≡ true
is_part-append d [] b h k = cc
is_part-append d (c ∷ cs) b h k = lacks-append d (c ∷ cs) b h k

pub is_part-address :
    (c : ℕ) (cs : Bytes) → is_address (c ∷ cs) ≡ true → is_part b',' (c ∷ cs) ≡ true
is_part-address c cs h = lacks-address b',' (c ∷ cs) refl refl h

-- The address of a server that the client may reach.
abbrev pub is_reachable : StorageServerInfo → Bool
is_reachable s = leb 1 (length s.ip) && leb (length s.ip) 15 && is_address s.ip

pub is_part-ip : (ip : Bytes) → 1 ≤ length ip → is_address ip ≡ true → is_part b',' ip ≡ true
is_part-ip [] h k = absurd (omega arith)
is_part-ip (c ∷ cs) h k = is_part-address c cs k

-- The answer with the backup of a server, in `folder`, as `process_client` of the naming server
-- writes it.
abbrev pub backup_reply : StorageServerInfo → (folder : Bytes) → Bytes
backup_reply s folder =
    snprintf buffer_size
      (codes "Backup " ++ s.ip ++ codes "," ++ decimal s.port_client ++ codes "," ++ folder)

module _ (s : StorageServerInfo) (ok_ : is_reachable s ≡ true) where
  pub reachable-ip : (1 ≤ length s.ip) × (length s.ip ≤ 15) × (is_address s.ip ≡ true)
  reachable-ip =
      let (front, text) =
        and-true (leb 1 (length s.ip) && leb (length s.ip) 15) (is_address s.ip) ok_ in
      let (a, b) = and-true (leb 1 (length s.ip)) (leb (length s.ip) 15) front in
      (ground (arith, a), ground (arith, b), text)

  pub server_address_text : (net : Network) → server_address net s ≡ address_text s (codes " ")
  unfolding server_address
  server_address_text net =
      let (_, short, _) = reachable-ip in
      let split : s.ip ++ codes "," ++ decimal s.port_client ++ codes " "
          ≡ address_text s (codes " ") =
        simp append_assoc refl in
      ap (take 1023) split
      ∙ take_of_length-le 1023 (address_text s (codes " "))
          (omega (arith, short, length-address_text s (codes " ")))

  pub backup_reply_text :
      (folder : Bytes)
      → length folder ≤ 900
      → backup_reply s folder ≡ codes "Backup " ++ address_text s (b',' ∷ folder)
  backup_reply_text folder h =
      let (_, short, _) = reachable-ip in
      let text = codes "Backup " ++ address_text s (b',' ∷ folder) in
      let split : codes "Backup "
            ++ s.ip
            ++ codes ","
            ++ decimal s.port_client
            ++ codes ","
            ++ folder
          ≡ text =
        simp append_assoc refl in
      ap (take 1023) split
      ∙ take_of_length-le 1023 text (omega (arith, short, h, length-address_text s (b',' ∷ folder)))

  pub strtok-server_address :
      strtok b',' (address_text s (codes " ")) ≡ s.ip ∷ (decimal s.port_client ++ codes " ") ∷ []
  strtok-server_address =
      let (some_, _, text) = reachable-ip in
      strtok-part b',' s.ip (decimal s.port_client ++ codes " ") (is_part-ip s.ip some_ text)
      ∙ ap (◌∷◌ s.ip) (
          strtok-last b',' (decimal s.port_client ++ codes " ") (
            is_part-append b',' (decimal s.port_client) (codes " ")
              (is_part-decimal b',' s.port_client refl) refl))

  pub transformed_lem :
      (host : Host) (folder : Bytes)
      → transformed host (codes "Backup " ++ address_text s (b',' ∷ folder))
        ≡ some (s.ip ++ codes "," ++ decimal s.port_client)
  unfolding transformed
  transformed_lem host folder =
      let (some_, _, text) = reachable-ip in
      let words : strtok b',' (address_text s (b',' ∷ folder))
          ≡ s.ip ∷ decimal s.port_client ∷ strtok b',' folder =
        strtok-part b',' s.ip (decimal s.port_client ++ b',' ∷ folder) (is_part-ip s.ip some_ text)
        ∙ ap (◌∷◌ s.ip) (
            strtok-part b',' (decimal s.port_client) folder
              (is_part-decimal b',' s.port_client refl)) in
      rw (transformed, words) refl

  pub strtok-transformed :
      strtok b',' (s.ip ++ codes "," ++ decimal s.port_client) ≡ s.ip ∷ decimal s.port_client ∷ []
  strtok-transformed =
      let (some_, _, text) = reachable-ip in
      ap (strtok b',') (append_assoc s.ip (codes ",") (decimal s.port_client))
      ∙ strtok-part b',' s.ip (decimal s.port_client) (is_part-ip s.ip some_ text)
      ∙ ap (◌∷◌ s.ip)
          (strtok-last b',' (decimal s.port_client) (is_part-decimal b',' s.port_client refl))
