-- ===== src/Transfer/Source.antt =====
-- What a storage server finds where it copies from, and the pieces in which a file is read.
use network_file_system.Prelude.{
  ℕ, zero, suc, Bool, ◌||◌, Option, List, [], ◌∷◌, Bytes, codes, str_eq, take, drop, length,
}

-- A folder that does not open, or its entries. The bytes of a file are none where it does not
-- open. `other` is an entry that is no file and no folder, or that `stat` does not find.
mutual
  pub data Directory : Type 0 where
    closed : Directory
    opened : Items → Directory

  pub data Items : Type 0 where
    end : Items
    file : (name : Bytes) → Option Bytes → Items → Items
    folder : (name : Bytes) → Directory → Items → Items
    other : (name : Bytes) → Items → Items

-- What `stat` says of the source path.
pub data Source : Type 0 where
  missing : Source
  directory : Directory → Source
  regular : Option Bytes → Source
  unsupported : Source

-- "." and "..", which are skipped.
unfoldable pub is_dot : Bytes → Bool
unfolding str_eq
is_dot name = str_eq name (codes ".") || str_eq name (codes "..")

-- The pieces that `read` returns one after the other for a buffer of `size` bytes. `left` bounds
-- their number.
unfoldable pub read_chunks : (size left : ℕ) → Bytes → List Bytes
read_chunks size left [] = []
read_chunks size zero (c ∷ cs) = []
read_chunks size (suc n) (c ∷ cs) = take size (c ∷ cs) ∷ read_chunks size n (drop size (c ∷ cs))

-- The whole file.
unfoldable pub chunks_of : (size : ℕ) → Bytes → List Bytes
unfolding read_chunks
chunks_of size bytes = read_chunks size (length bytes) bytes
