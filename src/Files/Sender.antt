-- ===== src/Files/Sender.antt =====
-- A connection on which every send succeeds, with the messages so far.
use network_file_system.Prelude.{Bool, true, some, List, [], ◌∷◌, ◌++◌, Bytes}
use network_file_system.Transfer.Send.{P}

abbrev pub Log : Type 0
Log = List Bytes

abbrev pub accept : Bytes → P Log Bool
accept message log = some (true, log ++ message ∷ [])
