-- ===== src/Naming/Copy/Whole.antt =====
-- A copy that a client asks for, from its command to the files at the destination.
use network_file_system.Transfer.Source.{Source}
use network_file_system.Transfer.Local
