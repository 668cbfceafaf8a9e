-- ===== src/Tests/Requests.antt =====
-- The theorems on the copies that clients ask for, at concrete commands.
use network_file_system.Prelude.{
  ℕ, ◌≡◌, refl, Option, some, [], codes, decimal, before_last, strtok, starts_with, str_eq, ltb→lt,
}
use network_file_system.Tries.Defs.{parse_path, drop_tildes}
use network_file_system.Naming.World.{World, ok}
use network_file_system.Naming.Valid.{IsValid}
use network_file_system.Naming.Search.Defs.{search_storage_server}
use network_file_system.Naming.Copy.Defs.{
  copied_path, backup_place, backup_message, handle_copy_request,
}
use network_file_system.Naming.Copy.Branches.{End, handle_copy_request_lem}
use network_file_system.Naming.Copy.Read.{read-backup_message}
use network_file_system.Storage.Listen.{copy_to, copydifferentb, listen_to_nm}
use network_file_system.Transfer.Send.{scan_copy_b}
use network_file_system.Transfer.Local
use network_file_system.Transfer.Local.{scan_copy_same}
use network_file_system.Tests.States.{server, world, world-IsValid, net}

handle_copy_request_lem_example :
    (r1 r2 : Option ℕ) × (w1 w2 : World) × (search_storage_server net (codes "./notes") world
      ≡ ok r1 w1)
    × (search_storage_server net (codes "./b") w1 ≡ ok r2 w2)
    × IsValid w2
    × End net 7
        (codes "copy ./notes ./b")
        (codes "./notes")
        (codes "./b")
        r1
        r2
        w2
        (handle_copy_request net 7 (codes "copy ./notes ./b") world)
unfolding parse_path drop_tildes strtok str_eq starts_with
handle_copy_request_lem_example =
    handle_copy_request_lem net 7 (codes "copy ./notes ./b") (codes "copy") (codes "./notes")
      (codes "./b") [] world world-IsValid refl refl refl refl (ltb→lt _ _ refl) (ltb→lt _ _ refl)

read-backup_message_example :
    (listen_to_nm (codes "./x") (codes "copydifferentb ./b/a ./backupfolderforss/y/b 10.0.0.2 0")
      ≡ some (copy_to copydifferentb (some (codes "10.0.0.2")) (some (codes "0"))))
    × (scan_copy_b (codes "copydifferentb ./b/a ./backupfolderforss/y/b 10.0.0.2 0")
        ≡ some
            (copied_path (codes "./notes/a") (codes "./b"), backup_place (codes "y") (codes "./b")))
unfolding copied_path backup_place backup_message decimal before_last
read-backup_message_example =
    read-backup_message (codes "./x") (codes "./notes/a") (codes "./b") (codes "y")
      (codes "copydifferentb ./b/a ./backupfolderforss/y/b 10.0.0.2 0") server refl
      (ltb→lt _ _ refl) refl
