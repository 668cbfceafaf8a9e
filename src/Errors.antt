-- ===== src/Errors.antt =====
-- The table of ErrorCodes.h and `printErrorDetails`.
use network_file_system.Prelude.{
  ℕ, zero, suc, ◌+◌, ◌≤◌, ◌≡◌, refl, Bool, true, ◌&&◌, leb, Option, none, some, List, [], ◌∷◌, ◌++◌,
  Bytes, codes, decimal, ◌==◌, get_elem?, if◌then◌else◌, arith,
}

-- `Error`, whose `code` is the field of the source.
pub record Error : Type 0 where
  pub number : ℕ
  pub name : Bytes
  pub message : Bytes

abbrev error : ℕ → Bytes → Bytes → Error
error number name message = record { number = number; name = name; message = message }

unfoldable pub errors : List Error
errors =
    error 0 (codes "ERR_NO_FILE_FOUND") (codes "No file found")
    ∷ error 1 (codes "ERR_NO_FOLDER_FOUND") (codes "No folder found")
    ∷ error 2 (codes "ERR_STORAGE_SERVER_DOWN") (codes "Storage server is down")
    ∷ error 3 (codes "ERR_NAMING_SERVER_UNREACHABLE") (codes "Network is unreachable")
    ∷ error 4 (codes "ERR_PERMISSION_DENIED") (codes "Permission denied")
    ∷ error 5 (codes "ERR_DISK_FULL") (codes "Disk is full")
    ∷ error 6 (codes "ERR_UNKNOWN_ERROR") (codes "Unknown error")
    ∷ error 7 (codes "SOCK_CREAT_FAIL") (codes "Socket creation failed")
    ∷ error 8 (codes "INV_IP_ADDR") (codes "invalid IP")
    ∷ error 9 (codes "CONN_FAIL") (codes "Connection failed")
    ∷ error 10 (codes "SEND_FAIL") (codes "Send failed")
    ∷ error 11 (codes "RECV_FAIL") (codes "Receive failed")
    ∷ error 12 (codes "ERR_INVALID_PATH") (codes "Invalid path")
    ∷ error 13 (codes "ERR_PATH_NOT_FOUND") (codes "Path not found")
    ∷ error 14 (codes "ERR_INVALID_FORMAT") (codes "Invalid format")
    ∷ error 15 (codes "ERR_INVALID_INPUT") (codes "Invalid input")
    ∷ error 16 (codes "ERR_INVALID_COMMAND") (codes "Invalid command")
    ∷ error 17 (codes "ERR_INVALID_IP") (codes "Invalid IP address")
    ∷ error 18 (codes "ERR_INVALID_PORT") (codes "Invalid port number")
    ∷ error 19 (codes "ERR_INVALID_FILE") (codes "Invalid file")
    ∷ error 20 (codes "ERR_INVALID_DIRECTORY") (codes "Invalid directory")
    ∷ error 21 (codes "ERR_INVALID_FILE_PATH") (codes "Invalid file path")
    ∷ error 22 (codes "ERR_INVALID_DIRECTORY_PATH") (codes "Invalid directory path")
    ∷ error 23 (codes "ERR_INVALID_FILE_NAME") (codes "Invalid file name")
    ∷ error 24 (codes "ERR_INVALID_DIRECTORY_NAME") (codes "Invalid directory name")
    ∷ error 25 (codes "ERR_INVALID_FILE_EXTENSION") (codes "Invalid file extension")
    ∷ error 26 (codes "ERR_INVALID_DIRECTORY_EXTENSION") (codes "Invalid directory extension")
    ∷ error 27 (codes "ERR_INVALID_FILE_SIZE") (codes "Invalid file size")
    ∷ error 28 (codes "ERR_INVALID_DIRECTORY_SIZE") (codes "Invalid directory size")
    ∷ error 29 (codes "ERR_INVALID_FILE_CONTENT") (codes "Invalid file content")
    ∷ error 30 (codes "ERR_INVALID_DIRECTORY_CONTENT") (codes "Invalid directory content")
    ∷ error 31 (codes "ERR_INVALID_FILE_PERMISSION") (codes "Invalid file permission")
    ∷ error 32 (codes "ERR_INVALID_DIRECTORY_PERMISSION") (codes "Invalid directory permission")
    ∷ error 33 (codes "ERR_INVALID_FILE_OWNER") (codes "Invalid file owner")
    ∷ error 34 (codes "ERR_INVALID_DIRECTORY_OWNER") (codes "Invalid directory owner")
    ∷ error 35 (codes "ERR_INVALID_FILE_GROUP") (codes "Invalid file group")
    ∷ error 36 (codes "FFPLAY_FAIL") (codes "ffplay failed.")
    ∷ error 37 (codes "SS_NO_RESPONSE") (codes "Storage Server not responding")
    ∷ error 38 (codes "BACKUP1_FAIL") (codes "Failed to send command to backup server 1")
    ∷ error 39 (codes "SSINFO_FAIL/CLIENT_DISCONN")
        (codes "Failed to receive storage server info or client disconnected")
    ∷ error 40 (codes "LISTEN_FAIL") (codes "listen failed.")
    ∷ error 41 (codes "BIND_FAIL") (codes "Bind failed.")
    ∷ error 42 (codes "ACCEPT_FAIL") (codes "Accept failed.")
    ∷ error 43 (codes "THREAD_FAIL") (codes "Failed to create thread")
    ∷ error 44 (codes "SETSOCKOPT_FAIL") (codes "setsockopt failed.")
    ∷ error 45 (codes "SS_CONN_FAIL") (codes "Storage server connection failed")
    ∷ error 46 (codes "PING_SEND_FAIL") (codes "Failed to send ping command")
    ∷ error 47 (codes "PING_REC_FAIL") (codes "Failed to recive ping command")
    ∷ error 48 (codes "BUFFER_DUP_FAIL") (codes "Failed to duplicate the buffer")
    ∷ error 49 (codes "SEND_TO_SS_FAIL") (codes "Failed to send to source storage seerver")
    ∷ error 50 (codes "RECV_FROM_SS_FAIL") (codes "Failed to receive from source storage server")
    ∷ error 51 (codes "CLIENT_NO_RESP") (codes "Client is not responding")
    ∷ error 52 (codes "FAIL_SEND_CLIENT") (codes "failed to send response to client")
    ∷ error 53 (codes "RECV_FROM_CLIENT_FAIL") (codes "Failed to receive client")
    ∷ error 54 (codes "SS_NO_RESP") (codes "storage server not responding")
    ∷ error 55 (codes "NS_CONN_FAIL") (codes "Connection to Naming Server Failed")
    ∷ error 56 (codes "BACKUP_CREAT_FAIL") (codes "Failed to create backup folder")
    ∷ error 57 (codes "GETSOCKNAME_FAIL") (codes "getsockname failed.")
    ∷ error 69 (codes "FORMAT_ERR") (codes "Incorrect Input Format!")
    ∷ []

-- The loop: the first row with the number.
unfoldable pub find_error : ℕ → List Error → Option Error
find_error number [] = none
find_error number (e ∷ es) =
    let rest = find_error number es in if e.number == number then some e else rest

abbrev pub red : Bytes
red = 27 ∷ codes "[0;31m"

abbrev pub reset : Bytes
reset = 27 ∷ codes "[0m"

abbrev pub newline : Bytes
newline = 10 ∷ []

-- What is printed.
unfoldable pub print_error_details : ℕ → Bytes
unfolding find_error errors
print_error_details number = elim (find_error number errors) [
  | some e ↦
      red
      ++ codes "Error Number: "
      ++ decimal e.number
      ++ newline
      ++ codes "Error Code: "
      ++ e.name
      ++ newline
      ++ codes "Error Message: "
      ++ e.message
      ++ newline
      ++ reset
  | none ↦
      red ++ codes "Error: Invalid error code (" ++ decimal number ++ codes ")" ++ newline ++ reset
]

abbrev is_increasing : ℕ → List Error → Bool
is_increasing low [] = true
is_increasing low (e ∷ es) = leb low e.number && is_increasing (e.number + 1) es

increasing-ge :
    (low i : ℕ) (es : List Error) (e : Error)
    → is_increasing low es ≡ true
    → get_elem? es i ≡ some e
    → low ≤ e.number
increasing-ge low i [] e h at = cc
increasing-ge low zero (d ∷ es) e h at = ground arith
increasing-ge low (suc i) (d ∷ es) e h at = ground (arith, increasing-ge (d.number + 1) i es e)

find_error-increasing :
    (low i : ℕ) (es : List Error) (e : Error)
    → is_increasing low es ≡ true
    → get_elem? es i ≡ some e
    → find_error e.number es ≡ some e
unfolding find_error
find_error-increasing low i [] e h at = cc
find_error-increasing low zero (d ∷ es) e h at = ground arith
find_error-increasing low (suc i) (d ∷ es) e h at =
    ground (arith, find_error-increasing (d.number + 1) i es e, increasing-ge (d.number + 1) i es e)

errors_increasing : is_increasing 0 errors ≡ true
unfolding errors
errors_increasing = refl

-- Every row of the table is found by its number, and is what is printed for it: no row hides
-- another.
pub print_error_details-errors :
    (i : ℕ) (e : Error)
    → get_elem? errors i ≡ some e
    → (find_error e.number errors ≡ some e)
      × (print_error_details e.number
          ≡ red
            ++ codes "Error Number: "
            ++ decimal e.number
            ++ newline
            ++ codes "Error Code: "
            ++ e.name
            ++ newline
            ++ codes "Error Message: "
            ++ e.message
            ++ newline
            ++ reset)
unfolding print_error_details
print_error_details-errors i e at =
    let found : find_error e.number errors ≡ some e =
      find_error-increasing 0 i errors e errors_increasing at in
    (found, rw (print_error_details, found) refl)
