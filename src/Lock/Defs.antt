-- ===== src/Lock/Defs.antt =====
-- The functions of lock.c between locking and unlocking the mutex. An `acquire` answers none where
-- its loop waits on the condition variable, and a `release` says which wake-up it sends.
use network_file_system.Prelude.{
  ℕ, ◌+◌, ◌-◌, Bool, true, false, ◌||◌, Option, none, some, Bytes, ltb, ◌==◌, if◌then◌else◌,
}

-- `Lock_Struct`, without the mutex and the condition variable, which are the library's.
pub record LockStruct : Type 0 where
  pub readers : ℕ
  pub is_writing : Bool
  pub is_deleting : Bool
  pub path_to_file : Bytes

-- The three kinds of access.
pub data Access : Type 0 where
  reading writing deleting : Access

pub data Wake : Type 0 where
  nobody signal broadcast : Wake

unfoldable pub init_lock : Bytes → LockStruct
init_lock path_to_file = record {
  readers = 0;
  is_writing = false;
  is_deleting = false;
  path_to_file = path_to_file;
}

unfoldable pub acquire_read_lock : LockStruct → Option LockStruct
acquire_read_lock file =
    if file.is_writing || file.is_deleting
    then none
    else some (record file { readers = file.readers + 1 })

unfoldable pub acquire_write_lock : LockStruct → Option LockStruct
acquire_write_lock file =
    if file.is_writing || file.is_deleting || ltb 0 file.readers
    then none
    else some (record file { is_writing = true })

unfoldable pub acquire_delete_lock : LockStruct → Option LockStruct
acquire_delete_lock file =
    if file.is_writing || file.is_deleting || ltb 0 file.readers
    then none
    else some (record file { is_deleting = true })

-- The count stays a natural number: no thread releases a read lock that it does not hold, so it
-- is positive here.
unfoldable pub release_read_lock : LockStruct → LockStruct × Wake
release_read_lock file =
    let readers' = file.readers - 1 in
    (record file { readers = readers' }, if readers' == 0 then signal else nobody)

unfoldable pub release_write_lock : LockStruct → LockStruct × Wake
release_write_lock file = (record file { is_writing = false }, signal)

unfoldable pub release_delete_lock : LockStruct → LockStruct × Wake
release_delete_lock file = (record file { is_deleting = false }, broadcast)

unfoldable pub acquire : Access → LockStruct → Option LockStruct
unfolding acquire_read_lock acquire_write_lock acquire_delete_lock
acquire reading = acquire_read_lock
acquire writing = acquire_write_lock
acquire deleting = acquire_delete_lock

unfoldable pub release : Access → LockStruct → LockStruct × Wake
unfolding release_read_lock release_write_lock release_delete_lock
release reading = release_read_lock
release writing = release_write_lock
release deleting = release_delete_lock
