-- ===== src/Listener/Effects.antt =====
-- What the listener asks of the operating system. Its answers are a parameter, `Os`: each may depend on
-- all the calls before it. The calls made so far are explicit state, the newest first.
use docker_socket_policy.Base.{Text, ℕ, Option, List, ◌∷◌, Result, ok, err}

pub data ErrorKind : Type 0 where
  not_found addr_in_use already_exists permission_denied : ErrorKind
  other_kind : Text → ErrorKind

pub data Errno : Type 0 where
  eperm ewouldblock econnrefused : Errno
  other_errno : ℕ → Errno

-- An `io::Error` of the system: its kind, its `raw_os_error` and its text.
pub record OsError : Type 0 where
  pub kind : ErrorKind
  pub errno : Option Errno
  pub text : Text

pub data FileType : Type 0 where
  socket : FileType
  other_type : Text → FileType

-- The answer of the thread that connects to a socket.
pub data Probe : Type 0 where
  connected timed_out disconnected : Probe
  connect_failed : OsError → Probe

-- The text of an `io::Error`: of the system, or one of the format strings.
pub data IoMessage : Type 0 where
  from_os : OsError → IoMessage
  opening_lock : (lock : Text) → OsError → IoMessage
  in_use_by_instance : (path lock : Text) → IoMessage
  locking : (lock : Text) → OsError → IoMessage
  checking : (path : Text) → OsError → IoMessage
  not_a_socket : (path : Text) → FileType → IoMessage
  in_use_by_process : (path : Text) → IoMessage
  refusing_to_remove : (path : Text) → OsError → IoMessage
  probe_not_completed : (path : Text) → IoMessage
  removing_stale : (path : Text) → OsError → IoMessage
  cannot_give : (path : Text) → (gid : ℕ) → IoMessage
  setting_group setting_mode : (path : Text) → OsError → IoMessage

pub record IoError : Type 0 where
  pub kind : ErrorKind
  pub message : IoMessage

abbrev pub os_error : OsError → IoError
os_error e = record { kind = e.kind; message = from_os e }

abbrev pub wrapped : IoMessage → OsError → IoError
wrapped message e = record { kind = e.kind; message = message }

pub data Call : Type 0 where
  open_lock flock close_lock : (lock : Text) → Call
  symlink_metadata connect remove_file bind drop_listener : (path : Text) → Call
  umask : (mask : ℕ) → Call
  chown : (path : Text) → (gid : ℕ) → Call
  chmod : (path : Text) → (mode : ℕ) → Call

abbrev pub Answer : Type 0 → Type 0
Answer A = List Call → A

pub record Os : Type 0 where
  pub open_lock : (lock : Text) → Answer (Result OsError (Unit {0}))
  pub flock : (lock : Text) → Answer (Result OsError (Unit {0}))
  pub symlink_metadata : (path : Text) → Answer (Result OsError FileType)
  pub connect : (path : Text) → Answer Probe
  pub remove_file : (path : Text) → Answer (Result OsError (Unit {0}))
  pub umask : (mask : ℕ) → Answer ℕ
  pub bind : (path : Text) → Answer (Result OsError (Unit {0}))
  pub chown : (path : Text) → (gid : ℕ) → Answer (Result OsError (Unit {0}))
  pub chmod : (path : Text) → (mode : ℕ) → Answer (Result OsError (Unit {0}))

-- A computation that makes calls, and ends with a value or an error.
abbrev pub Io : Type 0 → Type 0
Io A = List Call → List Call × Result IoError A

abbrev pub pure : {A : Type 0} → A → Io A
pure a calls = (calls, ok a)

abbrev pub fail : {A : Type 0} → IoError → Io A
fail e calls = (calls, err e)

-- What follows the outcome of a computation.
abbrev pub continue_with :
    {A B : Type 0} → List Call × Result IoError A → (A → Io B) → List Call × Result IoError B
continue_with (calls, ok a) next = next a calls
continue_with (calls, err e) next = (calls, err e)

infixl 5 ◌>>=◌ ◌>>◌
abbrev pub ◌>>=◌ : {A B : Type 0} → Io A → (A → Io B) → Io B
◌>>=◌ io next calls = continue_with (io calls) next

abbrev pub ◌>>◌ : {B : Type 0} → Io (Unit {0}) → Io B → Io B
first >> second = first >>= λ done. second

-- A call whose answer cannot be an error.
abbrev pub perform : {A : Type 0} → Call → Answer A → Io A
perform call answer calls = (call ∷ calls, ok (answer calls))

-- `map_err` on the answer of the system.
abbrev pub ok_or_else : {A : Type 0} → (OsError → IoError) → Result OsError A → Io A
ok_or_else wrap (ok a) = pure a
ok_or_else wrap (err e) = fail (wrap e)
