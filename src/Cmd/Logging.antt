-- ===== src/Cmd/Logging.antt =====
-- cmd/et/logging.go: the client's log, and cmd/et/main.go.
--
-- A path is its parts in order, as filepath.Join takes them; filepath.Dir is all but the last, `dir_of`.
-- What the system answered is an argument, none for nil.
pub mod Opened
use et_go.Prelude.{
  ℕ, List, [], ◌∷◌, ◌++◌, Bool, true, false, not, ◌&&◌, Option, none, some, Bytes, if◌then◌else◌,
}
use et_go.Strings.{codes}

-- The environment that `defaultLogPath` looks at. The home directory's error is a number.
pub data Home : Type 0 where
  home_at : Bytes → Home
  no_home : ℕ → Home

pub record Environment : Type 0 where
  pub on_windows : Bool
  pub local_app_data : Bytes
  pub xdg_state_home : Bytes
  pub home : Home

pub data LogErr : Type 0 where
  no_local_app_data : LogErr
  no_home_dir : ℕ → LogErr
  mkdir_failed : ℕ → LogErr
  open_failed : ℕ → LogErr

pub data LogPath : Type 0 where
  path_of : List Bytes → LogPath
  no_path : LogErr → LogPath

unix_path : Bytes → Home → LogPath
unix_path [] (no_home e) = no_path (no_home_dir e)
unix_path [] (home_at dir) =
    path_of (dir ∷ codes ".local" ∷ codes "state" ∷ codes "et-go" ∷ codes "et.log" ∷ [])
unix_path (b ∷ bs) h = path_of ((b ∷ bs) ∷ codes "et-go" ∷ codes "et.log" ∷ [])

windows_path : Bytes → LogPath
windows_path [] = no_path no_local_app_data
windows_path (b ∷ bs) = path_of ((b ∷ bs) ∷ codes "et-go" ∷ codes "et.log" ∷ [])

-- `defaultLogPath`.
unfoldable pub default_log_path : Environment → LogPath
unfolding unix_path windows_path
default_log_path e =
    if e.on_windows then windows_path e.local_app_data else unix_path e.xdg_state_home e.home

-- What `newLogger` does: directories made and the file opened, with their permissions.
pub data LogEffect : Type 0 where
  made_dirs : List Bytes → ℕ → LogEffect
  opened_append : List Bytes → ℕ → LogEffect

pub data Level : Type 0 where
  debug info : Level

-- A logger that discards, one on a file, or an error.
pub data Logger : Type 0 where
  discards : Logger
  logs_to : List Bytes → Level → Logger
  no_logger : LogErr → Logger

abbrev pub dir_of : List Bytes → List Bytes
dir_of [] = []
dir_of (p ∷ []) = []
dir_of (p ∷ q ∷ ps) = p ∷ dir_of (q ∷ ps)

abbrev level_of : Bool → Level
level_of true = debug
level_of false = info

open_log : Bool → Option ℕ → List Bytes → Logger × List LogEffect
open_log verbose (some e) path = (no_logger (open_failed e), [])
open_log verbose none path = (logs_to path (level_of verbose), opened_append path 384 ∷ [])

log_at : Bool → Option ℕ → Option ℕ → LogPath → Logger × List LogEffect
log_at verbose mkdir open_file (no_path e) = (no_logger e, [])
log_at verbose (some e) open_file (path_of path) = (no_logger (mkdir_failed e), [])
log_at verbose none open_file (path_of path) =
    let r = open_log verbose open_file path in (r.0, made_dirs (dir_of path) 448 ∷ r.1)

-- `newLogger`, with the path of --log-file where that is not empty.
unfoldable pub new_logger :
    Environment → Bool → Option (List Bytes) → Option ℕ → Option ℕ → Logger × List LogEffect
unfolding open_log log_at
new_logger env verbose (some path) mkdir open_file = log_at verbose mkdir open_file (path_of path)
new_logger env true none mkdir open_file = log_at true mkdir open_file (default_log_path env)
new_logger env false none mkdir open_file = (discards, [])
