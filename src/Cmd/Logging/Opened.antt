-- ===== src/Cmd/Logging/Opened.antt =====
-- Where the log goes.
use et_go.Prelude.{
  ℕ, ◌≡◌, ◌≢◌, ◌⊎◌, inl, inr, refl, List, [], ◌∷◌, Bool, true, false, Option, none, some, Bytes,
}
use et_go.Cmd.Logging.{
  Environment, LogPath, path_of, no_path, LogEffect, made_dirs, opened_append, Logger, discards,
  logs_to, no_logger, dir_of, open_log, log_at, default_log_path, new_logger,
}

-- What a logger has done: nothing where it discards; for a file, its directory made for the user alone
-- and then the file opened for the user alone; at an error at most the directory made.
abbrev pub DidFor : Logger → List LogEffect → Type 0
DidFor discards effects = effects ≡ []
DidFor (logs_to path level) effects =
    effects ≡ made_dirs (dir_of path) 448 ∷ opened_append path 384 ∷ []
DidFor (no_logger e) effects =
    (effects ≡ []) ⊎ ((path : List Bytes) × (effects ≡ made_dirs (dir_of path) 448 ∷ []))

log_at-DidFor :
    (verbose : Bool) (mkdir open_file : Option ℕ) (path : LogPath)
    → DidFor (log_at verbose mkdir open_file path).0 (log_at verbose mkdir open_file path).1
unfolding log_at open_log
log_at-DidFor verbose mkdir open_file (no_path e) = inl refl
log_at-DidFor verbose (some e) open_file (path_of path) = inl refl
log_at-DidFor verbose none (some e) (path_of path) = inr (path, refl)
log_at-DidFor verbose none none (path_of path) = refl

log_at-logs :
    (verbose : Bool) (mkdir open_file : Option ℕ) (path : LogPath)
    → (log_at verbose mkdir open_file path).0 ≢ discards
unfolding log_at open_log
log_at-logs verbose mkdir open_file (no_path e) = λ h. cc
log_at-logs verbose (some e) open_file (path_of path) = λ h. cc
log_at-logs verbose none (some e) (path_of path) = λ h. cc
log_at-logs verbose none none (path_of path) = λ h. cc

-- `newLogger` discards everything exactly without -v and --log-file. Else it gives a logger on a file, or
-- an error, and the file and its directory are for the user alone.
pub new_logger-DidFor :
    (env : Environment) (verbose : Bool) (path : Option (List Bytes)) (mkdir open_file : Option ℕ)
    → let r = new_logger env verbose path mkdir open_file in
      DidFor r.0 r.1
      × (((r.0 ≡ discards) × (verbose ≡ false) × (path ≡ none))
          ⊎ ((r.0 ≢ discards) × ((verbose ≡ true) ⊎ (path ≢ none))))
unfolding new_logger
new_logger-DidFor env verbose (some path) mkdir open_file = (
  log_at-DidFor verbose mkdir open_file (path_of path),
  inr (log_at-logs verbose mkdir open_file (path_of path), inr (λ h. cc)),
)
new_logger-DidFor env true none mkdir open_file = (
  log_at-DidFor true mkdir open_file (default_log_path env),
  inr (log_at-logs true mkdir open_file (default_log_path env), inl refl),
)
new_logger-DidFor env false none mkdir open_file = (refl, inl (refl, refl, refl))
