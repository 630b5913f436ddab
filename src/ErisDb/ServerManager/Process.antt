-- ===== src/ErisDb/ServerManager/Process.antt =====
-- The process of a server in erisdb/erisdbss/server_manager.go, and what it says while it starts.
use eris_db.Base.{
  ◌≡◌, refl, Bool, true, false, ◌&&◌, ◌||◌, Bytes, Option, none, some, List, [], ◌∷◌, Result, ok,
  err, panic, Error, if◌then◌else◌, ◌==◌, All,
}

-- What the calls of a command return: of `StdoutPipe`, of `Start`, the lines of its output and
-- `scanner.Err()` after the last of them.
pub record Command : Type 0 where
  pub stdout_pipe : Result (Unit {0})
  pub start : Result (Unit {0})
  pub lines : List Bytes
  pub scan_error : Option Error

begins : Bytes → Bytes → Bool
begins [] text = true
begins (c ∷ token) [] = false
begins (c ∷ token) (d ∷ text) = (c == d) && begins token text

-- `strings.Index(text, token) != -1`
unfoldable pub has_token : Bytes → Bytes → Bool
unfolding begins
has_token token [] = begins token []
has_token token (c ∷ text) = begins token (c ∷ text) || has_token token text

-- What is sent after the loop over the lines, which a line with the token ends.
scan : Bytes → List Bytes → Option Error → Result (Unit {0})
scan token [] none = ok tt
scan token [] (some e) = err (Error.in_output e)
scan token (line ∷ lines) e =
    let rest = scan token lines e in if has_token token line then ok tt else rest

started : Bytes → Command → Result (Unit {0}) → List (Result (Unit {0}))
started token cmd (ok u) = scan token cmd.lines cmd.scan_error ∷ []
started token cmd (err e) = err e ∷ []
started token cmd panic = panic ∷ []

-- Without a pipe there is nothing to scan: a command that starts all the same makes it panic.
unpiped : Error → Result (Unit {0}) → List (Result (Unit {0}))
unpiped e (err e2) = err e ∷ err e2 ∷ []
unpiped e _ = err e ∷ panic ∷ []

piped : Bytes → Command → Result (Unit {0}) → List (Result (Unit {0}))
piped token cmd (ok u) = started token cmd cmd.start
piped token cmd (err e) = unpiped e cmd.start
piped token cmd panic = panic ∷ []

-- What `Start` sends on its channel, in order; only the first is received.
pub start_process : Bytes → Command → List (Result (Unit {0}))
start_process token cmd = piped token cmd cmd.stdout_pipe

scan_silent :
    (token : Bytes) (lines : List Bytes)
    → All (λ line. has_token token line ≡ false) lines
    → scan token lines none ≡ ok tt
unfolding scan
scan_silent token [] h = refl
scan_silent token (line ∷ lines) h = rw h.0 (scan_silent token lines h.1)

-- A process whose output ends without the token counts as ready.
pub start_process-silent :
    (token : Bytes) (lines : List Bytes)
    → All (λ line. has_token token line ≡ false) lines
    → start_process token
        (record { stdout_pipe = ok tt; start = ok tt; lines = lines; scan_error = none })
      ≡ ok tt ∷ []
unfolding start_process piped started
start_process-silent token lines h = rw (scan_silent token lines h) refl
