-- ===== src/Bugreportz.antt =====
-- bugreportz/bugreportz.cpp: the loop that copies the socket of dumpstate to standard output, line
-- by line. A run is given what each read(2) returns, and gives what was written and how it ended.
pub mod Lines
pub mod Copy
pub mod Shown
pub mod Run
pub mod Tests
use cmds.Common.{
  ℕ, Bool, true, not, ◌&&◌, ◌||◌, List, [], ◌∷◌, ◌++◌, Bytes, codes, starts_with, ◌==◌,
  if◌then◌else◌,
}

abbrev pub begin_prefix : Bytes
begin_prefix = codes "BEGIN:"

abbrev pub progress_prefix : Bytes
progress_prefix = codes "PROGRESS:"

abbrev pub newline : ℕ
newline = b'\n'

-- What write_line writes to STDOUT_FILENO for one line.
unfoldable pub write_line : Bytes → Bool → Bytes
write_line [] show_progress = []
write_line (c ∷ line) show_progress =
    if not show_progress
      && (starts_with (c ∷ line) progress_prefix || starts_with (c ∷ line) begin_prefix)
    then []
    else c ∷ line

-- The variable `line` of the loop, and all that was written so far.
pub record Copier : Type 0 where
  pub line : Bytes
  pub written : Bytes

-- One character of the buffer.
unfoldable pub append_char : Bool → Copier → ℕ → Copier
append_char show_progress s c =
    let line = s.line ++ c ∷ [] in
    if c == newline
    then record { line = []; written = s.written ++ write_line line show_progress }
    else record s { line = line }

-- for (int i = 0; i < bytes_read; i++)
unfoldable pub append_buffer : Bool → Copier → Bytes → Copier
append_buffer show_progress s [] = s
append_buffer show_progress s (c ∷ buffer) =
    append_buffer show_progress (append_char show_progress s c) buffer

-- The result of one read(2), EINTR retried: bytes, none of them at the end of the stream, or errno.
pub data ReadResult : Type 0 where
  bytes : Bytes → ReadResult
  failed : ℕ → ReadResult

-- `blocked` is a process that waits in read(2).
pub data Exit : Type 0 where
  success failure blocked : Exit

pub record Outcome : Type 0 where
  pub exit : Exit
  pub output : Bytes

abbrev pub eagain : ℕ
eagain = 11

abbrev pub etimedout : ℕ
etimedout = 110

-- The line that is printed for a failed read, from the text of strerror(errno).
unfoldable pub fail_line : (ℕ → Bytes) → ℕ → Bytes
fail_line strerror errno =
    codes "FAIL:Bugreport read terminated abnormally ("
    ++ (strerror (if errno == eagain then etimedout else errno) ++ codes ")\n")

-- while (1), after which the last line is written.
unfoldable pub read_loop : (ℕ → Bytes) → Bool → Copier → List ReadResult → Outcome
read_loop strerror show_progress s [] = record { exit = blocked; output = s.written }
read_loop strerror show_progress s (bytes [] ∷ rest) = record {
  exit = success;
  output = s.written ++ write_line s.line show_progress;
}
read_loop strerror show_progress s (bytes (c ∷ buffer) ∷ rest) =
    read_loop strerror show_progress (append_buffer show_progress s (c ∷ buffer)) rest
read_loop strerror show_progress s (failed errno ∷ rest) = record {
  exit = failure;
  output = s.written ++ fail_line strerror errno;
}

unfoldable pub bugreportz : (ℕ → Bytes) → Bool → List ReadResult → Outcome
bugreportz strerror show_progress reads =
    read_loop strerror show_progress (record { line = []; written = [] }) reads
