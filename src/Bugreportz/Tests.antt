-- ===== src/Bugreportz/Tests.antt =====
-- Runs of bugreportz/bugreportz.cpp on small inputs, and the theorems at them.
use cmds.Common.{ℕ, ◌≡◌, refl, false, List, [], ◌∷◌, Bytes, codes, starts_with}
use cmds.Bugreportz.{
  bytes, failed, success, failure, fail_line, write_line, append_char, append_buffer, read_loop,
  bugreportz,
}
use cmds.Bugreportz.Lines.{concat, lines}
use cmds.Bugreportz.Copy.{shown_lines}
use cmds.Bugreportz.Run.{reads, text, bugreportz-writes_lines}

abbrev timed_out : ℕ → Bytes
timed_out errno = codes "Connection timed out"

-- "BEGIN:x", cut after its second letter, a result line, and an open line.
abbrev chunks : List (ℕ × Bytes)
chunks = (b'B', codes "E") ∷ (b'G', codes "IN:x\nOK") ∷ (b':', codes "/f\nre") ∷ []

hides_begin :
    bugreportz timed_out false (reads chunks (bytes [] ∷ []))
    ≡ record { exit = success; output = codes "OK:/f\nre" }
unfolding bugreportz read_loop append_buffer append_char write_line starts_with fail_line
hides_begin = refl

reports_time_out : bugreportz timed_out false (reads chunks (failed 11 ∷ [])) ≡ record {
  exit = failure;
  output = codes "OK:/f\nFAIL:Bugreport read terminated abnormally (Connection timed out)\n";
}
unfolding bugreportz read_loop append_buffer append_char write_line starts_with fail_line
reports_time_out = refl

bugreportz-writes_lines_example :
    bugreportz timed_out false (reads chunks (bytes [] ∷ []))
    ≡ record { exit = success; output = concat (shown_lines false (lines (text chunks))) }
bugreportz-writes_lines_example = bugreportz-writes_lines timed_out false chunks []
