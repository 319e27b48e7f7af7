-- ===== src/Bugreportz/Run.antt =====
-- Whole runs of bugreportz/bugreportz.cpp, over any sequence of reads.
use cmds.Common.{
  ℕ, ◌≡◌, refl, ap, sym, ◌∙◌, Bool, true, List, [], ◌∷◌, ◌++◌, Bytes, append_assoc, append-nil,
}
use cmds.Bugreportz.{
  newline, write_line, Copier, append_buffer, ReadResult, bytes, failed, success, failure, Outcome,
  fail_line, read_loop, bugreportz,
}
use cmds.Bugreportz.Lines.{concat, lines, concat-lines, NoNewline}
use cmds.Bugreportz.Copy.{
  shown_lines, written_lines, final, append_buffer-lines, append_buffer-append, append_buffer-open,
  append_buffer-closed,
}
use cmds.Bugreportz.Shown.{written_lines-eq-concat, lines-written_lines, shown_lines-all}

-- Reads of at least one byte each, and the text that they hold together.
abbrev pub reads : List (ℕ × Bytes) → List ReadResult → List ReadResult
reads [] rest = rest
reads ((c, b) ∷ chunks) rest = bytes (c ∷ b) ∷ reads chunks rest

abbrev pub text : List (ℕ × Bytes) → Bytes
text [] = []
text ((c, b) ∷ chunks) = (c ∷ b) ++ text chunks

abbrev start : Copier
start = record { line = []; written = [] }

read_loop-reads :
    (f : ℕ → Bytes) (p : Bool) (s : Copier) (chunks : List (ℕ × Bytes)) (rest : List ReadResult)
    → read_loop f p s (reads chunks rest) ≡ read_loop f p (append_buffer p s (text chunks)) rest
unfolding read_loop append_buffer
read_loop-reads f p s [] rest = refl
read_loop-reads f p s ((c, b) ∷ chunks) rest =
    read_loop-reads f p (append_buffer p s (c ∷ b)) chunks rest
    ∙ ap (λ t. read_loop f p t rest) (sym (append_buffer-append p s (c ∷ b) (text chunks)))

-- However the stream is cut into reads, a run to its end writes the shown lines of the whole text,
-- in order and unchanged, and succeeds.
pub bugreportz-writes_lines :
    (strerror : ℕ → Bytes) (show_progress : Bool) (chunks : List (ℕ × Bytes))
    (rest : List ReadResult)
    → bugreportz strerror show_progress (reads chunks (bytes [] ∷ rest))
      ≡ record { exit = success; output = concat (shown_lines show_progress (lines (text chunks))) }
unfolding bugreportz read_loop
bugreportz-writes_lines f p chunks rest =
    read_loop-reads f p start chunks (bytes [] ∷ rest)
    ∙ ap (λ o. record { exit = success; output = o })
        (append_buffer-lines p [] [] (text chunks) tt
          ∙ written_lines-eq-concat p (lines (text chunks)))

-- With -p the whole text is copied, byte for byte, whatever the cuts.
bugreportz-copies :
    (strerror : ℕ → Bytes) (chunks : List (ℕ × Bytes)) (rest : List ReadResult)
    → bugreportz strerror true (reads chunks (bytes [] ∷ rest))
      ≡ record { exit = success; output = text chunks }
bugreportz-copies f chunks rest =
    bugreportz-writes_lines f true chunks rest
    ∙ ap (λ o. record { exit = success; output = o })
        (ap concat (shown_lines-all (lines (text chunks))) ∙ concat-lines (text chunks))

-- A reader that splits the output at its newlines gets the shown lines of the input: no line is
-- broken, joined, added or moved.
lines-bugreportz :
    (strerror : ℕ → Bytes) (show_progress : Bool) (chunks : List (ℕ × Bytes))
    (rest : List ReadResult)
    → lines (bugreportz strerror show_progress (reads chunks (bytes [] ∷ rest))).output
      ≡ shown_lines show_progress (lines (text chunks))
lines-bugreportz f p chunks rest =
    ap (λ (o : Outcome). lines o.output) (bugreportz-writes_lines f p chunks rest)
    ∙ ap lines (sym (written_lines-eq-concat p (lines (text chunks))))
    ∙ lines-written_lines p (text chunks)

final_closed : (p : Bool) (s : Copier) → s.line ≡ [] → final p s ≡ s.written
unfolding write_line
final_closed p s e = ap (λ l. s.written ++ write_line l p) e ∙ append-nil s.written

append_buffer-pending :
    (p : Bool) (done part : Bytes)
    → NoNewline part
    → append_buffer p start (done ++ newline ∷ part)
      ≡ record { line = part; written = written_lines p (lines (done ++ newline ∷ [])) }
append_buffer-pending p done part h =
    let complete = append_buffer p start (done ++ newline ∷ []) in
    let closed = append_buffer-closed p start done in
    let out =
      sym (final_closed p complete closed)
      ∙ append_buffer-lines p [] [] (done ++ newline ∷ []) tt in
    rw
      (
        ← append_assoc done (newline ∷ []) part,
        append_buffer-append p start (done ++ newline ∷ []) part,
        append_buffer-open p complete part h,
      )
      (λ i. record { line = closed i ++ part; written = out i })

-- Where there was a newline before, after a failed read the complete lines are out, the open line is lost, and the report of the
-- error follows.
bugreportz-fails :
    (strerror : ℕ → Bytes) (show_progress : Bool) (chunks : List (ℕ × Bytes)) (errno : ℕ)
    (rest : List ReadResult) (done part : Bytes)
    → text chunks ≡ done ++ newline ∷ part
    → NoNewline part
    → bugreportz strerror show_progress (reads chunks (failed errno ∷ rest)) ≡ record {
      exit = failure;
      output =
          concat (shown_lines show_progress (lines (done ++ newline ∷ [])))
          ++ fail_line strerror errno;
    }
unfolding bugreportz
bugreportz-fails f p chunks errno rest done part e h =
    read_loop-reads f p start chunks (failed errno ∷ rest)
    ∙ rw (e, append_buffer-pending p done part h, written_lines-eq-concat)
        (unfold read_loop in refl)
