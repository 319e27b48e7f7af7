-- ===== src/Rawbu/Written.antt =====
-- What backup_data of rawbu/backup.cpp writes: the encoding of the entries that it saves.
use cmds.Common.{
  ℕ, ◌-◌, ◌≤◌, ◌≡◌, refl, sym, ap, subst, ◌∙◌, Bool, true, false, ◌&&◌, ◌||◌, List, [], ◌∷◌, ◌++◌,
  Bytes, codes, bytes_eq, leb, if◌then◌else◌, length, take, length-append, length-take,
  append_assoc, append-nil, Bool-cases, inl, inr, arith,
}
use cmds.Rawbu.{
  Stat, Node, missing, other, file, dir, Forest, nil, cons, Config, Writer, fwrite, ◌then◌, word,
  long_word, write_int32, write_int64, write_copy, type_end, type_dir, type_file, nanos,
  write_header, is_passed_over, write_file, backup_node, backup_dir, backup_data, child,
  file_version_2, flag,
}
use cmds.Rawbu.Copy.{copy_file-whole}

-- An entry of a backup.
pub data Saved : Type 0 where
  saved_dir : Bytes → Stat → Saved
  saved_file : Bytes → Stat → Bytes → Saved

abbrev pub stat_bytes : Stat → Bytes
stat_bytes st =
    word st.uid
    ++ (word st.gid
        ++ (word st.mode
            ++ (long_word (nanos st.atime)
                ++ (long_word (nanos st.mtime) ++ long_word (nanos st.ctime)))))

abbrev pub header : ℕ → Bytes → Stat → Bytes
header type path st = word type ++ (word (length path) ++ (path ++ stat_bytes st))

unfoldable pub encode_entry : Saved → Bytes
encode_entry (saved_dir path st) = header type_dir path st
encode_entry (saved_file path st content) =
    header type_file path st ++ (long_word (length content) ++ content)

unfoldable pub encode : List Saved → Bytes
encode [] = []
encode (e ∷ es) = encode_entry e ++ encode es

module _ (config : Config) where
  unfoldable mutual
    -- What is saved of an entry that is not passed over.
    pub saved_node : Bytes → Node → List Saved
    saved_node path missing = []
    saved_node path (other st) = []
    saved_node path (file st opens size content) =
        if bytes_eq path config.backup_file then [] else saved_file path st (take size content) ∷ []
    saved_node path (dir st opens nodes) = saved_dir path st ∷ saved path nodes

    pub saved : Bytes → Forest → List Saved
    saved path nil = []
    saved path (cons name n nodes) =
        (if is_passed_over config path name then [] else saved_node (child path name) n)
        ++ saved path nodes

  unfoldable mutual
    -- Whether all that is saved can be read.
    pub is_readable_node : Bytes → Node → Bool
    is_readable_node path missing = false
    is_readable_node path (other st) = true
    is_readable_node path (file st opens size content) =
        bytes_eq path config.backup_file || (opens && leb size (length content))
    is_readable_node path (dir st opens nodes) = opens && is_readable path nodes

    pub is_readable : Bytes → Forest → Bool
    is_readable path nil = true
    is_readable path (cons name n nodes) =
        (is_passed_over config path name || is_readable_node (child path name) n)
        && is_readable path nodes

abbrev pub advance : Bytes → Writer → Writer
advance bytes w = record { room = w.room - length bytes; written = w.written ++ bytes }

-- A step that succeeds where there is room, and writes these bytes.
abbrev pub Writes : (Writer → Writer × Bool) → Bytes → Type 0
Writes step bytes = (w : Writer) → length bytes ≤ w.room → step w ≡ (advance bytes w, true)

fwrite-Writes : (bytes : Bytes) → Writes (fwrite bytes) bytes
unfolding fwrite
fwrite-Writes bytes w h = ground (arith, h)

advance-advance : (a b : Bytes) (w : Writer) → advance b (advance a w) ≡ advance (a ++ b) w
advance-advance a b w =
    let e : w.room - length a - length b ≡ w.room - length (a ++ b) =
      omega (arith, length-append a b) in
    ap (λ (n : ℕ). let v : Writer = record { room = n; written = (w.written ++ a) ++ b } in v) e
    ∙ ap
        (λ (t : Bytes).
          let v : Writer = record { room = w.room - length (a ++ b); written = t } in v)
        (append_assoc w.written a b)

advance-nil : (w : Writer) → advance [] w ≡ w
advance-nil w =
    let e : w.room - 0 ≡ w.room = omega arith in
    ap (λ (n : ℕ). let v : Writer = record { room = n; written = w.written ++ [] } in v) e
    ∙ ap (λ (t : Bytes). let v : Writer = record { room = w.room; written = t } in v)
        (append-nil w.written)

then-Writes :
    (f g : Writer → Writer × Bool) (a b : Bytes)
    → Writes f a
    → Writes g b
    → Writes (λ w. f w then g) (a ++ b)
then-Writes f g a b hf hg w h =
    let one : f w ≡ (advance a w, true) = hf w (omega (arith, length-append a b)) in
    let two : g (advance a w) ≡ (advance b (advance a w), true) =
      hg (advance a w) (omega (arith, length-append a b)) in
    ap (λ r. r then g) one ∙ two ∙ ap (λ v. (v, true)) (advance-advance a b w)

done-Writes : Writes (λ w. (w, true)) []
done-Writes w h = ap (λ v. (v, true)) (sym (advance-nil w))

same-Writes : (f : Writer → Writer × Bool) {a b : Bytes} → a ≡ b → Writes f a → Writes f b
same-Writes f e h = subst (Writes f) e h

write_int32-Writes : (n : ℕ) → Writes (write_int32 n) (word n)
unfolding write_int32
write_int32-Writes n = fwrite-Writes (word n)

write_int64-Writes : (n : ℕ) → Writes (write_int64 n) (long_word n)
unfolding write_int64
write_int64-Writes n = fwrite-Writes (long_word n)

write_header-Writes :
    (type : ℕ) (path : Bytes) (st : Stat) → Writes (write_header type path st) (header type path st)
unfolding write_header
write_header-Writes type path st =
    let one = then-Writes _ _ _ _ (write_int32-Writes type) (write_int32-Writes (length path)) in
    let two = then-Writes _ _ _ _ one (fwrite-Writes path) in
    let three = then-Writes _ _ _ _ two (write_int32-Writes st.uid) in
    let four = then-Writes _ _ _ _ three (write_int32-Writes st.gid) in
    let five = then-Writes _ _ _ _ four (write_int32-Writes st.mode) in
    let six = then-Writes _ _ _ _ five (write_int64-Writes (nanos st.atime)) in
    let seven = then-Writes _ _ _ _ six (write_int64-Writes (nanos st.mtime)) in
    let eight = then-Writes _ _ _ _ seven (write_int64-Writes (nanos st.ctime)) in
    same-Writes (write_header type path st) (simp append_assoc) eight

write_copy-Writes :
    (size : ℕ) (src : Bytes)
    → leb size (length src) ≡ true
    → Writes (write_copy size src) (take size src)
unfolding write_copy
write_copy-Writes size src h w k =
    rw (copy_file-whole size src, h)
      (ap (λ r. r then (λ v. (v, true))) (fwrite-Writes (take size src) w k))

take-size : (size : ℕ) (src : Bytes) → leb size (length src) ≡ true → length (take size src) ≡ size
take-size size src h = ground (arith, h, length-take size src)

-- The whole backup file.
unfoldable pub stream : Config → Forest → Bytes
stream config nodes =
    word file_version_2
    ++ (word (flag config.backup_all)
        ++ (encode (saved config (codes "/data") nodes) ++ word type_end))

module _ (config : Config) where
  write_file-Writes :
      (path : Bytes) (st : Stat) (size : ℕ) (src : Bytes)
      → leb size (length src) ≡ true
      → Writes
          (write_file config path st true size src)
          (encode_entry (saved_file path st (take size src)))
  unfolding write_file encode_entry
  write_file-Writes path st size src h =
      let one =
        then-Writes _ _ _ _ (write_header-Writes type_file path st) (write_int64-Writes size) in
      let two = then-Writes _ _ _ _ one (write_copy-Writes size src h) in
      same-Writes _
        (append_assoc (header type_file path st) (long_word size) (take size src)
          ∙ ap (λ (n : ℕ). header type_file path st ++ (long_word n ++ take size src))
              (sym (take-size size src h)))
        two

  encode-append : (xs ys : List Saved) → encode (xs ++ ys) ≡ encode xs ++ encode ys
  unfolding encode
  encode-append [] ys = refl
  encode-append (x ∷ xs) ys =
      ap (◌++◌ (encode_entry x)) (encode-append xs ys)
      ∙ sym (append_assoc (encode_entry x) (encode xs) (encode ys))

  both : (a b : Bool) → (a && b) ≡ true → (a ≡ true) × (b ≡ true)
  both true b h = (refl, h)
  both false b h = cc

  mutual
    unfolding backup_node backup_dir saved_node saved is_readable_node is_readable encode
        encode_entry

    backup_node-Writes :
        (path : Bytes) (n : Node)
        → is_readable_node config path n ≡ true
        → Writes (backup_node config path n) (encode (saved_node config path n))
    backup_node-Writes path missing h = cc
    backup_node-Writes path (other st) h = done-Writes
    backup_node-Writes path (file st opens size content) h =
        elim (Bool-cases (bytes_eq path config.backup_file)) [
          | inl e ↦ rw e done-Writes
          | inr e ↦
              let (can, enough) = both opens (leb size (length content)) (ground (arith, h, e)) in
              rw (e, can)
                (same-Writes _
                  (sym (append-nil (encode_entry (saved_file path st (take size content)))))
                  (write_file-Writes path st size content enough))
        ]
    backup_node-Writes path (dir st false nodes) h = cc
    backup_node-Writes path (dir st true nodes) h =
        then-Writes _ _ _ _ (write_header-Writes type_dir path st) (backup_dir-Writes path nodes h)

    backup_dir-Writes :
        (path : Bytes) (nodes : Forest)
        → is_readable config path nodes ≡ true
        → Writes (backup_dir config path nodes) (encode (saved config path nodes))
    backup_dir-Writes path nil h = done-Writes
    backup_dir-Writes path (cons name n nodes) h =
        elim (Bool-cases (is_passed_over config path name)) [
          | inl e ↦ rw e (backup_dir-Writes path nodes (ground (arith, h, e)))
          | inr e ↦
              let (one, all) = both _ _ (ground (arith, h, e)) in
              rw e (
                same-Writes _
                  (sym (
                    encode-append (saved_node config (child path name) n)
                      (saved config path nodes)))
                  (then-Writes _ _ _ _ (backup_node-Writes (child path name) n one)
                    (backup_dir-Writes path nodes all)))
        ]

  -- Where the destination has room, all that is saved can be read, and the destination can be synced,
  -- backup_data returns 0, and the file holds the version, the option -a, the encoded entries and the end.
  pub backup_data-saved :
      (nodes : Forest) (w : Writer)
      → is_readable config (codes "/data") nodes ≡ true
      → length (stream config nodes) ≤ w.room
      → backup_data config true nodes true w ≡ (advance (stream config nodes) w, true)
  unfolding backup_data stream
  backup_data-saved nodes w h k =
      let one =
        then-Writes _ _ _ _ (write_int32-Writes file_version_2)
          (write_int32-Writes (flag config.backup_all)) in
      let two = then-Writes _ _ _ _ one (backup_dir-Writes (codes "/data") nodes h) in
      let three = then-Writes _ _ _ _ two (write_int32-Writes type_end) in
      let whole = same-Writes _ (simp append_assoc) three in
      ap (λ (r : Writer × Bool). (r.0, r.1 && true)) (whole w k)
