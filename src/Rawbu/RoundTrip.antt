-- ===== src/Rawbu/RoundTrip.antt =====
-- What restore_data of rawbu/backup.cpp does with what backup_data wrote.
use cmds.Common.{
  take-append, drop-append, ℕ, zero, suc, ◌≤◌, ◌<◌, ◌^◌, ◌≡◌, refl, sym, ap, ◌∙◌, Bool, true, false,
  not, List, [], ◌∷◌, ◌++◌, Bytes, codes, Option, some, leb, ◌==◌, length, length-append,
  append_assoc, append-nil, arith, All, bit_and,
}
use cmds.Rawbu.{
  backup_data, Writer, Stat, Forest, Config, word, long_word, type_dir, type_file, type_end,
  file_version_2, flag, copy_file,
}
use cmds.Rawbu.Copy.{copy_file-whole}
use cmds.Rawbu.Wipe.{Call, unlink, rmdir, mkdir, create, write, chmod, chown, utime, wipe}
use cmds.Rawbu.Restore.{
  call, is_ok, is_ok_or_exists, make_dir, set_stat, restore_file, restore_entry, restore_loop,
  restore_wiped, restore_data, read_int32, read_number, number, permissions, minus_one64, entry,
  end, read_header, is_negative64,
}
use cmds.Rawbu.Written.{
  backup_data-saved, is_readable, Saved, saved_dir, saved_file, header, encode_entry, encode,
  stream, saved,
}
use cmds.Rawbu.ReadBack.{
  IsPlain, IsPath, restored, read_header-header, read_int32-word, read_int64-long_word,
}

-- A saved entry that a backup file can hold.
unfoldable pub IsSound : Saved → Type 0
IsSound (saved_dir path st) = IsPath path × IsPlain st
IsSound (saved_file path st content) = IsPath path × IsPlain st × (length content < 2 ^ 63)

abbrev pub stat_calls : Bytes → Stat → List Call
stat_calls path st =
    chmod path (bit_and (bit_and st.mode permissions) permissions)
    ∷ chown path st.uid st.gid
    ∷ utime path st.atime st.mtime
    ∷ []

-- The calls that make a saved entry again.
unfoldable pub remake : Saved → List Call
remake (saved_dir path st) = mkdir path (bit_and st.mode permissions) ∷ stat_calls path st
remake (saved_file path st content) = create path ∷ write path content ∷ stat_calls path st

unfoldable pub remake_all : List Saved → List Call
remake_all [] = []
remake_all (e ∷ es) = remake e ++ remake_all es

-- Every entry takes a byte at least.
entry_not_empty : (e : Saved) → 0 < length (encode_entry e)
unfolding encode_entry word
entry_not_empty (saved_dir path st) = omega arith
entry_not_empty (saved_file path st content) = omega arith

encode-long : (es : List Saved) → length es ≤ length (encode es)
unfolding encode
encode-long [] = omega arith
encode-long (e ∷ es) =
    omega (arith, length-append (encode_entry e) (encode es), entry_not_empty e, encode-long es)

restored_flag : (b : Bool) → not (flag b == 0) ≡ b
restored_flag true = refl
restored_flag false = refl

flag_small : (b : Bool) → flag b < 2 ^ 32
flag_small true = omega arith
flag_small false = omega arith

-- What the restoring takes for success: no error, or for mkdir that the directory exists.
abbrev pub accepts : Call → Option ℕ → Bool
accepts (mkdir path mode) answer = is_ok_or_exists answer
accepts (unlink path) answer = is_ok answer
accepts (rmdir path) answer = is_ok answer
accepts (create path) answer = is_ok answer
accepts (write path content) answer = is_ok answer
accepts (chmod path mode) answer = is_ok answer
accepts (chown path uid gid) answer = is_ok answer
accepts (utime path atime mtime) answer = is_ok answer

module _ (kernel : List Call → Call → Option ℕ)
    (quiet : (calls : List Call) (c : Call) → accepts c (kernel calls c) ≡ true) where
  call-ok :
      (c : Call) (calls : List Call)
      → is_ok (kernel calls c) ≡ true
      → call kernel c (calls, true) ≡ (calls ++ c ∷ [], true)
  unfolding call
  call-ok c calls h = rw h refl

  set_stat-quiet :
      (path : Bytes) (st : Stat) (calls : List Call)
      → set_stat kernel path (restored st) (calls, true) ≡ (calls ++ stat_calls path st, true)
  unfolding set_stat
  set_stat-quiet path st calls =
      let one = chmod path (bit_and (bit_and st.mode permissions) permissions) in
      let two = chown path st.uid st.gid in
      let three = utime path st.atime st.mtime in
      let calls1 = calls ++ one ∷ [] in
      let calls2 = calls1 ++ two ∷ [] in
      rw
        (
          call-ok one calls (quiet calls one),
          call-ok two calls1 (quiet calls1 two),
          call-ok three calls2 (quiet calls2 three),
        )
        (simp append_assoc)

  make_dir-quiet :
      (path : Bytes) (st : Stat) (calls : List Call)
      → make_dir kernel path st (calls, true) ≡ (calls ++ mkdir path st.mode ∷ [], true)
  unfolding make_dir
  make_dir-quiet path st calls = rw (quiet calls (mkdir path st.mode)) refl

  restore_dir :
      (path rest : Bytes) (st : Stat) (calls : List Call)
      → restore_entry kernel type_dir path (restored st) rest (calls, true)
        ≡ ((calls ++ remake (saved_dir path st), true), rest)
  unfolding restore_entry remake
  restore_dir path rest st calls =
      ap (λ t. (t, rest))
        (ap (set_stat kernel path (restored st)) (make_dir-quiet path (restored st) calls)
          ∙ set_stat-quiet path st (calls ++ mkdir path (bit_and st.mode permissions) ∷ [])
          ∙ ap (λ c. (c, true))
              (append_assoc calls (mkdir path (bit_and st.mode permissions) ∷ [])
                (stat_calls path st)))

  copied :
      (content rest : Bytes) → copy_file (length content) (content ++ rest) ≡ (content, rest, true)
  copied content rest =
      let enough : leb (length content) (length (content ++ rest)) ≡ true =
        ground (arith, length-append content rest) in
      copy_file-whole (length content) (content ++ rest)
      ∙ rw (enough, take-append content rest, drop-append content rest) refl

  restore_file-back :
      (path content rest : Bytes) (st : Stat) (calls : List Call)
      → length content < 2 ^ 63
      → restore_entry kernel type_file path
          (restored st)
          (long_word (length content) ++ (content ++ rest))
          (calls, true)
        ≡ ((calls ++ remake (saved_file path st content), true), rest)
  unfolding restore_entry restore_file remake
  restore_file-back path content rest st calls fits =
      let plain : is_negative64 (length content) ≡ false = ground (arith, fits) in
      rw
        (
          read_int64-long_word minus_one64 (length content) (content ++ rest) (omega (arith, fits)),
          plain,
          copied content rest,
          call-ok (create path) calls (quiet calls (create path)),
          call-ok (write path content) (calls ++ create path ∷ [])
              (quiet (calls ++ create path ∷ []) (write path content)),
          set_stat-quiet path st _,
        )
        (simp append_assoc)

  loop_entry :
      (fh path rest : Bytes) (type fuel : ℕ) (st : Stat) (calls : List Call)
      → read_header fh ≡ entry type path st rest
      → restore_loop kernel (suc fuel) fh (calls, true)
        ≡ restore_loop kernel fuel
            (restore_entry kernel type path st rest (calls, true)).1
            (restore_entry kernel type path st rest (calls, true)).0
  unfolding restore_loop
  loop_entry fh path rest type fuel st calls h = rw (h, restore_loop) refl

  loop_end :
      (fh : Bytes) (fuel : ℕ) (calls : List Call)
      → read_header fh ≡ end
      → restore_loop kernel (suc fuel) fh (calls, true) ≡ some (calls, true)
  unfolding restore_loop
  loop_end fh fuel calls h = rw (h, restore_loop) refl

  -- One round of the loop restores an entry.
  restore_round :
      (e : Saved) (rest : Bytes) (fuel : ℕ) (calls : List Call)
      → IsSound e
      → restore_loop kernel (suc fuel) (encode_entry e ++ rest) (calls, true)
        ≡ restore_loop kernel fuel rest (calls ++ remake e, true)
  unfolding encode_entry IsSound
  restore_round (saved_dir path st) rest fuel calls h =
      loop_entry (header type_dir path st ++ rest) path rest type_dir fuel (restored st) calls
        (read_header-header type_dir path rest st (omega arith) (omega arith) h.0 h.1)
      ∙ ap (λ r. restore_loop kernel fuel r.1 r.0) (restore_dir path rest st calls)
  restore_round (saved_file path st content) rest fuel calls h =
      let body = long_word (length content) ++ (content ++ rest) in
      ap (λ (fh : Bytes). restore_loop kernel (suc fuel) fh (calls, true))
        (append_assoc (header type_file path st) (long_word (length content) ++ content) rest
          ∙ ap (◌++◌ (header type_file path st))
              (append_assoc (long_word (length content)) content rest))
      ∙ loop_entry (header type_file path st ++ body) path body type_file fuel (restored st) calls
          (read_header-header type_file path body st (omega arith) (omega arith) h.0 h.1)
      ∙ ap (λ r. restore_loop kernel fuel r.1 r.0)
          (restore_file-back path content rest st calls h.2)

  read_end : read_header (word type_end) ≡ end
  unfolding read_header read_int32 read_number number word
  read_end = refl

  restore_entries :
      (es : List Saved) (fuel : ℕ) (calls : List Call)
      → All IsSound es
      → length es < fuel
      → restore_loop kernel fuel (encode es ++ word type_end) (calls, true)
        ≡ some (calls ++ remake_all es, true)
  unfolding encode remake_all
  restore_entries es zero calls h k = absurd (omega arith)
  restore_entries [] (suc fuel) calls h k =
      loop_end (word type_end) fuel calls read_end
      ∙ ap (λ c. some (c, true)) (sym (append-nil calls))
  restore_entries (e ∷ es) (suc fuel) calls h k =
      ap (λ (fh : Bytes). restore_loop kernel (suc fuel) fh (calls, true))
        (append_assoc (encode_entry e) (encode es) (word type_end))
      ∙ restore_round e (encode es ++ word type_end) fuel calls h.0
      ∙ restore_entries es fuel (calls ++ remake e) h.1 (omega (arith, k))
      ∙ ap (λ c. some (c, true)) (append_assoc calls (remake e) (remake_all es))

  restore_data-stream :
      (config : Config) (src_path : Bytes) (opens : Bool) (data_nodes nodes : Forest)
      (wipes : List Call)
      → All IsSound (saved config (codes "/data") nodes)
      → wipe
          (record { backup_all = config.backup_all; backup_file = src_path })
          (codes "/data")
          opens
          data_nodes
        ≡ (wipes, true)
      → restore_data kernel src_path opens data_nodes (stream config nodes)
        ≡ some (wipes ++ remake_all (saved config (codes "/data") nodes), true)
  unfolding restore_data restore_wiped stream
  restore_data-stream config src_path opens data_nodes nodes wipes h w =
      let es = saved config (codes "/data") nodes in
      let body = encode es ++ word type_end in
      let enough : length es < suc (length body) =
        omega (arith, length-append (encode es) (word type_end), encode-long es) in
      rw
        (
          read_int32-word 0 file_version_2 (word (flag config.backup_all) ++ body) (omega arith),
          read_int32-word 0 (flag config.backup_all) body (flag_small config.backup_all),
          restored_flag config.backup_all,
          w,
        )
        (restore_entries es (suc (length body)) wipes h enough)

  -- Where backup_data can read all of the entries of /data that it saves, the destination has room for
  -- them and can be synced, and the entries are such that a backup can hold them, backup_data returns 0;
  -- and from the file that it made restore_data, where its wiping of the /data that it finds succeeds and
  -- the kernel then accepts every call (an existing directory included), returns 0 too, and its calls
  -- are those of the wiping, under the option -a of the backup, and then those that make each saved
  -- entry again, in the order of the backup.
  pub restore_data-backup_data :
      (config : Config) (nodes : Forest) (room : ℕ) (src_path : Bytes) (opens : Bool)
      (data_nodes : Forest) (wipes : List Call)
      → is_readable config (codes "/data") nodes ≡ true
      → length (stream config nodes) ≤ room
      → All IsSound (saved config (codes "/data") nodes)
      → wipe
          (record { backup_all = config.backup_all; backup_file = src_path })
          (codes "/data")
          opens
          data_nodes
        ≡ (wipes, true)
      → let (w, ok) = backup_data config true nodes true (record { room = room; written = [] }) in
        (ok ≡ true)
        × (restore_data kernel src_path opens data_nodes w.written
            ≡ some (wipes ++ remake_all (saved config (codes "/data") nodes), true))
  restore_data-backup_data config nodes room src_path opens data_nodes wipes readable fits sound w =
      let empty : Writer = record { room = room; written = [] } in
      rw (backup_data-saved config nodes empty readable fits)
        (refl, restore_data-stream config src_path opens data_nodes nodes wipes sound w)
