-- ===== src/Rawbu/Restore.antt =====
-- The restoring of rawbu/backup.cpp, from the bytes of the backup file to the calls of the kernel. What
-- the kernel answers to a call, given the calls before it, is an argument: `none`, or an error. What
-- stdio writes into a file in pieces is one call.
use cmds.Common.{
  ℕ, zero, suc, ◌+◌, ◌*◌, ◌/◌, Bool, true, false, not, ◌&&◌, ◌||◌, List, [], ◌∷◌, ◌++◌, Bytes,
  codes, Option, none, some, ◌==◌, ltb, leb, if◌then◌else◌, length, take, drop, bit_and,
}
use cmds.Rawbu.{
  Stat, Forest, Config, type_end, type_dir, type_file, file_version_1, file_version_2, copy_file,
}
use cmds.Rawbu.Wipe.{Call, mkdir, create, write, chmod, chown, utime, wipe}

-- A number from its bytes, low byte first.
unfoldable pub number : Bytes → ℕ
number [] = 0
number (b ∷ bs) = b + 256 * number bs

-- fread of `n` bytes: the value, or the default where there are fewer, which are gone.
unfoldable pub read_number : ℕ → ℕ → Bytes → ℕ × Bytes
read_number n default fh =
    if leb n (length fh) then (number (take n fh), drop n fh) else (default, [])

unfoldable pub read_int32 : ℕ → Bytes → ℕ × Bytes
read_int32 default fh = read_number 4 default fh

unfoldable pub read_int64 : ℕ → Bytes → ℕ × Bytes
read_int64 default fh = read_number 8 default fh

-- The int -1.
abbrev pub minus_one : ℕ
minus_one = 4294967295

abbrev pub minus_one64 : ℕ
minus_one64 = 18446744073709551615

abbrev pub is_negative : ℕ → Bool
is_negative n = leb 2147483648 n

abbrev pub is_negative64 : ℕ → Bool
is_negative64 n = leb 9223372036854775808 n

-- A malloc'ed text as a C string.
unfoldable pub c_string : Bytes → Bytes
c_string [] = []
c_string (c ∷ s) = let rest = c_string s in if c == 0 then [] else c ∷ rest

pub data Header : Type 0 where
  bad : Header
  end : Header
  entry : ℕ → Bytes → Stat → Bytes → Header

abbrev pub seconds : ℕ → ℕ
seconds ltime = ltime / 1000 / 1000 / 1000

-- S_IRWXU|S_IRWXG|S_IRWXO
abbrev pub permissions : ℕ
permissions = 511

unfoldable pub read_times : ℕ → Bytes → Stat → Bytes → Header
read_times type path st fh =
    let (atime, fh1) = read_int64 minus_one64 fh in
    let (mtime, fh2) = read_int64 minus_one64 fh1 in
    let (ctime, fh3) = read_int64 minus_one64 fh2 in
    if is_negative64 atime || is_negative64 mtime || is_negative64 ctime
    then bad
    else entry type path
        (record st {
          mode = bit_and st.mode permissions;
          atime = seconds atime;
          mtime = seconds mtime;
          ctime = seconds ctime;
        })
        fh3

unfoldable pub read_stat : ℕ → Bytes → Bytes → Header
read_stat type path fh =
    let (uid, fh1) = read_int32 minus_one fh in
    let (gid, fh2) = read_int32 minus_one fh1 in
    let (mode, fh3) = read_int32 minus_one fh2 in
    if uid == minus_one || gid == minus_one || mode == minus_one
    then bad
    else read_times type path
        (record { uid = uid; gid = gid; mode = mode; atime = 0; mtime = 0; ctime = 0 }) fh3

unfoldable pub read_path : ℕ → ℕ → Bytes → Header
read_path type len fh =
    if len == 0 || is_negative len || ltb (length fh) len
    then bad
    else read_stat type (c_string (take len fh)) (drop len fh)

unfoldable pub read_header : Bytes → Header
read_header fh =
    let (type, fh1) = read_int32 minus_one fh in
    let (len, fh2) = read_int32 minus_one fh1 in
    if type == type_end then end else if is_negative type then bad else read_path type len fh2

-- The calls so far, and whether the restoring goes on.
abbrev pub Trace : Type 0
Trace = List Call × Bool

abbrev pub eexist : ℕ
eexist = 17

abbrev pub is_ok : Option ℕ → Bool
is_ok none = true
is_ok (some e) = false

abbrev pub is_ok_or_exists : Option ℕ → Bool
is_ok_or_exists none = true
is_ok_or_exists (some e) = e == eexist

module _ (kernel : List Call → Call → Option ℕ) where
  unfoldable pub call : Call → Trace → Trace
  call c (calls, false) = (calls, false)
  call c (calls, true) = (calls ++ c ∷ [], is_ok (kernel calls c))

  unfoldable pub make_dir : Bytes → Stat → Trace → Trace
  make_dir path st (calls, false) = (calls, false)
  make_dir path st (calls, true) =
      (calls ++ mkdir path st.mode ∷ [], is_ok_or_exists (kernel calls (mkdir path st.mode)))

  unfoldable pub set_stat : Bytes → Stat → Trace → Trace
  set_stat path st t =
      call (utime path st.atime st.mtime)
        (call (chown path st.uid st.gid) (call (chmod path (bit_and st.mode permissions)) t))

  abbrev pub fail_unless : Bool → Trace → Trace
  fail_unless ok (calls, going) = (calls, going && ok)

  -- The answer to the write is what fwrite reports. The result of fclose is not looked at: bytes that
  -- only fclose would have failed to write count as written, as the code counts them. An empty file
  -- gives a write of nothing, for which the code calls nothing.
  unfoldable pub restore_file : Bytes → Stat → ℕ → Bytes → Trace → Trace × Bytes
  restore_file path st size fh t =
      if is_negative64 size
      then (fail_unless false t, fh)
      else let (content, rest, ok) = copy_file size fh in
        (set_stat path st (fail_unless ok (call (write path content) (call (create path) t))), rest)

  -- Restores one entry, and gives what is left of the backup.
  unfoldable pub restore_entry : ℕ → Bytes → Stat → Bytes → Trace → Trace × Bytes
  restore_entry type path st fh t =
      if type == type_dir
      then (set_stat path st (make_dir path st t), fh)
      else if type == type_file
      then (let (size, rest) = read_int64 minus_one64 fh in restore_file path st size rest t)
      else (fail_unless false t, fh)

  -- while (1): each round reads four bytes at least, so that the length of the backup is fuel enough.
  -- `none` when the fuel runs out.
  unfoldable pub restore_loop : ℕ → Bytes → Trace → Option Trace
  restore_loop zero fh t = none
  restore_loop (suc fuel) fh (calls, false) = some (calls, false)
  restore_loop (suc fuel) fh (calls, true) = elim (read_header fh) [
    | bad ↦ some (calls, false)
    | end ↦ some (calls, true)
    | entry type path st rest ↦
        let (t, left) = restore_entry type path st rest (calls, true) in restore_loop fuel left t
  ]

  unfoldable pub restore_wiped : Bytes → List Call × Bool → Option Trace
  restore_wiped fh (calls, false) = some (calls, false)
  restore_wiped fh (calls, true) = restore_loop (suc (length fh)) fh (calls, true)

  -- `data` is what /data holds, where it opens. Whether restore_data returns 0, and its calls.
  unfoldable pub restore_data : Bytes → Bool → Forest → Bytes → Option Trace
  restore_data src_path opens data_nodes fh =
      let (version, fh1) = read_int32 0 fh in
      if ltb version file_version_1 || ltb file_version_2 version
      then some ([], false)
      else let (backup_all, fh2) =
          (if leb file_version_2 version then read_int32 0 fh1 else (0, fh1)) in
        let config : Config = record {
          backup_all = not (backup_all == 0);
          backup_file = src_path;
        } in
        restore_wiped fh2 (wipe config (codes "/data") opens data_nodes)
