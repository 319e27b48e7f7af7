-- ===== src/Rawbu/ReadBack.antt =====
-- What the readers of rawbu/backup.cpp make of the entries of a backup.
use cmds.Common.{
  take-append, drop-append, ℕ, ◌^◌, ◌<◌, ◌≡◌, ◌≢◌, refl, false, [], ◌∷◌, ◌++◌, Bytes, ◌==◌, length,
  length-append, append_assoc, arith, All, bit_and,
}
use cmds.Rawbu.{type_end, Stat, word, long_word, nanos}
use cmds.Rawbu.Restore.{
  number, read_number, read_int32, read_int64, minus_one, minus_one64, c_string, entry, read_times,
  read_stat, read_path, read_header, permissions, is_negative, is_negative64, seconds,
}
use cmds.Rawbu.Written.{stat_bytes, header}

pub read_int32-word :
    (d n : ℕ) (tail : Bytes) → n < 2 ^ 32 → read_int32 d (word n ++ tail) ≡ (n, tail)
unfolding read_int32 read_number number word
read_int32-word d n tail h = ground arith

pub read_int64-long_word :
    (d n : ℕ) (tail : Bytes) → n < 2 ^ 64 → read_int64 d (long_word n ++ tail) ≡ (n, tail)
unfolding read_int64 read_number number long_word
read_int64-long_word d n tail h = ground arith

-- What a backup can hold of an entry: no id and no mode is the int -1, and the times are not negative
-- and fit a 64-bit number of nanoseconds.
pub record IsPlain (st : Stat) : Type 0 where
  pub uid_fits : st.uid < minus_one
  pub gid_fits : st.gid < minus_one
  pub mode_fits : st.mode < minus_one
  pub atime_fits : st.atime < 9223372036
  pub mtime_fits : st.mtime < 9223372036
  pub ctime_fits : st.ctime < 9223372036

-- A path is a C string, and its length an int.
pub record IsPath (path : Bytes) : Type 0 where
  pub no_nul : All (λ c. c ≢ 0) path
  pub not_empty : 0 < length path
  pub short : length path < 2 ^ 31

abbrev pub restored : Stat → Stat
restored st = record st { mode = bit_and st.mode permissions }

c_string-whole : (s : Bytes) → All (λ c. c ≢ 0) s → c_string s ≡ s
unfolding c_string
c_string-whole [] h = refl
c_string-whole (c ∷ s) h = ground (arith, c_string-whole s h.1, h.0)

nanos-small : (t : ℕ) → t < 9223372036 → (nanos t < 2 ^ 63) × (seconds (nanos t) ≡ t)
nanos-small t h = omega arith

not_negative64 : (n : ℕ) → n < 2 ^ 63 → is_negative64 n ≡ false
not_negative64 n h = ground arith

read_times-back :
    (type : ℕ) (path tail : Bytes) (st : Stat)
    → IsPlain st
    → read_times type path
        (record st { atime = 0; mtime = 0; ctime = 0 })
        (long_word (nanos st.atime)
          ++ (long_word (nanos st.mtime) ++ (long_word (nanos st.ctime) ++ tail)))
      ≡ entry type path (restored st) tail
unfolding read_times
read_times-back type path tail st h =
    let a = nanos-small st.atime h.atime_fits in
    let m = nanos-small st.mtime h.mtime_fits in
    let c = nanos-small st.ctime h.ctime_fits in
    rw
      (
        read_int64-long_word minus_one64 (nanos st.atime)
            (long_word (nanos st.mtime) ++ (long_word (nanos st.ctime) ++ tail))
            (omega (arith, a.0)),
        read_int64-long_word minus_one64 (nanos st.mtime) (long_word (nanos st.ctime) ++ tail)
            (omega (arith, m.0)),
        read_int64-long_word minus_one64 (nanos st.ctime) tail (omega (arith, c.0)),
        not_negative64 (nanos st.atime) a.0,
        not_negative64 (nanos st.mtime) m.0,
        not_negative64 (nanos st.ctime) c.0,
        a.1,
        m.1,
        c.1,
      )
      refl

not_minus_one : (n : ℕ) → n < minus_one → (n == minus_one) ≡ false
not_minus_one n h = ground arith

read_stat-back :
    (type : ℕ) (path tail : Bytes) (st : Stat)
    → IsPlain st
    → read_stat type path (stat_bytes st ++ tail) ≡ entry type path (restored st) tail
unfolding read_stat
read_stat-back type path tail st h =
    let rest =
      long_word (nanos st.atime)
      ++ (long_word (nanos st.mtime) ++ (long_word (nanos st.ctime) ++ tail)) in
    let flat : stat_bytes st ++ tail ≡ word st.uid ++ (word st.gid ++ (word st.mode ++ rest)) =
      simp append_assoc in
    rw
      (
        flat,
        read_int32-word minus_one st.uid (word st.gid ++ (word st.mode ++ rest))
            (omega (arith, h.uid_fits)),
        read_int32-word minus_one st.gid (word st.mode ++ rest) (omega (arith, h.gid_fits)),
        read_int32-word minus_one st.mode rest (omega (arith, h.mode_fits)),
        not_minus_one st.uid h.uid_fits,
        not_minus_one st.gid h.gid_fits,
        not_minus_one st.mode h.mode_fits,
      )
      (read_times-back type path tail st h)

read_path-back :
    (type : ℕ) (path rest : Bytes)
    → IsPath path
    → read_path type (length path) (path ++ rest) ≡ read_stat type path rest
unfolding read_path
read_path-back type path rest h =
    rw (take-append path rest, drop-append path rest, c_string-whole path h.no_nul)
      (ground (arith, length-append path rest, h.not_empty, h.short))

not_end : (type : ℕ) → 0 < type → (type == type_end) ≡ false
not_end type h = ground arith

not_negative : (n : ℕ) → n < 2 ^ 31 → is_negative n ≡ false
not_negative n h = ground arith

-- The header of an entry is read back, its mode cut to the permissions.
pub read_header-header :
    (type : ℕ) (path tail : Bytes) (st : Stat)
    → 0 < type
    → type < 2 ^ 31
    → IsPath path
    → IsPlain st
    → read_header (header type path st ++ tail) ≡ entry type path (restored st) tail
unfolding read_header
read_header-header type path tail st lo hi p h =
    let flat : header type path st ++ tail
        ≡ word type ++ (word (length path) ++ (path ++ (stat_bytes st ++ tail))) =
      simp append_assoc in
    rw
      (
        flat,
        read_int32-word minus_one type (word (length path) ++ (path ++ (stat_bytes st ++ tail)))
            (omega arith),
        read_int32-word minus_one (length path) (path ++ (stat_bytes st ++ tail))
            (omega (arith, p.short)),
        not_end type lo,
        not_negative type hi,
        read_path-back type path (stat_bytes st ++ tail) p,
      )
      (read_stat-back type path tail st h)
