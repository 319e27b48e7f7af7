-- ===== src/Rawbu.antt =====
-- rawbu/backup.cpp: the backup of /data into one file. What the file system holds is a tree, with what
-- fails in it: entries that lstat fails on, directories and files that cannot be opened, files shorter
-- than lstat said. The destination takes `room` bytes. An int is the number that has its bits.
pub mod Wipe
pub mod Restore
pub mod Copy
pub mod Written
pub mod ReadBack
pub mod RoundTrip
pub mod Untouched
pub mod Finishes
pub mod Tests
use Prim.Native.Nat.{min}
use cmds.Common.{
  ℕ, zero, suc, ◌+◌, ◌-◌, ◌*◌, ◌/◌, ◌%◌, ◌^◌, Bool, true, false, not, ◌&&◌, ◌||◌, List, [], ◌∷◌,
  ◌++◌, Bytes, codes, bytes_eq, ◌==◌, leb, if◌then◌else◌, length, take, drop,
}

-- Times are 64-bit numbers of seconds, by their bits.
pub record Stat : Type 0 where
  pub uid : ℕ
  pub gid : ℕ
  pub mode : ℕ
  pub atime : ℕ
  pub mtime : ℕ
  pub ctime : ℕ

-- `missing` is an entry that lstat fails on; the Bool is whether opendir or fopen succeeds. A file has
-- the size that lstat tells and the bytes that can be read.
mutual
  pub data Node : Type 0 where
    missing : Node
    other : Stat → Node
    file : Stat → Bool → ℕ → Bytes → Node
    dir : Stat → Bool → Forest → Node

  pub data Forest : Type 0 where
    nil : Forest
    cons : Bytes → Node → Forest → Forest

pub data Special : Type 0 where
  no_touch no_backup : Special

abbrev pub skip_paths : List (Bytes × Special)
skip_paths =
    (codes "/data/misc", no_touch)
    ∷ (codes "/data/system/batterystats.bin", no_touch)
    ∷ (codes "/data/system/location", no_touch)
    ∷ (codes "/data/dalvik-cache", no_backup)
    ∷ []

-- The options -a and the path of the backup file.
pub record Config : Type 0 where
  pub backup_all : Bool
  pub backup_file : Bytes

unfoldable pub is_left_out : Bytes → Bool
is_left_out name =
    bytes_eq name (codes ".") || bytes_eq name (codes "..") || bytes_eq name (codes "lost+found")

unfoldable pub is_listed : Bytes → List (Bytes × Special) → Bool
is_listed path [] = false
is_listed path ((p, special) ∷ paths) = bytes_eq p path || is_listed path paths

abbrev pub child : Bytes → Bytes → Bytes
child path name = path ++ b'/' ∷ name

pub record Writer : Type 0 where
  pub room : ℕ
  pub written : Bytes

unfoldable pub fwrite : Bytes → Writer → Writer × Bool
fwrite bytes w =
    if leb (length bytes) w.room
    then (record { room = w.room - length bytes; written = w.written ++ bytes }, true)
    else (record { room = 0; written = w.written ++ take w.room bytes }, false)

-- Goes on where the step before succeeded.
infixl 5 ◌then◌
abbrev pub ◌then◌ : Writer × Bool → (Writer → Writer × Bool) → Writer × Bool
(w, false) then f = (w, false)
(w, true) then f = f w

abbrev pub byte : ℕ → ℕ
byte n = n % 256

unfoldable pub word : ℕ → Bytes
word n = byte n ∷ byte (n / 2 ^ 8) ∷ byte (n / 2 ^ 16) ∷ byte (n / 2 ^ 24) ∷ []

unfoldable pub long_word : ℕ → Bytes
long_word n =
    byte n
    ∷ byte (n / 2 ^ 8)
    ∷ byte (n / 2 ^ 16)
    ∷ byte (n / 2 ^ 24)
    ∷ byte (n / 2 ^ 32)
    ∷ byte (n / 2 ^ 40)
    ∷ byte (n / 2 ^ 48)
    ∷ byte (n / 2 ^ 56)
    ∷ []

unfoldable pub write_int32 : ℕ → Writer → Writer × Bool
write_int32 val w = fwrite (word val) w

unfoldable pub write_int64 : ℕ → Writer → Writer × Bool
write_int64 val w = fwrite (long_word val) w

abbrev pub buffer_size : ℕ
buffer_size = 8192

-- The loop of copy_file: each round reads a buffer, and fails at the end of the source. What the
-- rounds have read, what is left of the source, and whether the loop got all. The fuel is the size, for
-- each round takes a byte at least.
unfoldable pub copy_loop : ℕ → ℕ → Bytes → Bytes × Bytes × Bool
copy_loop zero size src = ([], src, size == 0)
copy_loop (suc fuel) zero src = ([], src, true)
copy_loop (suc fuel) (suc size) [] = ([], [], false)
copy_loop (suc fuel) (suc size) (c ∷ src) =
    let amt = min (suc size) buffer_size in
    let got = take amt (c ∷ src) in
    let (more, rest, ok) = copy_loop fuel (suc size - length got) (drop amt (c ∷ src)) in
    (got ++ more, rest, ok)

unfoldable pub copy_file : ℕ → Bytes → Bytes × Bytes × Bool
copy_file size src = copy_loop size size src

-- The copy into the backup.
unfoldable pub write_copy : ℕ → Bytes → Writer → Writer × Bool
write_copy size src w = let (got, rest, ok) = copy_file size src in fwrite got w then (λ v. (v, ok))

abbrev pub type_end : ℕ
type_end = 0

abbrev pub type_dir : ℕ
type_dir = 1

abbrev pub type_file : ℕ
type_file = 2

abbrev pub nanos : ℕ → ℕ
nanos seconds = seconds * 1000000000 % 2 ^ 64

unfoldable pub write_header : ℕ → Bytes → Stat → Writer → Writer × Bool
write_header type path st w =
    write_int32 type w
    then write_int32 (length path)
    then fwrite path
    then write_int32 st.uid
    then write_int32 st.gid
    then write_int32 st.mode
    then write_int64 (nanos st.atime)
    then write_int64 (nanos st.mtime)
    then write_int64 (nanos st.ctime)

module _ (config : Config) where
  unfoldable pub is_passed_over : Bytes → Bytes → Bool
  is_passed_over path name =
      is_left_out name || (not config.backup_all && is_listed (child path name) skip_paths)

  unfoldable pub write_file : Bytes → Stat → Bool → ℕ → Bytes → Writer → Writer × Bool
  write_file path st opens size content w =
      write_header type_file path st w
      then write_int64 size
      then (λ v. if opens then write_copy size content v else (v, false))

  unfoldable mutual
    -- An entry that is not passed over.
    pub backup_node : Bytes → Node → Writer → Writer × Bool
    backup_node path missing w = (w, false)
    backup_node path (other st) w = (w, true)
    backup_node path (file st opens size content) w =
        if bytes_eq path config.backup_file
        then (w, true)
        else write_file path st opens size content w
    backup_node path (dir st opens nodes) w =
        write_header type_dir path st w
        then (λ v. if opens then backup_dir path nodes v else (v, false))

    -- A directory that is open.
    pub backup_dir : Bytes → Forest → Writer → Writer × Bool
    backup_dir path nil w = (w, true)
    backup_dir path (cons name n nodes) w =
        (if is_passed_over path name then (w, true) else backup_node (child path name) n w)
        then backup_dir path nodes

abbrev pub file_version_1 : ℕ
file_version_1 = 4294901761

abbrev pub file_version_2 : ℕ
file_version_2 = 4294901762

abbrev pub flag : Bool → ℕ
flag b = if b then 1 else 0

-- `data` is /data, where it opens. Whether the source returns 0, given whether fflush and fsync succeed,
-- and what the destination has then.
unfoldable pub backup_data : Config → Bool → Forest → Bool → Writer → Writer × Bool
backup_data config opens nodes synced w =
    let (v, ok) =
      write_int32 file_version_2 w
      then write_int32 (flag config.backup_all)
      then (λ v. if opens then backup_dir config (codes "/data") nodes v else (v, false))
      then write_int32 type_end in
    (v, ok && synced)
