-- ===== src/Rawbu/Tests.antt =====
-- The theorems on the backup and restore of /data at work.
use cmds.Common.{
  ℕ, ◌≡◌, ◌≤◌, refl, true, false, List, [], ◌∷◌, ◌++◌, codes, Option, none, some, arith, All,
  length, bytes_eq,
}
use cmds.Rawbu.{
  Stat, file, dir, Forest, nil, cons, Config, backup_data, is_passed_over, is_left_out, is_listed,
  word, long_word,
}
use cmds.Rawbu.Wipe.{
  Call, unlink, rmdir, create, mkdir, write, chmod, chown, utime, wipe, treatment, treat, treated,
  special_of, remove_dir, wipe_leaf, wipe_opened, wipe_node,
}
use cmds.Rawbu.Restore.{restore_data, Trace}
use cmds.Rawbu.Written.{saved, is_readable, stream, encode, encode_entry}
use cmds.Rawbu.ReadBack.{IsPath, IsPlain}
use cmds.Rawbu.RoundTrip.{accepts, IsSound, remake, remake_all, restore_data-backup_data}
use cmds.Rawbu.Untouched.{IsNamed, Spares, wipe-Spares}
use cmds.Rawbu.Finishes.{restore_data-some}

abbrev owner : Stat
owner = record { uid = 1000; gid = 1000; mode = 33188; atime = 5; mtime = 6; ctime = 7 }

-- /data with one file, a directory to be left alone, and an empty directory.
abbrev disk : Forest
disk = cons (codes "a") (file owner true 2 (codes "hi")) (
    cons (codes "misc") (dir owner true (cons (codes "wifi") (file owner true 3 (codes "psk")) nil))
      (cons (codes "b") (dir owner true nil) nil))

abbrev config : Config
config = record { backup_all = false; backup_file = codes "/sdcard/b" }

abbrev willing : List Call → Call → Option ℕ
willing calls c = none

willing-accepts : (calls : List Call) (c : Call) → accepts c (willing calls c) ≡ true
willing-accepts calls (unlink path) = refl
willing-accepts calls (rmdir path) = refl
willing-accepts calls (create path) = refl
willing-accepts calls (mkdir path mode) = refl
willing-accepts calls (write path content) = refl
willing-accepts calls (chmod path mode) = refl
willing-accepts calls (chown path uid gid) = refl
willing-accepts calls (utime path atime mtime) = refl

disk_readable : is_readable config (codes "/data") disk ≡ true
unfolding is_readable is_passed_over is_left_out is_listed bytes_eq
disk_readable = refl

disk_fits : length (stream config disk) ≤ 200
unfolding stream saved is_passed_over is_left_out is_listed bytes_eq encode encode_entry word
    long_word
disk_fits = omega arith

owner-IsPlain : IsPlain owner
owner-IsPlain = record {
  uid_fits = omega arith;
  gid_fits = omega arith;
  mode_fits = omega arith;
  atime_fits = omega arith;
  mtime_fits = omega arith;
  ctime_fits = omega arith;
}

file-IsPath : IsPath (codes "/data/a")
file-IsPath = record { no_nul = ground arith; not_empty = omega arith; short = omega arith }

dir-IsPath : IsPath (codes "/data/b")
dir-IsPath = record { no_nul = ground arith; not_empty = omega arith; short = omega arith }

disk_kept : All IsSound (saved config (codes "/data") disk)
unfolding saved is_passed_over is_left_out is_listed bytes_eq IsSound
disk_kept = ((file-IsPath, owner-IsPlain, omega arith), ((dir-IsPath, owner-IsPlain), tt))

disk_wiped :
    wipe (record { backup_all = false; backup_file = codes "/sdcard/b" }) (codes "/data") true disk
    ≡ (unlink (codes "/data/a") ∷ rmdir (codes "/data/b") ∷ [], true)
unfolding wipe wipe_opened wipe_node treatment treat treated special_of remove_dir wipe_leaf
    is_left_out bytes_eq
disk_wiped = refl

restore_data-backup_data_example :
    let (w, ok) = backup_data config true disk true (record { room = 200; written = [] }) in
    (ok ≡ true)
    × (restore_data willing (codes "/sdcard/b") true disk w.written
        ≡ some (
          (unlink (codes "/data/a") ∷ rmdir (codes "/data/b") ∷ [])
              ++ remake_all (saved config (codes "/data") disk),
          true,
        ))
restore_data-backup_data_example =
    restore_data-backup_data willing willing-accepts config disk 200 (codes "/sdcard/b") true disk
      (unlink (codes "/data/a") ∷ rmdir (codes "/data/b") ∷ []) disk_readable disk_fits disk_kept
      disk_wiped

-- The calls that make the entries of the disk again.
remade :
    remake_all (saved config (codes "/data") disk)
    ≡ create (codes "/data/a")
      ∷ write (codes "/data/a") (codes "hi")
      ∷ chmod (codes "/data/a") 420
      ∷ chown (codes "/data/a") 1000 1000
      ∷ utime (codes "/data/a") 5 6
      ∷ mkdir (codes "/data/b") 420
      ∷ chmod (codes "/data/b") 420
      ∷ chown (codes "/data/b") 1000 1000
      ∷ utime (codes "/data/b") 5 6
      ∷ []
unfolding remake_all remake saved is_passed_over is_left_out is_listed bytes_eq
remade = refl

disk-IsNamed : IsNamed disk
unfolding IsNamed
disk-IsNamed = ground arith

wipe-Spares_example : All (Spares config) (wipe config (codes "/data") true disk).0
wipe-Spares_example = wipe-Spares config refl true disk disk-IsNamed

restore_data-some_example :
    (t : Trace) × (restore_data willing (codes "/sdcard/b") true disk (codes "no backup") ≡ some t)
restore_data-some_example =
    restore_data-some willing (codes "/sdcard/b") true disk (codes "no backup")
