-- ===== src/Rawbu/Finishes.antt =====
-- The loop of restore_data in rawbu/backup.cpp ends, whatever the backup holds and the kernel answers.
use cmds.Common.{
  length-drop, ℕ, zero, suc, ◌-◌, ◌≤◌, ◌<◌, ◌≡◌, refl, ◌∙◌, Bool, true, false, ◌||◌, List, [], ◌∷◌,
  Bytes, codes, Option, some, leb, ltb, ◌==◌, if◌then◌else◌, length, drop, Bool-cases, inl, inr,
  arith,
}
use cmds.Rawbu.{
  Stat, Forest, file_version_1, file_version_2, type_end, type_dir, type_file, copy_file,
}
use cmds.Rawbu.Copy.{copy_file-whole}
use cmds.Rawbu.Wipe.{Call, wipe}
use cmds.Rawbu.Restore.{
  read_number, read_int32, read_int64, minus_one, is_negative64, minus_one64, Header, bad, end,
  entry, read_times, read_stat, read_path, read_header, Trace, restore_file, restore_entry,
  restore_loop, restore_wiped, restore_data,
}

read_number-short :
    (n default : ℕ) (fh : Bytes) → length (read_number n default fh).1 ≤ length fh - n
unfolding read_number
read_number-short n default fh = ground (arith, length-drop n fh)

-- What is left to read behind a header.
left : Header → Bytes
left bad = []
left end = []
left (entry type path st rest) = rest

-- A header of which no more than `n` bytes are left.
Leaves : ℕ → Header → Type 0
unfolding left
Leaves n header = length (left header) ≤ n

entry-Leaves :
    (n type : ℕ) (path : Bytes) (st : Stat) (rest : Bytes)
    → length rest ≤ n
    → Leaves n (entry type path st rest)
unfolding Leaves left
entry-Leaves n type path st rest h = h

nothing-Leaves : (n : ℕ) (header : Header) → left header ≡ [] → Leaves n header
unfolding Leaves left
nothing-Leaves n header h = rw h (omega arith)

bad_or-Leaves :
    (b : Bool) (n : ℕ) (header : Header) → Leaves n header → Leaves n (if b then bad else header)
unfolding Leaves left
bad_or-Leaves true n header h = omega arith
bad_or-Leaves false n header h = h

less-Leaves : (m n : ℕ) (header : Header) → m ≤ n → Leaves m header → Leaves n header
unfolding Leaves
less-Leaves m n header h k = omega arith

read_times-Leaves :
    (type : ℕ) (path : Bytes) (st : Stat) (fh : Bytes)
    → Leaves (length fh) (read_times type path st fh)
unfolding read_times read_int64
read_times-Leaves type path st fh =
    let fh1 = (read_number 8 minus_one64 fh).1 in
    let fh2 = (read_number 8 minus_one64 fh1).1 in
    bad_or-Leaves _ (length fh) _ (
      entry-Leaves (length fh) type path _ (read_number 8 minus_one64 fh2).1 (
        omega (
          arith,
          read_number-short 8 minus_one64 fh,
          read_number-short 8 minus_one64 fh1,
          read_number-short 8 minus_one64 fh2,
        )))

read_stat-Leaves : (type : ℕ) (path fh : Bytes) → Leaves (length fh) (read_stat type path fh)
unfolding read_stat read_int32
read_stat-Leaves type path fh =
    let fh1 = (read_number 4 minus_one fh).1 in
    let fh2 = (read_number 4 minus_one fh1).1 in
    let fh3 = (read_number 4 minus_one fh2).1 in
    bad_or-Leaves _ (length fh) _ (
      less-Leaves (length fh3) (length fh) _
        (omega (
          arith,
          read_number-short 4 minus_one fh,
          read_number-short 4 minus_one fh1,
          read_number-short 4 minus_one fh2,
        ))
        (read_times-Leaves type path _ fh3))

read_path-Leaves : (type len : ℕ) (fh : Bytes) → Leaves (length fh) (read_path type len fh)
unfolding read_path
read_path-Leaves type len fh = bad_or-Leaves _ (length fh) _ (
    less-Leaves (length (drop len fh)) (length fh) _ (omega (arith, length-drop len fh))
      (read_stat-Leaves type _ (drop len fh)))

-- Reading a header takes its type and a length at least.
read_header-Leaves : (fh : Bytes) → Leaves (length fh - 8) (read_header fh)
unfolding read_header read_int32 left
read_header-Leaves fh =
    let (type, fh1) = read_number 4 minus_one fh in
    let (len, fh2) = read_number 4 minus_one fh1 in
    elim (Bool-cases (type == type_end)) [
      | inl e ↦ rw e (nothing-Leaves (length fh - 8) end refl)
      | inr e ↦ rw e (
          bad_or-Leaves _ (length fh - 8) _ (
            less-Leaves (length fh2) (length fh - 8) _
              (omega (arith, read_number-short 4 minus_one fh, read_number-short 4 minus_one fh1))
              (read_path-Leaves type len fh2)))
    ]

copy_file-left : (size : ℕ) (fh : Bytes) → length (copy_file size fh).1 ≤ length fh
copy_file-left size fh = elim (Bool-cases (leb size (length fh))) [
  | inl e ↦ rw (copy_file-whole size fh, e) (omega (arith, length-drop size fh))
  | inr e ↦ rw (copy_file-whole size fh, e) (omega arith)
]

restore_file-left :
    (kernel : List Call → Call → Option ℕ) (path : Bytes) (st : Stat) (size : ℕ) (fh : Bytes)
    (t : Trace)
    → length (restore_file kernel path st size fh t).1 ≤ length fh
unfolding restore_file
restore_file-left kernel path st size fh t = elim (Bool-cases (is_negative64 size)) [
  | inl e ↦ rw e (omega arith)
  | inr e ↦ rw e (copy_file-left size fh)
]

restore_entry-left :
    (kernel : List Call → Call → Option ℕ) (type : ℕ) (path : Bytes) (st : Stat) (fh : Bytes)
    (t : Trace)
    → length (restore_entry kernel type path st fh t).1 ≤ length fh
unfolding restore_entry read_int64
restore_entry-left kernel type path st fh t = elim (Bool-cases (type == type_dir)) [
  | inl e ↦ rw e (omega arith)
  | inr e ↦ elim (Bool-cases (type == type_file)) [
    | inl f ↦
        rw (e, f)
          (let (size, rest) = read_number 8 minus_one64 fh in
            omega (
              arith,
              restore_file-left kernel path st size rest t,
              read_number-short 8 minus_one64 fh,
            ))
    | inr f ↦ rw (e, f) (omega arith)
  ]
]

nothing_left : read_header [] ≡ bad
unfolding read_header read_int32 read_number
nothing_left = refl

module _ (kernel : List Call → Call → Option ℕ) where
  -- A round, by the header that it reads.
  abbrev after : ℕ → List Call → Header → Option Trace
  after fuel calls bad = some (calls, false)
  after fuel calls end = some (calls, true)
  after fuel calls (entry type path st rest) =
      let (t, fh) = restore_entry kernel type path st rest (calls, true) in
      restore_loop kernel fuel fh t

  restore_loop-after :
      (fuel : ℕ) (fh : Bytes) (calls : List Call) (header : Header)
      → read_header fh ≡ header
      → restore_loop kernel (suc fuel) fh (calls, true) ≡ after fuel calls header
  unfolding restore_loop
  restore_loop-after fuel fh calls bad e = rw (e, restore_loop) refl
  restore_loop-after fuel fh calls end e = rw (e, restore_loop) refl
  restore_loop-after fuel fh calls (entry type path st rest) e = rw (e, restore_loop) refl

  after-some :
      (fuel : ℕ) (calls : List Call) (n : ℕ)
      → ((fh : Bytes) (t : Trace)
          → length fh ≤ n
          → (u : Trace) × (restore_loop kernel fuel fh t ≡ some u))
      → (header : Header) → Leaves n header
      → (u : Trace) × (after fuel calls header ≡ some u)
  unfolding Leaves left
  after-some fuel calls n ends bad h = ((calls, false), refl)
  after-some fuel calls n ends end h = ((calls, true), refl)
  after-some fuel calls n ends (entry type path st rest) h =
      let (t, fh) = restore_entry kernel type path st rest (calls, true) in
      ends fh t (omega (arith, h, restore_entry-left kernel type path st rest (calls, true)))

  -- With more fuel than bytes the loop ends.
  restore_loop-some :
      (fuel : ℕ) (fh : Bytes) (t : Trace)
      → length fh < fuel
      → (u : Trace) × (restore_loop kernel fuel fh t ≡ some u)
  unfolding restore_loop Leaves left
  restore_loop-some zero fh t h = absurd (omega arith)
  restore_loop-some (suc fuel) fh (calls, false) h = ((calls, false), refl)
  restore_loop-some (suc fuel) [] (calls, true) h =
      ((calls, false), restore_loop-after fuel [] calls bad nothing_left)
  restore_loop-some (suc fuel) (c ∷ fh) (calls, true) h =
      let (u, e) =
        after-some fuel calls (length fh)
          (λ left u k. restore_loop-some fuel left u (omega (arith, k, h))) (read_header (c ∷ fh))
          (less-Leaves (length (c ∷ fh) - 8) (length fh) (read_header (c ∷ fh)) (omega arith)
            (read_header-Leaves (c ∷ fh))) in
      (u, restore_loop-after fuel (c ∷ fh) calls (read_header (c ∷ fh)) refl ∙ e)

  restore_wiped-some :
      (fh : Bytes) (r : List Call × Bool) → (t : Trace) × (restore_wiped kernel fh r ≡ some t)
  unfolding restore_wiped
  restore_wiped-some fh (calls, false) = ((calls, false), refl)
  restore_wiped-some fh (calls, true) =
      restore_loop-some (suc (length fh)) fh (calls, true) (omega arith)

  -- Whatever the kernel answers, whatever /data and the backup file hold, restore_data returns: each
  -- round of its loop takes bytes of the backup, or is the last.
  pub restore_data-some :
      (src_path : Bytes) (opens : Bool) (data_nodes : Forest) (fh : Bytes)
      → (t : Trace) × (restore_data kernel src_path opens data_nodes fh ≡ some t)
  unfolding restore_data
  restore_data-some src_path opens data_nodes fh =
      let (version, fh1) = read_int32 0 fh in
      elim (Bool-cases (ltb version file_version_1 || ltb file_version_2 version)) [
        | inl e ↦ (([], false), rw e refl)
        | inr e ↦ rw e (restore_wiped-some _ (wipe _ (codes "/data") opens data_nodes))
      ]
