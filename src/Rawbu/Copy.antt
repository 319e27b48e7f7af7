-- ===== src/Rawbu/Copy.antt =====
-- copy_file of rawbu/backup.cpp: its rounds together read the size that is asked for.
use Prim.Native.Nat.{min}
use cmds.Common.{
  length-drop, ℕ, zero, suc, ◌+◌, ◌-◌, ◌≤◌, ◌<◌, ◌≡◌, refl, sym, ap, ◌∙◌, true, false, List, [],
  ◌∷◌, ◌++◌, Bytes, length, take, drop, length-take, arith, leb, if◌then◌else◌, Bool-cases, inl,
  inr,
}
use cmds.Rawbu.{buffer_size, copy_loop, copy_file}

module _ {ℓ} {A : Type ℓ} where
  take-nil : (n : ℕ) → take {A = A} n [] ≡ []
  take-nil zero = refl
  take-nil (suc n) = refl

  drop-nil : (n : ℕ) → drop {A = A} n [] ≡ []
  drop-nil zero = refl
  drop-nil (suc n) = refl

  take_more : (m n k : ℕ) (xs : List A) → k ≡ m + n → take m xs ++ take n (drop m xs) ≡ take k xs
  take_more zero n k xs e = ap (λ (i : ℕ). take i xs) (omega (arith, e))
  take_more (suc m) n k [] e = take-nil n ∙ sym (take-nil k)
  take_more (suc m) n zero (x ∷ xs) e = absurd (omega arith)
  take_more (suc m) n (suc k) (x ∷ xs) e = ap (◌∷◌ x) (take_more m n k xs (omega arith))

  drop_more : (m n k : ℕ) (xs : List A) → k ≡ m + n → drop n (drop m xs) ≡ drop k xs
  drop_more zero n k xs e = ap (λ (i : ℕ). drop i xs) (omega (arith, e))
  drop_more (suc m) n k [] e = drop-nil n ∙ sym (drop-nil k)
  drop_more (suc m) n zero (x ∷ xs) e = absurd (omega arith)
  drop_more (suc m) n (suc k) (x ∷ xs) e = drop_more m n k xs (omega arith)

  take-drop : (m : ℕ) (xs : List A) → take m xs ++ drop m xs ≡ xs
  take-drop zero xs = refl
  take-drop (suc m) [] = refl
  take-drop (suc m) (x ∷ xs) = ap (◌∷◌ x) (take-drop m xs)

-- Where the source has what is asked for, that is read, and the rest is left.
copy_loop-whole :
    (fuel size : ℕ) (src : Bytes)
    → size ≤ fuel
    → size ≤ length src
    → copy_loop fuel size src ≡ (take size src, drop size src, true)
unfolding copy_loop
copy_loop-whole zero zero src h k = refl
copy_loop-whole zero (suc size) src h k = absurd (omega arith)
copy_loop-whole (suc fuel) zero src h k = refl
copy_loop-whole (suc fuel) (suc size) [] h k = absurd (omega arith)
copy_loop-whole (suc fuel) (suc size) (c ∷ src) h k =
    let amt = min (suc size) buffer_size in
    let left = suc size - length (take amt (c ∷ src)) in
    let all : suc size ≡ amt + left = omega (arith, length-take amt (c ∷ src)) in
    let more =
      copy_loop-whole fuel left (drop amt (c ∷ src)) (omega arith)
        (omega (arith, length-drop amt (c ∷ src))) in
    rw
      (
        more,
        take_more amt left (suc size) (c ∷ src) all,
        drop_more amt left (suc size) (c ∷ src) all,
      )
      refl

-- Where the source ends before, it is read to its end, and the copy fails.
copy_loop-short :
    (fuel size : ℕ) (src : Bytes)
    → size ≤ fuel
    → length src < size
    → copy_loop fuel size src ≡ (src, [], false)
unfolding copy_loop
copy_loop-short zero size src h k = absurd (omega arith)
copy_loop-short (suc fuel) zero src h k = absurd (omega arith)
copy_loop-short (suc fuel) (suc size) [] h k = refl
copy_loop-short (suc fuel) (suc size) (c ∷ src) h k =
    let amt = min (suc size) buffer_size in
    let left = suc size - length (take amt (c ∷ src)) in
    let more =
      copy_loop-short fuel left (drop amt (c ∷ src)) (omega (arith, length-take amt (c ∷ src)))
        (omega (arith, length-take amt (c ∷ src), length-drop amt (c ∷ src))) in
    rw (more, take-drop amt (c ∷ src)) refl

-- The rounds of copy_file amount to one read: with enough bytes in the source, as many as asked for;
-- with fewer, all of them, and a failure.
pub copy_file-whole :
    (size : ℕ) (src : Bytes)
    → copy_file size src
      ≡ (if leb size (length src) then (take size src, drop size src, true) else (src, [], false))
unfolding copy_file
copy_file-whole size src = elim (Bool-cases (leb size (length src))) [
  | inl e ↦ rw e (copy_loop-whole size size src (omega arith) (ground (arith, e)))
  | inr e ↦ rw e (copy_loop-short size size src (omega arith) (ground (arith, e)))
]
