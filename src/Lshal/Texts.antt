-- ===== src/Lshal/Texts.antt =====
-- What the texts of lshal/utils.cpp keep.
use cmds.Common.{
  Lacks, ℕ, zero, suc, ◌+◌, ◌-◌, ◌*◌, ◌/◌, ◌%◌, ◌^◌, ◌≤◌, ◌<◌, ◌≡◌, refl, sym, ap, ◌∙◌, List, [],
  ◌∷◌, ◌++◌, Bytes, none, some, ◌==◌, leb, if◌then◌else◌, length, length-append, append-nil,
  replicate, All, arith, Bool-cases, inl, inr, ◌⊎◌,
}
use cmds.Lshal.{hex_digit, push_hex, to_hex_string, find, split_loop, split, join_rest, join}

-- The number that a text of hexadecimal digits stands for, behind `a`.
unfoldable pub read_hex : ℕ → Bytes → ℕ
read_hex a [] = a
read_hex a (c ∷ s) = read_hex (a * 16 + (if leb b'a' c then c - b'a' + 10 else c - b'0')) s

read_digit : (a d : ℕ) (s : Bytes) → d < 16 → read_hex a (hex_digit d ∷ s) ≡ read_hex (a * 16 + d) s
unfolding read_hex
read_digit a d s h = ground arith

read_hex-push_hex :
    (fuel n : ℕ) (acc : Bytes) → n < 16 ^ fuel → read_hex 0 (push_hex fuel n acc) ≡ read_hex n acc
unfolding push_hex
read_hex-push_hex zero n acc h = ap (λ (k : ℕ). read_hex k acc) (omega (arith, h))
read_hex-push_hex (suc fuel) n acc h =
    let digit : read_hex (n / 16) (hex_digit (n % 16) ∷ acc) ≡ read_hex n acc =
      read_digit (n / 16) (n % 16) acc (omega arith)
      ∙ ap (λ (k : ℕ). read_hex k acc) (omega arith) in
    let small : n / 16 < 16 ^ fuel = omega (arith, h) in
    elim (Bool-cases (n / 16 == 0)) [
      | inl e ↦
          rw e (ap (λ (k : ℕ). read_hex k (hex_digit (n % 16) ∷ acc)) (ground (arith, e)) ∙ digit)
      | inr e ↦ rw e (read_hex-push_hex fuel (n / 16) (hex_digit (n % 16) ∷ acc) small ∙ digit)
    ]

length-push_hex : (fuel n : ℕ) (acc : Bytes) → length (push_hex fuel n acc) ≤ fuel + length acc
unfolding push_hex
length-push_hex zero n acc = omega arith
length-push_hex (suc fuel) n acc =
    ground (arith, length-push_hex fuel (n / 16) (hex_digit (n % 16) ∷ acc))

length-replicate : (n : ℕ) (s : Bytes) → length (replicate n b'0' ++ s) ≡ n + length s
length-replicate zero s = omega arith
length-replicate (suc n) s = omega (arith, length-replicate n s)

read_hex-replicate : (n : ℕ) (s : Bytes) → read_hex 0 (replicate n b'0' ++ s) ≡ read_hex 0 s
unfolding read_hex
read_hex-replicate zero s = refl
read_hex-replicate (suc n) s = read_hex-replicate n s

-- The text of a 64-bit address has 16 digits, and they say which address it is.
read_hex-to_hex_string :
    (t : ℕ) → t < 2 ^ 64 → (length (to_hex_string t) ≡ 16) × (read_hex 0 (to_hex_string t) ≡ t)
unfolding to_hex_string read_hex
read_hex-to_hex_string t h =
    let digits = push_hex 16 t [] in
    (
      omega (arith, length-replicate (16 - length digits) digits, length-push_hex 16 t []),
      read_hex-replicate (16 - length digits) digits ∙ read_hex-push_hex 16 t [] (omega (arith, h)),
    )

find-none : (c : ℕ) (s : Bytes) → Lacks c s → find c s ≡ none
unfolding find
find-none c [] h = refl
find-none c (x ∷ s) h = rw (h.0, find-none c s h.1) refl

find-some : (c : ℕ) (s rest : Bytes) → Lacks c s → find c (s ++ c ∷ rest) ≡ some (s, rest)
unfolding find
find-some c [] rest h = ground arith
find-some c (x ∷ s) rest h = rw (h.0, find-some c s rest h.1) refl

-- A text lacks the separator, or is cut at the first one.
abbrev Cut : ℕ → Bytes → Type 0
Cut c s =
    ((find c s ≡ none) × Lacks c s)
    ⊎ ((p : Bytes) × (rest : Bytes) × (find c s ≡ some (p, rest)) × (s ≡ p ++ c ∷ rest) × Lacks c p)

find-Cut : (c : ℕ) (s : Bytes) → Cut c s
unfolding find
find-Cut c [] = inl (refl, tt)
find-Cut c (x ∷ s) = elim (Bool-cases (x == c)) [
  | inl hit ↦ inr ([], s, rw hit refl, ap (λ (d : ℕ). d ∷ s) (ground (arith, hit)), tt)
  | inr miss ↦ elim (find-Cut c s) [
    | inl (e, lacks) ↦ inl (rw (miss, e) refl, (miss, lacks))
    | inr (p, rest, e, parts, lacks) ↦
        inr (x ∷ p, rest, rw (miss, e) refl, ap (◌∷◌ x) parts, (miss, lacks))
  ]
]

-- The pieces, with the separators between them, are the text again, and none has the separator.
abbrev Parts : ℕ → Bytes → List Bytes → Type 0
Parts c s pieces =
    (p : Bytes) × (ps : List Bytes) × (pieces ≡ p ∷ ps)
    × (p ++ join_rest ps (c ∷ []) ≡ s)
    × All (Lacks c) (p ∷ ps)

split_loop-Parts : (fuel c : ℕ) (s : Bytes) → length s < fuel → Parts c s (split_loop fuel c s)
unfolding split_loop join_rest
split_loop-Parts zero c s h = absurd (omega arith)
split_loop-Parts (suc fuel) c s h = elim (find-Cut c s) [
  | inl (e, lacks) ↦ (s, [], rw (e, split_loop) refl, append-nil s, (lacks, tt))
  | inr (p, rest, e, parts, lacks) ↦
      let shorter : length rest < fuel =
        omega (arith, h, ap (λ (t : Bytes). length t) parts, length-append p (c ∷ rest)) in
      let (q, qs, f, back, all) = split_loop-Parts fuel c rest shorter in
      (
        p,
        q ∷ qs,
        rw (e, split_loop) (ap (◌∷◌ p) f),
        ap (λ (t : Bytes). p ++ c ∷ t) back ∙ sym parts,
        (lacks, all),
      )
]

split_loop-join :
    (fuel c : ℕ) (p : Bytes) (ps : List Bytes)
    → length ps < fuel
    → Lacks c p
    → All (Lacks c) ps
    → split_loop fuel c (join (p ∷ ps) (c ∷ [])) ≡ p ∷ ps
unfolding split_loop join join_rest
split_loop-join zero c p ps k h hs = absurd (omega arith)
split_loop-join (suc fuel) c p [] k h hs =
    ap (λ (t : Bytes). split_loop (suc fuel) c t) (append-nil p)
    ∙ rw (find-none c p h, split_loop) refl
split_loop-join (suc fuel) c p (q ∷ ps) k h hs =
    rw (find-some c p (join (q ∷ ps) (c ∷ [])) h, split_loop)
      (ap (◌∷◌ p) (split_loop-join fuel c q ps (omega (arith, k)) hs.0 hs.1))

length-join_rest : (c : ℕ) (ps : List Bytes) → length ps ≤ length (join_rest ps (c ∷ []))
unfolding join_rest
length-join_rest c [] = omega arith
length-join_rest c (p ∷ ps) =
    omega (arith, length-join_rest c ps, length-append p (join_rest ps (c ∷ [])))

-- Joined by the separator, the components of a text are the text again, and none of them has the
-- separator in it; and of components that do not have it, one at least, joined by it, split gives
-- these components.
pub join-split :
    (c : ℕ) (s : Bytes) (p : Bytes) (ps : List Bytes)
    → Lacks c p
    → All (Lacks c) ps
    → (join (split s c) (c ∷ []) ≡ s)
      × All (Lacks c) (split s c)
      × (split (join (p ∷ ps) (c ∷ [])) c ≡ p ∷ ps)
unfolding split join
join-split c s p ps h hs =
    let (q, qs, e, back, all) = split_loop-Parts (suc (length s)) c s (omega arith) in
    (
      rw e back,
      rw e all,
      split_loop-join (suc (length (p ++ join_rest ps (c ∷ [])))) c p ps
          (omega (arith, length-append p (join_rest ps (c ∷ [])), length-join_rest c ps)) h hs,
    )
