-- ===== src/ServiceManager/Bio/RoundTrip.antt =====
-- What a client writes into a message, the readers of servicemanager/binder.c read back.
use cmds.Common.{
  ℕ, zero, suc, ◌+◌, ◌-◌, ◌*◌, ◌^◌, ◌<◌, ◌≡◌, refl, ap, Bool, List, [], ◌∷◌, ◌++◌, Bytes, some,
  length, length-append, take, drop, All, All-append, arith, append_assoc,
}
use cmds.ServiceManager.Bio.{
  Message, aligned, bio_get, number, bio_get_uint32, units, bio_get_string16, word, unit_bytes,
}

module _ {ℓ} {A : Type ℓ} where
  take_front : (n : ℕ) (xs ys : List A) → n ≡ length xs → take n (xs ++ ys) ≡ xs
  take_front zero [] ys e = refl
  take_front zero (x ∷ xs) ys e = absurd (omega arith)
  take_front (suc n) [] ys e = absurd (omega arith)
  take_front (suc n) (x ∷ xs) ys e = ap (◌∷◌ x) (take_front n xs ys (omega arith))

  drop_front : (n : ℕ) (xs ys : List A) → n ≡ length xs → drop n (xs ++ ys) ≡ ys
  drop_front zero [] ys e = refl
  drop_front zero (x ∷ xs) ys e = absurd (omega arith)
  drop_front (suc n) [] ys e = absurd (omega arith)
  drop_front (suc n) (x ∷ xs) ys e = drop_front n xs ys (omega arith)

-- A block with its padding in front of a message is what bio_get points to.
pub bio_get-block :
    (block pad tail : Bytes) (offset : ℕ) (offs : List ℕ) (overflow : Bool) (size : ℕ)
    → size ≡ length block
    → length pad ≡ aligned size - size
    → bio_get
        (record {
          rest = block ++ (pad ++ tail);
          offset = offset;
          offs = offs;
          overflow = overflow;
        })
        size
      ≡ (
        some block,
        record { rest = tail; offset = offset + aligned size; offs = offs; overflow = overflow },
      )
unfolding bio_get
bio_get-block block pad tail offset offs overflow size e p = ground (
  arith,
  take_front size block (pad ++ tail) e,
  append_assoc block pad tail,
  drop_front (aligned size) (block ++ pad) tail,
  length-append block pad,
  length-append block (pad ++ tail),
  length-append pad tail,
)

pub number-word : (n : ℕ) → n < 2 ^ 32 → number (word n) ≡ n
number-word n h = omega arith

pub bio_get_uint32-word :
    (n : ℕ) (tail : Bytes) (offset : ℕ) (offs : List ℕ) (overflow : Bool)
    → n < 2 ^ 32
    → bio_get_uint32
        (record { rest = word n ++ tail; offset = offset; offs = offs; overflow = overflow })
      ≡ (n, record { rest = tail; offset = offset + 4; offs = offs; overflow = overflow })
unfolding bio_get_uint32 aligned
bio_get_uint32-word n tail offset offs overflow h =
    rw (bio_get-block (word n) [] tail offset offs overflow 4 refl refl) (
      ap
        (λ (k : ℕ).
          let r : ℕ × Message =
            (k, record { rest = tail; offset = offset + 4; offs = offs; overflow = overflow }) in
          r)
        (number-word n h))

abbrev pub Units : List ℕ → Type 0
Units s = All (λ u. u < 2 ^ 16) s

pub length-unit_bytes : (s : List ℕ) → length (unit_bytes s) ≡ length s * 2
length-unit_bytes [] = omega arith
length-unit_bytes (u ∷ s) = omega (arith, length-unit_bytes s)

units-unit_bytes : (s : List ℕ) → Units s → units (unit_bytes s) ≡ s
units-unit_bytes [] h = refl
units-unit_bytes (u ∷ s) h = ground (arith, units-unit_bytes s h.1)

-- A string on the wire: its length, its units and a 0, and the padding.
abbrev pub string16 : List ℕ → Bytes → Bytes → Bytes
string16 s pad tail = word (length s) ++ (unit_bytes (s ++ 0 ∷ []) ++ (pad ++ tail))

abbrev pub IsPad : List ℕ → Bytes → Type 0
IsPad s pad = length pad ≡ aligned ((length s + 1) * 2) - (length s + 1) * 2

-- bio_get_string16 gives back a string of 16-bit units, shorter than 2 ^ 32, that stands on the wire
-- with its length, its units, a 0 and padding, whatever the padding holds, and stops behind it.
pub bio_get_string16-string16 :
    (s : List ℕ) (pad tail : Bytes) (offset : ℕ) (offs : List ℕ) (overflow : Bool)
    → Units s
    → length s < 2 ^ 32
    → IsPad s pad
    → bio_get_string16
        (record { rest = string16 s pad tail; offset = offset; offs = offs; overflow = overflow })
      ≡ (
        some s,
        record {
          rest = tail;
          offset = offset + 4 + aligned ((length s + 1) * 2);
          offs = offs;
          overflow = overflow;
        },
      )
unfolding bio_get_string16
bio_get_string16-string16 s pad tail offset offs overflow h fits p = rw (
  bio_get_uint32-word (length s) (unit_bytes (s ++ 0 ∷ []) ++ (pad ++ tail)) offset offs overflow
      fits,
  bio_get-block (unit_bytes (s ++ 0 ∷ [])) pad tail (offset + 4) offs overflow ((length s + 1) * 2)
      (omega (arith, length-unit_bytes (s ++ 0 ∷ []), length-append {0} s (0 ∷ []))) p,
  units-unit_bytes (s ++ 0 ∷ []) (All-append (λ u. u < 2 ^ 16) s (0 ∷ []) h (omega arith, tt)),
  take_front (length s) s (0 ∷ []) refl,
)
