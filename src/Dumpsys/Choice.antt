-- ===== src/Dumpsys/Choice.antt =====
-- Which services dumpsys dumps, and with which arguments.
use cmds.Common.{
  ℕ, zero, suc, ◌+◌, ◌≤◌, ◌≡◌, refl, sym, ap, subst, Bool, true, false, List, [], ◌∷◌, Bytes,
  Bool-cases, ◌⊎◌, inl, inr, arith, length, All, All-weaken,
}
use cmds.Dumpsys.{
  Platform, Options, Words, is_skipped, set_service_args, text_less, insert_sorted, sort,
  set_intersection, is_empty, dumps, list_services, is_refused, run_words,
}

insert_sorted-All {ℓ} :
    (P : Bytes → Type ℓ) (s : Bytes) (ts : List Bytes) → P s → All P ts → All P (insert_sorted s ts)
unfolding insert_sorted
insert_sorted-All P s [] h k = (h, tt)
insert_sorted-All P s (t ∷ ts) h k = elim (Bool-cases (text_less t s)) [
  | inl e ↦ rw e (k.0, insert_sorted-All P s ts h k.1)
  | inr e ↦ rw e (h, k)
]

sort-All {ℓ} : (P : Bytes → Type ℓ) (ss : List Bytes) → All P ss → All P (sort ss)
unfolding sort
sort-All P [] h = tt
sort-All P (s ∷ ss) h = insert_sorted-All P s (sort ss) h.0 (sort-All P ss h.1)

text_less-equal : (s t : Bytes) → text_less s t ≡ false → text_less t s ≡ false → s ≡ t
unfolding text_less
text_less-equal [] [] h k = refl
text_less-equal [] (d ∷ t) h k = cc
text_less-equal (c ∷ s) [] h k = cc
text_less-equal (c ∷ s) (d ∷ t) h k = ground (arith, text_less-equal s t)

-- An intersection holds only what both ranges hold.
set_intersection-All {ℓ κ} :
    (P : Bytes → Type ℓ) (Q : Bytes → Type κ) (fuel : ℕ) (ss ts : List Bytes)
    → All P ss
    → All Q ts
    → All (λ s. P s × Q s) (set_intersection fuel ss ts)
unfolding set_intersection
set_intersection-All P Q zero ss ts h k = tt
set_intersection-All P Q (suc fuel) [] ts h k = tt
set_intersection-All P Q (suc fuel) (s ∷ ss) [] h k = tt
set_intersection-All P Q (suc fuel) (s ∷ ss) (t ∷ ts) h k = elim (Bool-cases (text_less s t)) [
  | inl e ↦ rw e (set_intersection-All P Q fuel ss (t ∷ ts) h.1 k)
  | inr e ↦ elim (Bool-cases (text_less t s)) [
    | inl f ↦ rw (e, f) (set_intersection-All P Q fuel (s ∷ ss) ts h k.1)
    | inr f ↦
        let same = text_less-equal s t e f in
        rw (e, f) ((h.0, subst Q (sym same) k.0), set_intersection-All P Q fuel ss ts h.1 k.1)
  ]
]

-- The fuel that list_services gives is enough: one more changes nothing.
set_intersection-enough :
    (fuel : ℕ) (ss ts : List Bytes)
    → length ss + length ts ≤ fuel
    → set_intersection (suc fuel) ss ts ≡ set_intersection fuel ss ts
unfolding set_intersection
set_intersection-enough zero [] ts h = refl
set_intersection-enough zero (s ∷ ss) ts h = absurd (omega arith)
set_intersection-enough (suc fuel) [] ts h = refl
set_intersection-enough (suc fuel) (s ∷ ss) [] h = refl
set_intersection-enough (suc fuel) (s ∷ ss) (t ∷ ts) h = elim (Bool-cases (text_less s t)) [
  | inl e ↦ rw e (set_intersection-enough fuel ss (t ∷ ts) (omega arith))
  | inr e ↦ elim (Bool-cases (text_less t s)) [
    | inl f ↦ rw (e, f) (set_intersection-enough fuel (s ∷ ss) ts (omega arith))
    | inr f ↦ rw (e, f) (ap (◌∷◌ s) (set_intersection-enough fuel ss ts (omega arith)))
  ]
]

dumps-All {ℓ} :
    (P : Bytes → Type ℓ) (w : Words) (args : List Bytes) (ss : List Bytes)
    → All P ss
    → All
        (λ d. P d.service × (is_skipped w.skipped d.service ≡ false) × (d.args ≡ args))
        (dumps w args ss)
unfolding dumps
dumps-All P w args [] h = tt
dumps-All P w args (s ∷ ss) h = elim (Bool-cases (is_skipped w.skipped s)) [
  | inl e ↦ rw e (dumps-All P w args ss h.1)
  | inr e ↦ rw e ((h.0, e, refl), dumps-All P w args ss h.1)
]

module _ {ℓ κ} (platform : Platform) (registered : ℕ → List Bytes) (P : Bytes → Type ℓ)
    (Q : Bytes → Type κ) where
  list_services-All :
      (flags : ℕ) (as_proto : Bool)
      → All P (registered flags)
      → All Q (registered platform.flag_proto)
      → All
          (λ s. P s × ((as_proto ≡ false) ⊎ Q s))
          (list_services platform registered flags as_proto)
  unfolding list_services
  list_services-All flags true h k =
      All-weaken (λ s. P s × Q s) (λ s. P s × ((true ≡ false) ⊎ Q s))
        (λ s both. (both.0, inr both.1)) _
        (set_intersection-All P Q _ (sort (registered flags))
          (sort (registered platform.flag_proto)) (sort-All P (registered flags) h)
          (sort-All Q (registered platform.flag_proto) k))
  list_services-All flags false h k =
      All-weaken P (λ s. P s × ((false ≡ false) ⊎ Q s)) (λ s one. (one, inl refl)) _
        (sort-All P (registered flags) h)

  -- Where no service is named, every service that is dumped is one of those registered under the
  -- priority flags and, with --proto, one of those registered for proto dumps; it is not one of the
  -- skipped ones, and it gets the arguments of setServiceArgs.
  pub run_words-All :
      (o : Options) (w : Words)
      → w.services ≡ []
      → All P (registered o.priority_flags)
      → All Q (registered platform.flag_proto)
      → All
          (λ d.
            (P d.service × ((o.as_proto ≡ false) ⊎ Q d.service))
            × (is_skipped w.skipped d.service ≡ false)
            × (d.args ≡ set_service_args platform w.args o.as_proto o.priority_flags))
          (run_words platform registered o w).1
  unfolding run_words is_empty dumps
  run_words-All o w e h k = elim (Bool-cases (is_refused platform registered o w)) [
    | inl r ↦ rw r tt
    | inr r ↦ elim (Bool-cases o.show_list_only) [
      | inl l ↦ rw (r, l) tt
      | inr l ↦
          rw (r, l, e)
            (dumps-All (λ s. P s × ((o.as_proto ≡ false) ⊎ Q s)) w
              (set_service_args platform w.args o.as_proto o.priority_flags)
              (list_services platform registered o.priority_flags o.as_proto)
              (list_services-All o.priority_flags o.as_proto h k))
    ]
  ]
