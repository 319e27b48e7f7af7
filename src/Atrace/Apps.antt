-- ===== src/Atrace/Apps.antt =====
-- The properties in which atrace/atrace.cpp names the apps to trace.
use cmds.Common.{
  ℕ, ◌+◌, ◌≡◌, refl, sym, ap, true, List, [], ◌∷◌, ◌++◌, Bytes, All, Bool-cases, inl, inr, ◌==◌,
  Lacks, ==_iff,
}
use cmds.CLib.Decimal.{decimal}
use cmds.Atrace.{Action, set_property, System}
use cmds.Atrace.Kernel.{split_at}
use cmds.Atrace.Userspace.{
  trace_apps_number_property, app_property, set_apps, or_clear, set_app_cmdline_property,
}

-- The names between commas.
abbrev pub joined : Bytes → List Bytes → Bytes
joined first [] = first
joined first (next ∷ rest) = first ++ b',' ∷ joined next rest

abbrev pub numbered : ℕ → List Bytes → List Action
numbered i [] = set_property trace_apps_number_property (decimal i) ∷ []
numbered i (app ∷ apps) = set_property (app_property i) app ∷ numbered (i + 1) apps

joined-cons :
    (c : ℕ) (first : Bytes) (rest : List Bytes) → joined (c ∷ first) rest ≡ c ∷ joined first rest
joined-cons c first [] = refl
joined-cons c first (next ∷ rest) = refl

joined-split_at : (s : Bytes) → joined (split_at b',' s).0 (split_at b',' s).1 ≡ s
unfolding split_at
joined-split_at [] = refl
joined-split_at (c ∷ s) = elim (Bool-cases (c == b',')) [
  | inl e ↦ rw (e, joined-split_at s) (ap (λ x. x ∷ s) (sym ((==_iff c b',').0 e)))
  | inr e ↦ rw (e, joined-cons c (split_at b',' s).0 (split_at b',' s).1, joined-split_at s) refl
]

split_at_self-Lacks :
    (c : ℕ) (s : Bytes) → Lacks c (split_at c s).0 × All (Lacks c) (split_at c s).1
unfolding split_at
split_at_self-Lacks c [] = (tt, tt)
split_at_self-Lacks c (x ∷ s) =
    let (first, rest) = split_at_self-Lacks c s in
    elim (Bool-cases (x == c)) [
      | inl e ↦ rw e (tt, (first, rest))
      | inr e ↦ rw e ((e, first), rest)
    ]

module _ (system : System) (all_succeed : (a : Action) → system.succeeds a ≡ true) where
  set_apps-numbered : (i : ℕ) (apps : List Bytes) → set_apps system i apps ≡ (numbered i apps, true)
  unfolding set_apps
  set_apps-numbered i [] =
      rw (all_succeed (set_property trace_apps_number_property (decimal i))) refl
  set_apps-numbered i (app ∷ apps) =
      rw (all_succeed (set_property (app_property i) app), set_apps-numbered (i + 1) apps) refl

  -- Where every property can be set, the properties of the apps are the names of the list in order, numbered
  -- from 0, and last their number, one even for an empty list; the names between commas are the
  -- list again, and none has a comma.
  set_app_cmdline_property-numbered :
      (cmdline : Bytes)
      → (first : Bytes) × (rest : List Bytes) × (set_app_cmdline_property system cmdline
          ≡ (numbered 0 (first ∷ rest), true))
        × (joined first rest ≡ cmdline)
        × Lacks b',' first
        × All (Lacks b',') rest
  unfolding set_app_cmdline_property
  set_app_cmdline_property-numbered cmdline =
      let (first, rest) = split_at b',' cmdline in
      let (h, k) = split_at_self-Lacks b',' cmdline in
      (
        first,
        rest,
        ap (or_clear system) (set_apps-numbered 0 (first ∷ rest)),
        joined-split_at cmdline,
        h,
        k,
      )
