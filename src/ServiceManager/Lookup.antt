-- ===== src/ServiceManager/Lookup.antt =====
-- Names and addresses in the service list of servicemanager/service_manager.c: each stands once, and
-- a registration changes what its own name finds.
use cmds.Common.{
  ℕ, ◌≡◌, refl, List, [], ◌∷◌, Bytes, bytes_eq, bytes_eq_iff, bytes_eq_refl, none, some, ◌==◌,
  ==_iff, ==_refl, if◌then◌else◌, arith, Bool-cases, inl, inr,
}
use cmds.ServiceManager.{
  SvcInfo, Manager, find_svc, find_at, set_handle, svcinfo_death, link, override,
}

-- No two records share an address or a name.
abbrev pub Distinct : List SvcInfo → Type 0
Distinct [] = Unit
Distinct (si ∷ list) =
    (find_at si.address list ≡ none) × (find_svc si.name list ≡ none) × Distinct list

pub name_of_found :
    (s : Bytes) (list : List SvcInfo) (si : SvcInfo) → find_svc s list ≡ some si → si.name ≡ s
unfolding find_svc
name_of_found s [] si e = cc
name_of_found s (x ∷ list) si e = ground (arith, bytes_eq_iff s x.name, name_of_found s list si)

pub find_at-found :
    (s : Bytes) (list : List SvcInfo) (si : SvcInfo)
    → Distinct list
    → find_svc s list ≡ some si
    → find_at si.address list ≡ some si
unfolding find_svc find_at
find_at-found s [] si d e = cc
find_at-found s (x ∷ list) si d e = ground (arith, find_at-found s list si d.2)

-- Replacing a handle hides no record and makes none.
pub find_at-set_handle-none :
    (a b h : ℕ) (list : List SvcInfo)
    → find_at a list ≡ none
    → find_at a (set_handle b h list) ≡ none
unfolding find_at set_handle
find_at-set_handle-none a b h [] e = refl
find_at-set_handle-none a b h (x ∷ list) e = ground (arith, find_at-set_handle-none a b h list)

pub find_svc-set_handle-none :
    (s : Bytes) (b h : ℕ) (list : List SvcInfo)
    → find_svc s list ≡ none
    → find_svc s (set_handle b h list) ≡ none
unfolding find_svc set_handle
find_svc-set_handle-none s b h [] e = refl
find_svc-set_handle-none s b h (x ∷ list) e = ground (arith, find_svc-set_handle-none s b h list)

pub set_handle-Distinct :
    (b h : ℕ) (list : List SvcInfo) → Distinct list → Distinct (set_handle b h list)
unfolding set_handle
set_handle-Distinct b h [] d = tt
set_handle-Distinct b h (x ∷ list) d = ground (
  arith,
  set_handle-Distinct b h list d.2,
  find_at-set_handle-none x.address b h list d.0,
  find_svc-set_handle-none x.name b h list d.1,
)

pub find_at-set_handle :
    (a b h : ℕ) (list : List SvcInfo) (si : SvcInfo)
    → find_at b list ≡ some si
    → find_at a (set_handle b h list)
      ≡ (if a == b then some (record si { handle = h }) else find_at a list)
unfolding find_at set_handle
find_at-set_handle a b h [] si e = cc
find_at-set_handle a b h (x ∷ list) si e =
    ground (arith, ==_iff a b, find_at-set_handle a b h list si)

-- A lookup after the handle of the record named `s` is replaced.
pub find_svc-set_handle :
    (j s : Bytes) (h : ℕ) (list : List SvcInfo) (si : SvcInfo)
    → Distinct list
    → find_svc s list ≡ some si
    → find_svc j (set_handle si.address h list)
      ≡ (if bytes_eq j s then some (record si { handle = h }) else find_svc j list)
unfolding find_svc set_handle
find_svc-set_handle j s h [] si d e = cc
find_svc-set_handle j s h (x ∷ list) si d e = elim (Bool-cases (bytes_eq s x.name)) [
  | inl hit ↦
      let same : x ≡ si = ground arith in
      let name = (bytes_eq_iff s x.name).0 hit in
      rw (← same, ==_refl x.address, name) (ground arith)
  | inr miss ↦
      let found : find_svc s list ≡ some si = ground arith in
      ground (
        arith,
        find_at-found s list si d.2 found,
        find_svc-set_handle j s h list si d.2 found,
        bytes_eq_iff j s,
        bytes_eq_iff j x.name,
        bytes_eq_iff s x.name,
      )
]

-- The list as one registration of a known name leaves it.
pub override-svclist :
    (m : Manager) (s : Bytes) (si : SvcInfo) (h : ℕ) (j : Bytes)
    → Distinct m.svclist
    → find_svc s m.svclist ≡ some si
    → find_svc j (override m si h).svclist
      ≡ (if bytes_eq j s then some (record si { handle = h }) else find_svc j m.svclist)
unfolding override svcinfo_death link
override-svclist m s si h j d e = elim (Bool-cases (si.handle == 0)) [
  | inl dead ↦ rw dead (find_svc-set_handle j s h m.svclist si d e)
  | inr live ↦
      let first = find_svc-set_handle s s 0 m.svclist si d e in
      let dropped : find_svc s (set_handle si.address 0 m.svclist)
          ≡ some (record si { handle = 0 }) =
        ground (arith, first, bytes_eq_refl s) in
      rw live (
        ground (
          arith,
          find_svc-set_handle j s h (set_handle si.address 0 m.svclist) (record si { handle = 0 })
              (set_handle-Distinct si.address 0 m.svclist d) dropped,
          find_svc-set_handle j s 0 m.svclist si d e,
        ))
]

pub override-Distinct :
    (m : Manager) (si : SvcInfo) (h : ℕ) → Distinct m.svclist → Distinct (override m si h).svclist
unfolding override svcinfo_death link
override-Distinct m si h d = ground (
  arith,
  set_handle-Distinct si.address h m.svclist d,
  set_handle-Distinct si.address 0 m.svclist d,
  set_handle-Distinct si.address h (set_handle si.address 0 m.svclist),
)
