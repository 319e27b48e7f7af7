-- ===== src/ServiceManager/Reach.antt =====
-- The states that servicemanager/service_manager.c reaches: registrations, with memory from malloc
-- that is not in use, and death notices, in any order.
use cmds.Common.{
  ℕ, ◌≡◌, ◌≢◌, ◌≤◌, Bool, true, false, Bytes, Option, none, some, arith, Option-cases, inl, inr,
  length,
}
use native.Mathlib.Decide.{dec_le, ℕ_discrete}
use cmds.ServiceManager.{
  SvcInfo, Manager, start, check_mac_perms, find_svc, find_at, dead_binder, override, insert_svc,
  do_add_service,
}

-- What malloc gives is not the address of a record in use.
abbrev pub IsFresh : Option ℕ → Manager → Type 0
IsFresh none m = Unit
IsFresh (some a) m = find_at a m.svclist ≡ none

pub data Step (m : Manager) : Manager → Type 0 where
  add :
      (s : Bytes) (handle : ℕ) (allow_isolated : Bool) (priority : ℕ) (memory : Option ℕ)
      → IsFresh memory m
      → Step m (do_add_service m s handle allow_isolated priority memory).0
  death : (cookie : ℕ) → Step m (dead_binder m cookie)

pub data Reach : Manager → Type 0 where
  here : Reach start
  next : {m n : Manager} → Reach m → Step m n → Reach n

-- What a registration is held to: a handle, and a name of 1 to 127 units.
pub record IsRequest (s : Bytes) (h : ℕ) : Type 0 where
  pub handle : h ≢ 0
  pub named : length s ≢ 0
  pub fits : length s ≤ 127

module _ (m : Manager) (s : Bytes) (h : ℕ) (allow : Bool) (pri : ℕ) (memory : Option ℕ) where
  pub add_refused : ¬ IsRequest s h → do_add_service m s h allow pri memory ≡ (m, false)
  unfolding do_add_service
  add_refused bad = ground (
    arith,
    λ (a : h ≢ 0) (b : length s ≢ 0) (c : length s ≤ 127).
        bad (record { handle = a; named = b; fits = c }),
  )

  pub add_override :
      (si : SvcInfo)
      → IsRequest s h
      → find_svc s m.svclist ≡ some si
      → do_add_service m s h allow pri memory ≡ (override m si h, true)
  unfolding do_add_service check_mac_perms
  add_override si r e = ground arith

  pub add_insert :
      (a : ℕ)
      → IsRequest s h
      → find_svc s m.svclist ≡ none
      → memory ≡ some a
      → do_add_service m s h allow pri memory ≡ (insert_svc m s h allow pri a, true)
  unfolding do_add_service check_mac_perms
  add_insert a r e q = ground arith

  pub add_no_memory :
      find_svc s m.svclist ≡ none
      → memory ≡ none
      → do_add_service m s h allow pri memory ≡ (m, false)
  unfolding do_add_service check_mac_perms
  add_no_memory e q = ground arith

  pub IsRequest-dec : Dec (IsRequest s h)
  IsRequest-dec = elim (ℕ_discrete h 0) [
    | yes z ↦ no (λ r. r.handle z)
    | no nz ↦ elim (dec_le (length s) 127) [
      | no big ↦ no (λ r. big r.fits)
      | yes small ↦ elim (ℕ_discrete (length s) 0) [
        | yes z ↦ no (λ r. r.named z)
        | no named ↦ yes (record { handle = nz; named = named; fits = small })
      ]
    ]
  ]

  -- The cases of a registration: it is refused, or it overrides a known name, or inserts a new one.
  pub do_add_service_cases {ℓ} :
      (P : Manager → Type ℓ)
      → P m
      → ((si : SvcInfo) → IsRequest s h → find_svc s m.svclist ≡ some si → P (override m si h))
      → ((a : ℕ)
          → IsRequest s h
          → find_svc s m.svclist ≡ none
          → memory ≡ some a
          → P (insert_svc m s h allow pri a))
      → P (do_add_service m s h allow pri memory).0
  do_add_service_cases P same over new = elim IsRequest-dec [
    | no bad ↦ rw (add_refused bad) same
    | yes r ↦ elim (Option-cases (find_svc s m.svclist)) [
      | inr (si, e) ↦ rw (add_override si r e) (over si r e)
      | inl e ↦ elim (Option-cases memory) [
        | inl q ↦ rw (add_no_memory e q) same
        | inr (a, q) ↦ rw (add_insert a r e q) (new a r e q)
      ]
    ]
  ]
