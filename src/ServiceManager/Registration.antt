-- ===== src/ServiceManager/Registration.antt =====
-- What clients of servicemanager/service_manager.c find after registrations and death notices.
use cmds.Common.{
  ℕ, ◌≡◌, ◌≢◌, ap, ◌∙◌, Bool, true, not, ◌&&◌, [], ◌∷◌, ◌++◌, Bytes, bytes_eq, bytes_eq_iff,
  bytes_eq_refl, Option, none, some, if◌then◌else◌, arith, Option-cases, inl, inr,
}
use cmds.ServiceManager.{
  Aids, SvcInfo, Manager, release, find_svc, svcinfo_death, dead_binder, link, override, insert_svc,
  is_isolated, check_mac_perms, handle_for, do_find_service, do_add_service,
}
use cmds.ServiceManager.Lookup.{
  Distinct, find_at-found, find_svc-set_handle, override-svclist, override-Distinct,
}
use cmds.ServiceManager.Reach.{IsRequest-dec, add_refused, add_no_memory, add_override, add_insert}

-- Who may look up a name that is registered with `allow`: the first registration of a name decides.
abbrev pub allowed : Option SvcInfo → Bool → Bool
allowed none allow = allow
allowed (some si) allow = si.allow_isolated

module _ (aids : Aids) (m : Manager) (s j : Bytes) (h : ℕ) (allow : Bool) (pri : ℕ)
    (memory : Option ℕ) (uid : ℕ) where
  found_override :
      (si : SvcInfo)
      → Distinct m.svclist
      → h ≢ 0
      → find_svc s m.svclist ≡ some si
      → do_find_service aids (override m si h) j uid ≡ (
          if bytes_eq j s
          then if not si.allow_isolated && is_isolated aids uid then 0 else h
          else do_find_service aids m j uid)
  unfolding do_find_service handle_for check_mac_perms
  found_override si d nz e = rw (override-svclist m s si h j d e) (ground arith)

  found_insert :
      (a : ℕ)
      → h ≢ 0
      → find_svc s m.svclist ≡ none
      → do_find_service aids (insert_svc m s h allow pri a) j uid ≡ (
          if bytes_eq j s
          then if not allow && is_isolated aids uid then 0 else h
          else do_find_service aids m j uid)
  unfolding do_find_service handle_for check_mac_perms insert_svc link find_svc
  found_insert a nz e = ground (arith, bytes_eq_iff j s)

  -- Where names and addresses are unique, after a registration that is accepted, a lookup of the name gives the new handle, but gives 0 to
  -- an isolated caller whom the name's first registration does not let in; a lookup of any other
  -- name gives what it gave.
  pub do_find_service-do_add_service :
      Distinct m.svclist
      → (do_add_service m s h allow pri memory).1 ≡ true
      → do_find_service aids (do_add_service m s h allow pri memory).0 j uid ≡ (
          if bytes_eq j s
          then if not (allowed (find_svc s m.svclist) allow) && is_isolated aids uid then 0 else h
          else do_find_service aids m j uid)
  do_find_service-do_add_service d ok = elim (IsRequest-dec m s h allow pri memory) [
    | no bad ↦ cc (ok, ap (λ (r : Manager × Bool). r.1) (add_refused m s h allow pri memory bad))
    | yes r ↦ elim (Option-cases (find_svc s m.svclist)) [
      | inr (si, e) ↦
          rw (add_override m s h allow pri memory si r e, e) (found_override si d r.handle e)
      | inl e ↦ elim (Option-cases memory) [
        | inl q ↦
            cc (ok, ap (λ (r : Manager × Bool). r.1) (add_no_memory m s h allow pri memory e q))
        | inr (a, q) ↦ rw (add_insert m s h allow pri memory a r e q, e) (found_insert a r.handle e)
      ]
    ]
  ]

module _ (aids : Aids) (m : Manager) (s j : Bytes) (si : SvcInfo) (uid : ℕ) where
  -- Where names and addresses are unique, after the death notice of a service its name gives 0, and
  -- every other name what it gave.
  do_find_service-dead_binder :
      Distinct m.svclist
      → find_svc s m.svclist ≡ some si
      → do_find_service aids (dead_binder m si.address) j uid
        ≡ (if bytes_eq j s then 0 else do_find_service aids m j uid)
  unfolding dead_binder svcinfo_death do_find_service handle_for
  do_find_service-dead_binder d e =
      rw (find_at-found s m.svclist si d e, dead_binder)
        (ground (arith, find_svc-set_handle j s 0 m.svclist si d e, bytes_eq_iff j s))

overridden :
    (m : Manager) (s : Bytes) (si : SvcInfo) (h : ℕ)
    → Distinct m.svclist
    → find_svc s m.svclist ≡ some si
    → find_svc s (override m si h).svclist ≡ some (record si { handle = h })
overridden m s si h d e = override-svclist m s si h s d e ∙ ground (arith, bytes_eq_refl s)

dead_binder-commands :
    (m : Manager) (s : Bytes) (si : SvcInfo)
    → Distinct m.svclist
    → find_svc s m.svclist ≡ some si
    → si.handle ≢ 0
    → (dead_binder m si.address).commands ≡ m.commands ++ release si.handle ∷ []
unfolding dead_binder svcinfo_death
dead_binder-commands m s si d e nz =
    rw (find_at-found s m.svclist si d e, dead_binder) (ground arith)

-- Where names and addresses are unique, the address of a record outlives the service that it was
-- made for: after an override by a handle that is not 0, a notice
-- that carries it drops the new service, although that one has not died, and gives up the reference
-- to it.
pub override-stale_death :
    (aids : Aids) (m : Manager) (s : Bytes) (si : SvcInfo) (h uid : ℕ)
    → Distinct m.svclist
    → h ≢ 0
    → find_svc s m.svclist ≡ some si
    → (do_find_service aids (dead_binder (override m si h) si.address) s uid ≡ 0)
      × ((dead_binder (override m si h) si.address).commands
          ≡ (override m si h).commands ++ release h ∷ [])
override-stale_death aids m s si h uid d nz e =
    let found = overridden m s si h d e in
    let distinct = override-Distinct m si h d in
    (
      do_find_service-dead_binder aids (override m si h) s s (record si { handle = h }) uid distinct
            found
          ∙ ground (arith, bytes_eq_refl s),
      dead_binder-commands (override m si h) s (record si { handle = h }) distinct found nz,
    )
