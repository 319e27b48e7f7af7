-- ===== src/ServiceManager/Directory/Refined.antt =====
-- That the registry of servicemanager/service_manager.c keeps what the directory promises.
use mathlib.Core.Path.{fun_ext, ap₂}
use cmds.Common.{
  ℕ, ◌≡◌, ◌≢◌, ◌≤◌, refl, sym, ap, ◌∙◌, Bool, true, false, List, [], ◌∷◌, Bytes, bytes_eq, Option,
  none, some, ◌==◌, ==_iff, if◌then◌else◌, length, arith, Bool-cases, Option-cases, inl, inr,
}
use cmds.ServiceManager.{
  Aids, SvcInfo, Manager, start, find_svc, find_at, set_handle, svcinfo_death, dead_binder, link,
  override, insert_svc, check_mac_perms, handle_for, do_find_service, do_add_service,
}
use cmds.ServiceManager.Lookup.{Distinct, override-svclist}
use cmds.ServiceManager.Balance.{IsSound, start-IsSound, Step-IsSound}
use cmds.ServiceManager.Reach.{
  add, death, IsRequest, IsRequest-dec, add_refused, add_no_memory, add_override, add_insert,
}
use cmds.ServiceManager.Directory.{
  Entry, Directory, empty, put, is_request, enter, register, bury, notice, ask, Event, lookup,
  registration, died, found, accepted, nothing, answers, promised, IsFreshAlong,
}

unfoldable entry_of : Option SvcInfo → Option Entry
entry_of none = none
entry_of (some si) =
    some (record { server = si.handle; cookie = si.address; open_to_isolated = si.allow_isolated })

-- What a registry stands for.
unfoldable view : Manager → Directory
view m s = entry_of (find_svc s m.svclist)

ask-entry_of :
    (aids : Aids) (s : Bytes) (uid : ℕ) (o : Option SvcInfo)
    → ask aids uid (entry_of o) ≡ handle_for aids uid s o
unfolding ask entry_of handle_for check_mac_perms
ask-entry_of aids s uid none = refl
ask-entry_of aids s uid (some si) = ground arith

ask-view :
    (aids : Aids) (m : Manager) (s : Bytes) (uid : ℕ)
    → ask aids uid (view m s) ≡ do_find_service aids m s uid
unfolding view do_find_service
ask-view aids m s uid = ask-entry_of aids s uid (find_svc s m.svclist)

put-view :
    (m n : Manager) (s : Bytes) (si : SvcInfo)
    → ((j : Bytes)
        → find_svc j n.svclist ≡ (if bytes_eq j s then some si else find_svc j m.svclist))
    → (e : Entry) → entry_of (some si) ≡ some e
    → view n ≡ put s e (view m)
unfolding view put
put-view m n s si h e q = fun_ext (λ j. elim (Bool-cases (bytes_eq j s)) [
  | inl hit ↦ rw (h j, hit) q
  | inr miss ↦ rw (h j, miss) refl
])

is_request-true : (s : Bytes) (h : ℕ) → IsRequest s h → is_request s h ≡ true
unfolding is_request
is_request-true s h r = ground (arith, r.handle, r.named, r.fits)

is_request-false : (s : Bytes) (h : ℕ) → ¬ IsRequest s h → is_request s h ≡ false
unfolding is_request
is_request-false s h bad = ground (
  arith,
  λ (a : h ≢ 0) (b : length s ≢ 0) (c : length s ≤ 127).
      bad (record { handle = a; named = b; fits = c }),
)

module _ (m : Manager) (s : Bytes) (h : ℕ) (allow : Bool) (pri : ℕ) (memory : Option ℕ) where
  view-override :
      (si : SvcInfo)
      → Distinct m.svclist
      → find_svc s m.svclist ≡ some si
      → (view (override m si h), true) ≡ enter s h allow memory (view m s) (view m)
  unfolding enter view entry_of
  view-override si d e = rw e (
      ap (λ v. (v, true))
        (put-view m (override m si h) s (record si { handle = h })
          (λ j. override-svclist m s si h j d e)
          (record { server = h; cookie = si.address; open_to_isolated = si.allow_isolated }) refl))

  view-insert :
      (a : ℕ)
      → find_svc s m.svclist ≡ none
      → memory ≡ some a
      → (view (insert_svc m s h allow pri a), true) ≡ enter s h allow memory (view m s) (view m)
  unfolding enter view entry_of insert_svc link find_svc
  view-insert a e q =
      rw (e, q)
        (ap (λ v. (v, true))
          (put-view m (insert_svc m s h allow pri a) s
            (record {
              address = a;
              handle = h;
              allow_isolated = allow;
              dumpsys_priority = pri;
              name = s;
            })
            (λ j. refl) (record { server = h; cookie = a; open_to_isolated = allow }) refl))

  view_no_memory :
      find_svc s m.svclist ≡ none
      → memory ≡ none
      → enter s h allow memory (view m s) (view m) ≡ (view m, false)
  unfolding enter view entry_of
  view_no_memory e q = rw (e, q) refl

  -- A registration does to what the registry stands for what it does to a directory.
  view-do_add_service :
      Distinct m.svclist
      → (view (do_add_service m s h allow pri memory).0, (do_add_service m s h allow pri memory).1)
        ≡ register s h allow memory (view m)
  unfolding register
  view-do_add_service d = elim (IsRequest-dec m s h allow pri memory) [
    | no bad ↦ rw (add_refused m s h allow pri memory bad, is_request-false s h bad) refl
    | yes r ↦ elim (Option-cases (find_svc s m.svclist)) [
      | inr (si, e) ↦
          rw (add_override m s h allow pri memory si r e, is_request-true s h r)
            (view-override si d e)
      | inl e ↦ elim (Option-cases memory) [
        | inl q ↦
            rw (add_no_memory m s h allow pri memory e q, is_request-true s h r)
              (sym (view_no_memory e q))
        | inr (a, q) ↦
            rw (add_insert m s h allow pri memory a r e q, is_request-true s h r)
              (view-insert a e q)
      ]
    ]
  ]

-- No record at the address, so none that a name finds is at it.
found_elsewhere :
    (a : ℕ) (j : Bytes) (list : List SvcInfo)
    → find_at a list ≡ none
    → bury a (entry_of (find_svc j list)) ≡ entry_of (find_svc j list)
unfolding find_at find_svc bury entry_of
found_elsewhere a j [] e = refl
found_elsewhere a j (x ∷ list) e = ground (arith, found_elsewhere a j list)

entry_of-set_handle :
    (a : ℕ) (j : Bytes) (list : List SvcInfo)
    → Distinct list
    → entry_of (find_svc j (set_handle a 0 list)) ≡ bury a (entry_of (find_svc j list))
unfolding set_handle find_svc bury entry_of
entry_of-set_handle a j [] d = refl
entry_of-set_handle a j (x ∷ list) d = elim (Bool-cases (x.address == a)) [
  | inl hit ↦
      let other : bury x.address (entry_of (find_svc j list)) ≡ entry_of (find_svc j list) =
        found_elsewhere x.address j list d.0 in
      ground (arith, other)
  | inr miss ↦ ground (arith, entry_of-set_handle a j list d.2)
]

found_at : (a : ℕ) (list : List SvcInfo) (si : SvcInfo) → find_at a list ≡ some si → si.address ≡ a
unfolding find_at
found_at a [] si e = cc
found_at a (x ∷ list) si e = ground (arith, ==_iff x.address a, found_at a list si)

set_handle-same :
    (a h : ℕ) (list : List SvcInfo) (si : SvcInfo)
    → find_at a list ≡ some si
    → si.handle ≡ h
    → set_handle a h list ≡ list
unfolding find_at set_handle
set_handle-same a h [] si e z = refl
set_handle-same a h (x ∷ list) si e z = ground (arith, set_handle-same a h list si)

view-svcinfo_death :
    (m : Manager) (a : ℕ) (si : SvcInfo)
    → Distinct m.svclist
    → find_at a m.svclist ≡ some si
    → view (svcinfo_death m si) ≡ notice a (view m)
unfolding view notice svcinfo_death
view-svcinfo_death m a si d e =
    let at : si.address ≡ a = found_at a m.svclist si e in
    let buried : (j : Bytes)
        → entry_of (find_svc j (set_handle a 0 m.svclist))
          ≡ bury a (entry_of (find_svc j m.svclist)) =
      λ j. entry_of-set_handle a j m.svclist d in
    elim (Bool-cases (si.handle == 0)) [
      | inl dead ↦ rw dead (
          fun_ext (λ j.
            ap (λ (list : List SvcInfo). entry_of (find_svc j list))
              (sym (set_handle-same a 0 m.svclist si e ((==_iff si.handle 0).0 dead)))
            ∙ buried j))
      | inr live ↦ rw (live, at) (fun_ext buried)
    ]

view-start : view start ≡ empty
unfolding view empty entry_of find_svc
view-start = refl

view-dead_binder :
    (m : Manager) (a : ℕ) → Distinct m.svclist → view (dead_binder m a) ≡ notice a (view m)
unfolding view notice dead_binder svcinfo_death
view-dead_binder m a d = elim (Option-cases (find_at a m.svclist)) [
  | inl e ↦ rw (e, dead_binder) (fun_ext (λ j. sym (found_elsewhere a j m.svclist e)))
  | inr (si, e) ↦ rw (e, dead_binder) (view-svcinfo_death m a si d e)
]

-- The answers of the registry to any series of lookups, registrations and death notices are those that
-- the directory promises, where malloc gives memory that no record has.
answers-promised :
    (aids : Aids) (es : List Event) (m : Manager)
    → IsSound m
    → IsFreshAlong es m
    → answers aids es m ≡ promised aids es (view m)
unfolding answers promised IsFreshAlong
answers-promised aids [] m v fresh = refl
answers-promised aids (lookup s uid ∷ es) m v fresh =
    ap₂ (λ n more. found n ∷ more) (sym (ask-view aids m s uid))
      (answers-promised aids es m v fresh)
answers-promised aids (registration s h allow pri memory ∷ es) m v fresh =
    let next = do_add_service m s h allow pri memory in
    ap (λ more. accepted next.1 ∷ more)
      (answers-promised aids es next.0 (Step-IsSound (add s h allow pri memory fresh.0) v) fresh.1)
    ∙ ap (λ (r : Directory × Bool). accepted r.1 ∷ promised aids es r.0)
        (view-do_add_service m s h allow pri memory v.distinct)
answers-promised aids (died a ∷ es) m v fresh =
    ap (λ more. nothing ∷ more)
      (answers-promised aids es (dead_binder m a) (Step-IsSound (death a) v) fresh
        ∙ ap (promised aids es) (view-dead_binder m a v.distinct))

-- Whatever the clients ask and register, and whatever services die, from the start on, in any order,
-- and where malloc gives memory that no record has, the answers of the registry are those of a
-- directory that is empty at first: it gives an accepted registration the name, keeps for a name the
-- cookie and the admission of isolated callers of its first registration, and takes a death notice
-- for that of whoever then serves the name of its cookie.
pub answers-start :
    (aids : Aids) (es : List Event)
    → IsFreshAlong es start
    → answers aids es start ≡ promised aids es empty
answers-start aids es fresh =
    answers-promised aids es start start-IsSound fresh ∙ ap (promised aids es) view-start
