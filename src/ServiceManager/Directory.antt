-- ===== src/ServiceManager/Directory.antt =====
-- What servicemanager/service_manager.c promises its clients, without its list and its records: a
-- directory that gives for a name who serves it.
pub mod Refined
pub mod Tests
use cmds.Common.{
  ℕ, ◌≡◌, ◌≢◌, ◌≤◌, refl, sym, ap, subst, ◌∙◌, Bool, true, false, not, ◌&&◌, ◌||◌, List, [], ◌∷◌,
  Bytes, bytes_eq, bytes_eq_iff, bytes_eq_refl, Option, none, some, ◌==◌, ==_iff, ltb,
  if◌then◌else◌, length, arith, Bool-cases, Option-cases, inl, inr,
}
use cmds.ServiceManager.{
  Aids, SvcInfo, Manager, start, find_svc, find_at, set_handle, svcinfo_death, dead_binder, link,
  override, insert_svc, is_isolated, check_mac_perms, handle_for, do_find_service, do_add_service,
}
use cmds.ServiceManager.Lookup.{Distinct, override-svclist, override-Distinct, set_handle-Distinct}
use cmds.ServiceManager.Balance.{IsSound, start-IsSound, Step-IsSound}
use cmds.ServiceManager.Reach.{
  add, death, IsFresh, IsRequest, IsRequest-dec, add_refused, add_no_memory, add_override,
  add_insert,
}

-- Who serves a name: a handle, or 0 when its service has died; the cookie of its death notices; and
-- whether isolated callers may know.
pub record Entry : Type 0 where
  pub server : ℕ
  pub cookie : ℕ
  pub open_to_isolated : Bool

abbrev pub Directory : Type 0
Directory = Bytes → Option Entry

unfoldable pub empty : Directory
empty s = none

unfoldable pub put : Bytes → Entry → Directory → Directory
put s e d j = if bytes_eq j s then some e else d j

unfoldable pub is_request : Bytes → ℕ → Bool
is_request s h = not (h == 0) && not (length s == 0) && not (ltb 127 (length s))

-- A registration under a known name changes who serves it, and nothing else; a new name takes the cookie that is offered.
unfoldable pub enter : Bytes → ℕ → Bool → Option ℕ → Option Entry → Directory → Directory × Bool
enter s h allow offer (some e) d = (put s (record e { server = h }) d, true)
enter s h allow none none d = (d, false)
enter s h allow (some a) none d =
    (put s (record { server = h; cookie = a; open_to_isolated = allow }) d, true)

unfoldable pub register : Bytes → ℕ → Bool → Option ℕ → Directory → Directory × Bool
register s h allow offer d = if is_request s h then enter s h allow offer (d s) d else (d, false)

unfoldable pub bury : ℕ → Option Entry → Option Entry
bury a none = none
bury a (some e) = some (if e.cookie == a then record e { server = 0 } else e)

unfoldable pub notice : ℕ → Directory → Directory
notice a d s = bury a (d s)

unfoldable pub ask : Aids → ℕ → Option Entry → ℕ
ask aids uid none = 0
ask aids uid (some e) = if not e.open_to_isolated && is_isolated aids uid then 0 else e.server

pub data Event : Type 0 where
  lookup : Bytes → ℕ → Event
  registration : Bytes → ℕ → Bool → ℕ → Option ℕ → Event
  died : ℕ → Event

pub data Answer : Type 0 where
  found : ℕ → Answer
  accepted : Bool → Answer
  nothing : Answer

-- The answers of the registry, and those of the directory, to a series of events.
module _ (aids : Aids) where
  unfoldable pub answers : List Event → Manager → List Answer
  answers [] m = []
  answers (lookup s uid ∷ es) m = found (do_find_service aids m s uid) ∷ answers es m
  answers (registration s h allow pri memory ∷ es) m =
      let (n, ok) = do_add_service m s h allow pri memory in accepted ok ∷ answers es n
  answers (died a ∷ es) m = nothing ∷ answers es (dead_binder m a)

  unfoldable pub promised : List Event → Directory → List Answer
  promised [] d = []
  promised (lookup s uid ∷ es) d = found (ask aids uid (d s)) ∷ promised es d
  promised (registration s h allow pri memory ∷ es) d =
      let (e, ok) = register s h allow memory d in accepted ok ∷ promised es e
  promised (died a ∷ es) d = nothing ∷ promised es (notice a d)

-- What malloc gives in the course of the events is not in use.
unfoldable pub IsFreshAlong : List Event → Manager → Type 0
IsFreshAlong [] m = Unit
IsFreshAlong (lookup s uid ∷ es) m = IsFreshAlong es m
IsFreshAlong (registration s h allow pri memory ∷ es) m =
    IsFresh memory m × IsFreshAlong es (do_add_service m s h allow pri memory).0
IsFreshAlong (died a ∷ es) m = IsFreshAlong es (dead_binder m a)
