-- ===== src/ServiceManager.antt =====
-- servicemanager/service_manager.c: the registry of services, its lookups, registrations and death
-- notices. A service record keeps its address, by which a death notice names it; names are lists of
-- 16-bit units, and `len` is their length. What is sent to the driver is kept, oldest first.
pub mod Lookup
pub mod Reach
pub mod Balance
pub mod Registration
pub mod Directory
pub mod Parse
pub mod Bio
pub mod Handler
pub mod Tests
use cmds.Common.{
  ℕ, ◌-◌, ◌%◌, Bool, true, false, not, ◌&&◌, ◌||◌, List, [], ◌∷◌, ◌++◌, Bytes, bytes_eq, Option,
  none, some, ◌==◌, ltb, leb, if◌then◌else◌, bit_and, length,
}

-- The user id ranges of <cutils/android_filesystem_config.h>.
pub record Aids : Type 0 where
  pub user : ℕ
  pub isolated_start : ℕ
  pub isolated_end : ℕ

pub record SvcInfo : Type 0 where
  pub address : ℕ
  pub handle : ℕ
  pub allow_isolated : Bool
  pub dumpsys_priority : ℕ
  pub name : Bytes

-- BC_ACQUIRE, BC_RELEASE and BC_REQUEST_DEATH_NOTIFICATION, the last with its cookie.
pub data Command : Type 0 where
  acquire : ℕ → Command
  release : ℕ → Command
  link_to_death : ℕ → ℕ → Command

pub record Manager : Type 0 where
  pub svclist : List SvcInfo
  pub commands : List Command

abbrev pub start : Manager
start = record { svclist = []; commands = [] }

-- check_mac_perms returns true in its first line, and so do the three checks made of it.
unfoldable pub check_mac_perms : Bytes → Bool
check_mac_perms name = true

unfoldable pub find_svc : Bytes → List SvcInfo → Option SvcInfo
find_svc s [] = none
find_svc s (si ∷ list) = if bytes_eq s si.name then some si else find_svc s list

unfoldable pub find_at : ℕ → List SvcInfo → Option SvcInfo
find_at a [] = none
find_at a (si ∷ list) = if si.address == a then some si else find_at a list

-- si->handle = handle, through a pointer.
unfoldable pub set_handle : ℕ → ℕ → List SvcInfo → List SvcInfo
set_handle a handle [] = []
set_handle a handle (si ∷ list) =
    if si.address == a then record si { handle = handle } ∷ list else si ∷ set_handle a handle list

-- svcinfo_death, called with a record.
unfoldable pub svcinfo_death : Manager → SvcInfo → Manager
svcinfo_death m si = if si.handle == 0 then m else record {
  svclist = set_handle si.address 0 m.svclist;
  commands = m.commands ++ release si.handle ∷ [];
}

-- The call death->func(bs, death->ptr) of binder_parse, for the cookie of a record, which is its address.
-- The code follows any other cookie too, into memory that is not modelled: binder_parse stops there, in
-- Parse, and here such a cookie changes nothing.
unfoldable pub dead_binder : Manager → ℕ → Manager
dead_binder m cookie = elim (find_at cookie m.svclist) [ none ↦ m | some si ↦ svcinfo_death m si ]

unfoldable pub is_isolated : Aids → ℕ → Bool
is_isolated aids uid =
    let appid = uid % aids.user in leb aids.isolated_start appid && leb appid aids.isolated_end

-- The handle, or 0.
unfoldable pub handle_for : Aids → ℕ → Bytes → Option SvcInfo → ℕ
handle_for aids uid s none = 0
handle_for aids uid s (some si) =
    if si.handle == 0
    then 0
    else if not si.allow_isolated && is_isolated aids uid
    then 0
    else if not (check_mac_perms s)
    then 0
    else si.handle

unfoldable pub do_find_service : Aids → Manager → Bytes → ℕ → ℕ
do_find_service aids m s uid = handle_for aids uid s (find_svc s m.svclist)

-- The last two calls of do_add_service.
unfoldable pub link : Manager → ℕ → ℕ → Manager
link m handle a = record m { commands = m.commands ++ acquire handle ∷ link_to_death handle a ∷ [] }

-- A name that is known: the old service is dropped, and only the handle is replaced.
unfoldable pub override : Manager → SvcInfo → ℕ → Manager
override m si handle =
    let dropped = if si.handle == 0 then m else svcinfo_death m si in
    link (record dropped { svclist = set_handle si.address handle dropped.svclist }) handle
      si.address

-- A new name, in the memory that malloc gives.
unfoldable pub insert_svc : Manager → Bytes → ℕ → Bool → ℕ → ℕ → Manager
insert_svc m s handle allow_isolated dumpsys_priority a =
    let si : SvcInfo = record {
      address = a;
      handle = handle;
      allow_isolated = allow_isolated;
      dumpsys_priority = dumpsys_priority;
      name = s;
    } in
    link (record m { svclist = si ∷ m.svclist }) handle a

-- Returns whether it is 0 that the source returns. `memory` is what malloc would give.
unfoldable pub do_add_service : Manager → Bytes → ℕ → Bool → ℕ → Option ℕ → Manager × Bool
do_add_service m s handle allow_isolated dumpsys_priority memory =
    if handle == 0 || length s == 0 || ltb 127 (length s)
    then (m, false)
    else if not (check_mac_perms s)
    then (m, false)
    else elim (find_svc s m.svclist) [
      | some si ↦ (override m si handle, true)
      | none ↦ elim memory [
        | none ↦ (m, false)
        | some a ↦ (insert_svc m s handle allow_isolated dumpsys_priority a, true)
      ]
    ]

-- The walk of SVC_MGR_LIST_SERVICES.
unfoldable pub nth_service : ℕ → ℕ → List SvcInfo → Option SvcInfo
nth_service n priority [] = none
nth_service n priority (si ∷ list) =
    let matches = not (bit_and si.dumpsys_priority priority == 0) in
    if matches && n == 0 then some si else nth_service (if matches then n - 1 else n) priority list
