-- ===== src/ServiceManager/Handler.antt =====
-- svcmgr_handler of servicemanager/service_manager.c, one transaction at a time. Its caller gives
-- the message, an empty reply and what malloc would give. `accepted` is whether it returns 0.
pub mod Safety
pub mod Replies
pub mod Names
use cmds.Common.{
  ℕ, Bool, true, false, not, List, [], ◌∷◌, Bytes, codes, bytes_eq, Option, none, some, ◌==◌,
  if◌then◌else◌,
}
use cmds.ServiceManager.{Aids, SvcInfo, Manager, do_find_service, do_add_service, nth_service}
use cmds.ServiceManager.Bio.{
  Driver, Message, Reply, bio_get_uint32, bio_get_string16, bio_get_ref, bio_put_uint32,
  bio_put_string16, bio_put_ref,
}

-- struct binder_transaction_data, as far as the handler reads it.
pub record Transaction : Type 0 where
  pub target : ℕ
  pub code : ℕ
  pub sender_euid : ℕ

pub record Handled : Type 0 where
  pub manager : Manager
  pub reply : Reply
  pub accepted : Bool

abbrev pub svcmgr_id : List ℕ
svcmgr_id = codes "android.os.IServiceManager"

abbrev pub svc_mgr_get_service : ℕ
svc_mgr_get_service = 1

abbrev pub svc_mgr_check_service : ℕ
svc_mgr_check_service = 2

abbrev pub svc_mgr_add_service : ℕ
svc_mgr_add_service = 3

abbrev pub svc_mgr_list_services : ℕ
svc_mgr_list_services = 4

-- bio_put_uint32(reply, 0); return 0;
abbrev pub done : Manager → Reply → Handled
done m reply = record { manager = m; reply = bio_put_uint32 reply 0; accepted = true }

abbrev pub refused : Manager → Reply → Handled
refused m reply = record { manager = m; reply = reply; accepted = false }

unfoldable pub put_handle : Driver → Manager → Reply → ℕ → Handled
put_handle driver m reply handle =
    if handle == 0
    then done m reply
    else record { manager = m; reply = bio_put_ref driver reply handle; accepted = true }

unfoldable pub handle_get : Driver → Aids → Manager → ℕ → Reply → Option (List ℕ) → Handled
handle_get driver aids m uid reply none = refused m reply
handle_get driver aids m uid reply (some s) =
    put_handle driver m reply (do_find_service aids m s uid)

abbrev pub added : Reply → Manager × Bool → Handled
added reply (m, false) = refused m reply
added reply (m, true) = done m reply

unfoldable pub handle_add :
    Driver → Manager → Message → Reply → Option ℕ → Option (List ℕ) → Handled
handle_add driver m msg reply memory none = refused m reply
handle_add driver m msg reply memory (some s) =
    let (handle, msg1) = bio_get_ref driver msg in
    let (isolated, msg2) = bio_get_uint32 msg1 in
    let (priority, msg3) = bio_get_uint32 msg2 in
    added reply (do_add_service m s handle (not (isolated == 0)) priority memory)

unfoldable pub put_name : Manager → Reply → Option SvcInfo → Handled
put_name m reply none = refused m reply
put_name m reply (some si) = record {
  manager = m;
  reply = bio_put_string16 reply si.name;
  accepted = true;
}

unfoldable pub handle_list : Manager → Message → Reply → Handled
handle_list m msg reply =
    let (n, msg1) = bio_get_uint32 msg in
    let (priority, msg2) = bio_get_uint32 msg1 in
    put_name m reply (nth_service n priority m.svclist)

-- The switch on the code, behind the header.
unfoldable pub handle_code :
    Driver → Aids → Manager → Transaction → Message → Reply → Option ℕ → Handled
handle_code driver aids m txn msg reply memory =
    if txn.code == svc_mgr_get_service
    then handle_get driver aids m txn.sender_euid reply (bio_get_string16 msg).0
    else if txn.code == svc_mgr_check_service
    then handle_get driver aids m txn.sender_euid reply (bio_get_string16 msg).0
    else if txn.code == svc_mgr_add_service
    then (let (s, rest) = bio_get_string16 msg in handle_add driver m rest reply memory s)
    else if txn.code == svc_mgr_list_services
    then handle_list m msg reply
    else refused m reply

unfoldable pub check_id :
    Driver → Aids → Manager → Transaction → Message → Reply → Option ℕ → Option (List ℕ) → Handled
check_id driver aids m txn msg reply memory none = refused m reply
check_id driver aids m txn msg reply memory (some s) =
    if bytes_eq svcmgr_id s then handle_code driver aids m txn msg reply memory else refused m reply

-- The strict mode policy, the work source and the interface name.
unfoldable pub check_header :
    Driver → Aids → Manager → Transaction → Message → Reply → Option ℕ → Handled
check_header driver aids m txn msg reply memory =
    let (strict_policy, msg1) = bio_get_uint32 msg in
    let (work_source, msg2) = bio_get_uint32 msg1 in
    let (s, msg3) = bio_get_string16 msg2 in check_id driver aids m txn msg3 reply memory s

unfoldable pub svcmgr_handler :
    Driver → Aids → Manager → Transaction → Message → Reply → Option ℕ → Handled
svcmgr_handler driver aids m txn msg reply memory =
    if not (txn.target == 0)
    then refused m reply
    else if txn.code == driver.ping_transaction
    then record { manager = m; reply = reply; accepted = true }
    else check_header driver aids m txn msg reply memory
