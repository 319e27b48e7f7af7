-- ===== src/ServiceManager/Handler/Replies.antt =====
-- What servicemanager/service_manager.c answers to the messages that its clients send.
use cmds.Common.{
  ℕ, zero, suc, ◌-◌, ◌<◌, ◌^◌, ◌≡◌, ◌≢◌, ◌⊎◌, refl, ◌∙◌, true, false, List, [], ◌∷◌, ◌++◌, Bytes,
  bytes_eq, Option, ◌==◌, if◌then◌else◌, arith, length, get_elem?, bit_and,
}
use cmds.ServiceManager.{Aids, SvcInfo, Manager, do_find_service, nth_service}
use cmds.ServiceManager.Bio.{Driver, Message, Reply, bio_put_uint32, bio_put_ref, word, aligned}
use cmds.ServiceManager.Bio.RoundTrip.{
  Units, string16, IsPad, bio_get_uint32-word, bio_get_string16-string16,
}
use cmds.ServiceManager.Handler.{
  Transaction, svcmgr_id, put_handle, handle_get, put_name, handle_list, handle_code, check_id,
  check_header, svcmgr_handler,
}

-- The header that every request but a ping begins with.
abbrev pub header : ℕ → ℕ → Bytes → Bytes → Bytes
header strict_policy work_source pad body =
    word strict_policy ++ (word work_source ++ string16 svcmgr_id pad body)

abbrev pub message : Bytes → List ℕ → Message
message rest offs = record { rest = rest; offset = 0; offs = offs; overflow = false }

-- The header has 68 bytes: two words, a length, 26 units, a 0, and 2 bytes of padding.
abbrev past_header : Bytes → List ℕ → Message
past_header rest offs = record { rest = rest; offset = 68; offs = offs; overflow = false }

check_header-header :
    (driver : Driver) (aids : Aids) (m : Manager) (txn : Transaction) (reply : Reply)
    (memory : Option ℕ) (strict_policy work_source : ℕ) (pad body : Bytes) (offs : List ℕ)
    → strict_policy < 2 ^ 32
    → work_source < 2 ^ 32
    → IsPad svcmgr_id pad
    → check_header driver aids m txn
        (message (header strict_policy work_source pad body) offs)
        reply
        memory
      ≡ handle_code driver aids m txn (past_header body offs) reply memory
unfolding check_header check_id aligned bytes_eq
check_header-header driver aids m txn reply memory strict work pad body offs hs hw hp = rw (
  bio_get_uint32-word strict (word work ++ string16 svcmgr_id pad body) 0 offs false hs,
  bio_get_uint32-word work (string16 svcmgr_id pad body) 4 offs false hw,
  bio_get_string16-string16 svcmgr_id pad body 8 offs false (omega arith) (omega arith) hp,
)

module _ (driver : Driver) (aids : Aids) (m : Manager) (txn : Transaction) (reply : Reply)
    (memory : Option ℕ) (strict_policy work_source : ℕ) (pad : Bytes) (offs : List ℕ)
    (strict_fits : strict_policy < 2 ^ 32) (work_fits : work_source < 2 ^ 32)
    (padded : IsPad svcmgr_id pad) (to_us : txn.target ≡ 0)
    (no_ping : txn.code ≢ driver.ping_transaction) where
  handler_code :
      (body : Bytes)
      → svcmgr_handler driver aids m txn
          (message (header strict_policy work_source pad body) offs)
          reply
          memory
        ≡ handle_code driver aids m txn (past_header body offs) reply memory
  unfolding svcmgr_handler
  handler_code body =
      ground (arith, to_us, no_ping)
      ∙ check_header-header driver aids m txn reply memory strict_policy work_source pad body offs
          strict_fits work_fits padded

  -- A request for a service to servicemanager, by either code, with the header that clients write and
  -- numbers of 32 bits, where the code is not that of a ping, changes nothing and is answered by a
  -- reference to what a lookup of the name finds for the caller, or by the number 0 where that is
  -- nothing.
  pub svcmgr_handler-get :
      (s : List ℕ) (name_pad tail : Bytes)
      → Units s
      → length s < 2 ^ 32
      → IsPad s name_pad
      → (txn.code ≡ 1) ⊎ (txn.code ≡ 2)
      → svcmgr_handler driver aids m txn
          (message (header strict_policy work_source pad (string16 s name_pad tail)) offs)
          reply
          memory
        ≡ (if do_find_service aids m s txn.sender_euid == 0
            then record { manager = m; reply = bio_put_uint32 reply 0; accepted = true }
            else record {
              manager = m;
              reply = bio_put_ref driver reply (do_find_service aids m s txn.sender_euid);
              accepted = true;
            })
  unfolding handle_code handle_get put_handle
  svcmgr_handler-get s name_pad tail h fits p code =
      handler_code (string16 s name_pad tail)
      ∙ ground (arith, bio_get_string16-string16 s name_pad tail 68 offs false h fits p)

-- The services that support a priority, in the order of the list.
pub supporting : ℕ → List SvcInfo → List SvcInfo
supporting priority [] = []
supporting priority (si ∷ list) =
    if bit_and si.dumpsys_priority priority == 0
    then supporting priority list
    else si ∷ supporting priority list

suc_pred : (n : ℕ) → suc n - 1 ≡ n
suc_pred n = omega arith

pub nth_service-supporting :
    (n priority : ℕ) (list : List SvcInfo)
    → nth_service n priority list ≡ get_elem? (supporting priority list) n
unfolding nth_service supporting
nth_service-supporting n priority [] = refl
nth_service-supporting zero priority (si ∷ list) =
    ground (arith, nth_service-supporting zero priority list)
nth_service-supporting (suc n) priority (si ∷ list) = ground (
  arith,
  suc_pred n,
  nth_service-supporting n priority list,
  nth_service-supporting (suc n) priority list,
)

module _ (driver : Driver) (aids : Aids) (m : Manager) (txn : Transaction) (reply : Reply)
    (memory : Option ℕ) (strict_policy work_source : ℕ) (pad : Bytes) (offs : List ℕ)
    (strict_fits : strict_policy < 2 ^ 32) (work_fits : work_source < 2 ^ 32)
    (padded : IsPad svcmgr_id pad) (to_us : txn.target ≡ 0)
    (no_ping : txn.code ≢ driver.ping_transaction) (n priority : ℕ) (n_fits : n < 2 ^ 32)
    (priority_fits : priority < 2 ^ 32) (tail : Bytes) (code : txn.code ≡ 4) where
  -- A request for item n of the list, with the header that clients write and numbers of 32 bits, where
  -- the code is not that of a ping, is answered by the name of service n of those that support the
  -- priority, the newest first, and is refused where there is no such service.
  svcmgr_handler-list :
      svcmgr_handler driver aids m txn
        (message (header strict_policy work_source pad (word n ++ (word priority ++ tail))) offs)
        reply
        memory
      ≡ put_name m reply (get_elem? (supporting priority m.svclist) n)
  unfolding handle_code handle_list
  svcmgr_handler-list =
      handler_code driver aids m txn reply memory strict_policy work_source pad offs strict_fits
        work_fits padded to_us no_ping (word n ++ (word priority ++ tail))
      ∙ rw code (
          rw (
            bio_get_uint32-word n (word priority ++ tail) 68 offs false n_fits,
            bio_get_uint32-word priority tail 72 offs false priority_fits,
            nth_service-supporting n priority m.svclist,
          ))
