-- ===== src/ServiceManager/Parse/Tests.antt =====
-- The theorems on binder_parse of servicemanager/binder.c at a small buffer.
use cmds.Common.{
  ℕ, ◌+◌, ◌<◌, ◌≡◌, refl, false, List, [], ◌∷◌, ◌++◌, Bytes, Option, none, some, length, replicate,
  All, arith,
}
use cmds.ServiceManager.{Aids, SvcInfo, Manager, start, find_at, acquire}
use cmds.ServiceManager.Reach.{IsFresh}
use cmds.ServiceManager.Balance.{IsSound, start-IsSound}
use cmds.ServiceManager.Bio.{Driver}
use cmds.ServiceManager.Handler.{svcmgr_handler}
use cmds.ServiceManager.Parse.{
  Incoming, Protocol, Server, Parser, going, handle, is_record, binder_parse,
}
use cmds.ServiceManager.Parse.Sound.{IsAccounted, binder_parse-IsSound}
use cmds.ServiceManager.Parse.InOrder.{
  Item, silent, counted, release, transacted, dead, reply_failed, AllHonest, IsHonest, handled,
  handed, IsProtocol, IsWhole, buffer, all_handled, binder_parse-buffer,
}

abbrev ping : Bytes → Incoming
ping block = record {
  txn = record { target = 0; code = 95; sender_euid = 1000 };
  message = record { rest = []; offset = 0; offs = []; overflow = false };
  buffer = 16;
  one_way = false;
}

abbrev protocol : Protocol
protocol = record {
  noop = 12;
  transaction_complete = 6;
  increfs = 7;
  acquire = 8;
  release = 9;
  decrefs = 10;
  transaction = 2;
  transaction_sec_ctx = 1;
  reply = 3;
  dead_binder = 15;
  failed_reply = 17;
  dead_reply = 5;
  ptr_cookie_size = 16;
  transaction_size = 64;
  secctx_size = 72;
  incoming = ping;
}

abbrev driver : Driver
driver = record {
  ping_transaction = 95;
  binder_type_handle = 1;
  object_size = 24;
  object_type = λ obj. 1;
  object_handle = λ obj. 5;
  encode_ref = λ h. [];
}

abbrev aids : Aids
aids = record { user = 100000; isolated_start = 99000; isolated_end = 99999 }

-- An address beyond those in use.
abbrev total : List SvcInfo → ℕ
total [] = 0
total (si ∷ list) = si.address + total list

abbrev beyond_all : Manager → Option ℕ
beyond_all m = some (1 + total m.svclist)

find_at-total : (a : ℕ) (list : List SvcInfo) → total list < a → find_at a list ≡ none
unfolding find_at
find_at-total a [] h = refl
find_at-total a (si ∷ list) h = ground (arith, find_at-total a list)

abbrev server : Server
server = record { manager = start; sent = [] }

-- The manager of one service, which the driver reports dead after a transaction.
abbrev served : Server
served = record {
  manager = record {
    svclist =
        record {
          address = 16;
          handle = 3;
          allow_isolated = false;
          dumpsys_priority = 0;
          name = 97 ∷ [];
        }
        ∷ [];
    commands = acquire 3 ∷ [];
  };
  sent = [];
}

abbrev items : List Item
items =
    silent
    ∷ counted release (replicate 16 0)
    ∷ transacted (replicate 64 0)
    ∷ dead (16 ∷ replicate 7 0)
    ∷ reply_failed
    ∷ []

protocol-IsProtocol : IsProtocol protocol
protocol-IsProtocol = record { different = ground arith; short = ground arith }

items-IsWhole : All (IsWhole protocol) items
unfolding IsWhole
items-IsWhole = (tt, (refl, (refl, (refl, (tt, tt)))))

items-AllHonest :
    AllHonest protocol
      (some (handle driver aids (λ at. 0) beyond_all))
      items
      (record { server = served; r = going; bio = false; got = none })
unfolding AllHonest IsHonest handled handed is_record find_at handle svcmgr_handler
items-AllHonest = (tt, (tt, (tt, (refl, (tt, tt)))))

binder_parse-buffer_example :
    binder_parse protocol
      (some (handle driver aids (λ at. 0) beyond_all))
      false
      (length (buffer protocol items))
      (buffer protocol items ++ 255 ∷ [])
      served
    ≡ some (
        all_handled protocol
          (some (handle driver aids (λ at. 0) beyond_all))
          items
          (record { server = served; r = going; bio = false; got = none }))
binder_parse-buffer_example =
    binder_parse-buffer protocol (some (handle driver aids (λ at. 0) beyond_all)) false items
      (255 ∷ []) served protocol-IsProtocol items-IsWhole items-AllHonest

beyond_all-IsFresh : (m : Manager) → IsFresh (beyond_all m) m
beyond_all-IsFresh m = find_at-total (1 + total m.svclist) m.svclist (omega arith)

binder_parse-IsSound_example :
    (p : Parser) × (binder_parse protocol
        (some (handle driver aids (λ at. 0) beyond_all))
        false
        3
        (12 ∷ 0 ∷ 0 ∷ [])
        server
      ≡ some p)
    × IsSound p.server.manager
    × IsAccounted p.r p.server.manager
binder_parse-IsSound_example =
    binder_parse-IsSound protocol driver aids (λ at. 0) beyond_all beyond_all-IsFresh false 3
      (12 ∷ 0 ∷ 0 ∷ []) server start-IsSound
