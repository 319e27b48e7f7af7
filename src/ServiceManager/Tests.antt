-- ===== src/ServiceManager/Tests.antt =====
-- Runs of servicemanager/service_manager.c on small registries, and the theorems at them.
use cmds.Common.{
  ◌+◌, ◌≡◌, inl, refl, true, false, not, ◌&&◌, [], ◌∷◌, ◌++◌, Bytes, codes, bytes_eq, none, some,
  ◌==◌, if◌then◌else◌, arith, length, replicate, ltb, ◌-◌, ◌*◌,
}
use cmds.ServiceManager.{
  Aids, SvcInfo, Manager, acquire, release, link_to_death, start, check_mac_perms, find_svc,
  find_at, dead_binder, is_isolated, handle_for, do_find_service, link, override, insert_svc,
  do_add_service,
}
use cmds.ServiceManager.Lookup.{Distinct}
use cmds.ServiceManager.Reach.{add, death, Reach, here, next}
use cmds.ServiceManager.Balance.{IsSound, Step-IsSound, Reach-IsSound}
use cmds.ServiceManager.Registration.{allowed, do_find_service-do_add_service, override-stale_death}
use cmds.ServiceManager.Bio.{
  Driver, Reply, empty_reply, aligned, bio_put_uint32, bio_put_ref, word, unit_bytes, padding,
}
use cmds.ServiceManager.Bio.RoundTrip.{string16}
use cmds.ServiceManager.Handler.{Transaction, put_name, svcmgr_handler}
use cmds.ServiceManager.Handler.Safety.{svcmgr_handler-refused, svcmgr_handler-IsSound}
use cmds.ServiceManager.Handler.Replies.{header, message, svcmgr_handler-get}
use cmds.ServiceManager.Handler.Names.{put_name-written}

abbrev aids : Aids
aids = record { user = 100000; isolated_start = 99000; isolated_end = 99999 }

abbrev power : SvcInfo
power = record {
  address = 1;
  handle = 7;
  allow_isolated = true;
  dumpsys_priority = 4;
  name = codes "power";
}

abbrev media : SvcInfo
media = record {
  address = 2;
  handle = 8;
  allow_isolated = false;
  dumpsys_priority = 8;
  name = codes "media";
}

-- Two services, `media` registered last.
abbrev two : Manager
two = record {
  svclist = media ∷ power ∷ [];
  commands = acquire 7 ∷ link_to_death 7 1 ∷ acquire 8 ∷ link_to_death 8 2 ∷ [];
}

two_registered :
    (do_add_service
      (do_add_service start (codes "power") 7 true 4 (some 1)).0
      (codes "media")
      8
      false
      8
      (some 2)).0
    ≡ two
unfolding do_add_service check_mac_perms insert_svc link find_svc bytes_eq
two_registered = refl

two-Distinct : Distinct two.svclist
unfolding find_at find_svc bytes_eq
two-Distinct = (refl, refl, (refl, refl, tt))

two-Reach : Reach two
unfolding do_add_service check_mac_perms insert_svc link find_svc bytes_eq find_at
two-Reach =
    next (next here (add (codes "power") 7 true 4 (some 1) refl))
      (add (codes "media") 8 false 8 (some 2) refl)

Reach-IsSound_example : IsSound two
Reach-IsSound_example = Reach-IsSound two-Reach

Step-IsSound_example : IsSound (dead_binder two 1)
Step-IsSound_example = Step-IsSound (death 1) Reach-IsSound_example

-- An isolated caller does not see `media`.
isolated_lookups :
    (do_find_service aids two (codes "media") 99001 ≡ 0)
    × (do_find_service aids two (codes "power") 99001 ≡ 7)
unfolding do_find_service handle_for check_mac_perms is_isolated find_svc bytes_eq
isolated_lookups = (refl, refl)

accepts_media : (do_add_service two (codes "media") 9 true 8 none).1 ≡ true
unfolding do_add_service check_mac_perms find_svc bytes_eq
accepts_media = refl

do_find_service-do_add_service_example :
    do_find_service aids (do_add_service two (codes "media") 9 true 8 none).0 (codes "media") 1000
    ≡ (if bytes_eq (codes "media") (codes "media")
        then if not (allowed (find_svc (codes "media") two.svclist) true) && is_isolated aids 1000
          then 0
          else 9
        else do_find_service aids two (codes "media") 1000)
do_find_service-do_add_service_example =
    do_find_service-do_add_service aids two (codes "media") (codes "media") 9 true 8 none 1000
      two-Distinct accepts_media

finds_media : find_svc (codes "media") two.svclist ≡ some media
unfolding find_svc bytes_eq
finds_media = refl

override-stale_death_example :
    (do_find_service aids (dead_binder (override two media 9) 2) (codes "media") 1000 ≡ 0)
    × ((dead_binder (override two media 9) 2).commands
        ≡ (override two media 9).commands ++ release 9 ∷ [])
override-stale_death_example =
    override-stale_death aids two (codes "media") media 9 1000 two-Distinct (omega arith)
      finds_media

abbrev driver : Driver
driver = record {
  ping_transaction = 1599098439;
  binder_type_handle = 1936206469;
  object_size = 24;
  object_type = λ obj. 1936206469;
  object_handle = λ obj. 7;
  encode_ref = λ handle. word 1936206469 ++ word 127 ++ word handle ++ word 0 ++ word 0 ++ word 0;
}

abbrev blank : Reply
blank = empty_reply (λ at. 0)

abbrev get_media : Bytes
get_media = header 0 0 (0 ∷ 0 ∷ []) (string16 (codes "media") [] [])

svcmgr_handler-get_example :
    svcmgr_handler driver aids two
      (record { target = 0; code = 1; sender_euid = 1000 })
      (message get_media [])
      blank
      none
    ≡ (if do_find_service aids two (codes "media") 1000 == 0
        then record { manager = two; reply = bio_put_uint32 blank 0; accepted = true }
        else record {
          manager = two;
          reply = bio_put_ref driver blank (do_find_service aids two (codes "media") 1000);
          accepted = true;
        })
unfolding aligned
svcmgr_handler-get_example =
    svcmgr_handler-get driver aids two (record { target = 0; code = 1; sender_euid = 1000 }) blank
      none 0 0 (0 ∷ 0 ∷ []) [] (omega arith) (omega arith) refl refl (omega arith) (codes "media")
      [] [] (omega arith) (omega arith) refl (inl refl)

abbrev unknown_code : Transaction
unknown_code = record { target = 5; code = 9; sender_euid = 1000 }

refuses_other_target :
    (svcmgr_handler driver aids two unknown_code (message [] []) blank none).accepted ≡ false
unfolding svcmgr_handler
refuses_other_target = refl

svcmgr_handler-refused_example :
    (svcmgr_handler driver aids two unknown_code (message [] []) blank none).manager ≡ two
svcmgr_handler-refused_example =
    svcmgr_handler-refused driver aids two unknown_code (message [] []) blank none
      refuses_other_target

svcmgr_handler-IsSound_example :
    IsSound
      (svcmgr_handler driver aids two
        (record { target = 0; code = 3; sender_euid = 1000 })
        (message get_media [])
        blank
        (some 3)).manager
unfolding find_at
svcmgr_handler-IsSound_example =
    svcmgr_handler-IsSound driver aids two (record { target = 0; code = 3; sender_euid = 1000 })
      (message get_media []) blank (some 3) refl Reach-IsSound_example

abbrev long_named : SvcInfo
long_named = record power { name = replicate 110 b'a' }

put_name-written_example :
    ((put_name two (empty_reply (λ at. 0)) (some long_named)).accepted ≡ true)
    × ((put_name two (empty_reply (λ at. 0)) (some long_named)).reply.written ≡ (
        if ltb 109 (length long_named.name)
        then word (length long_named.name)
        else word (length long_named.name)
          ++ (unit_bytes (long_named.name ++ 0 ∷ [])
              ++ padding
                  (λ at. 0)
                  (4 + (length long_named.name + 1) * 2)
                  (aligned ((length long_named.name + 1) * 2) - (length long_named.name + 1) * 2))))
    × ((put_name two (empty_reply (λ at. 0)) (some long_named)).reply.overflow
        ≡ ltb 109 (length long_named.name))
put_name-written_example = put_name-written two (λ at. 0) long_named (omega arith) (omega arith)
