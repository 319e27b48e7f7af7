-- ===== src/ServiceManager/Directory/Tests.antt =====
-- A series of requests to servicemanager/service_manager.c, and what the directory promises for it.
use cmds.Common.{◌≡◌, refl, true, false, List, [], ◌∷◌, codes, bytes_eq, none, some}
use cmds.ServiceManager.{
  Aids, start, check_mac_perms, find_svc, find_at, link, insert_svc, override, svcinfo_death,
  set_handle, do_add_service, is_isolated,
}
use cmds.ServiceManager.Directory.{
  empty, put, is_request, enter, register, bury, notice, ask, Event, lookup, registration, died,
  found, accepted, nothing, answers, promised, IsFreshAlong,
}
use cmds.ServiceManager.Directory.Refined.{answers-start}

abbrev aids : Aids
aids = record { user = 100000; isolated_start = 99000; isolated_end = 99999 }

abbrev requests : List Event
requests =
    lookup (codes "media") 1000
    ∷ registration (codes "media") 8 false 8 (some 2)
    ∷ registration (codes "") 9 false 8 (some 3)
    ∷ registration (codes "media") 9 true 8 none
    ∷ lookup (codes "media") 99001
    ∷ lookup (codes "media") 1000
    ∷ died 2
    ∷ lookup (codes "media") 1000
    ∷ []

-- Isolated callers stay out after the second registration, and the death notice of either service
-- takes the name away.
promised-requests :
    promised aids requests empty
    ≡ found 0
      ∷ accepted true
      ∷ accepted false
      ∷ accepted true
      ∷ found 0
      ∷ found 9
      ∷ nothing
      ∷ found 0
      ∷ []
unfolding promised ask register is_request enter put empty bury notice bytes_eq is_isolated
promised-requests = refl

requests_fresh : IsFreshAlong requests start
unfolding IsFreshAlong do_add_service check_mac_perms find_svc find_at insert_svc link override
    svcinfo_death set_handle bytes_eq
requests_fresh = (refl, (refl, (tt, tt)))

answers-start_example : answers aids requests start ≡ promised aids requests empty
answers-start_example = answers-start aids requests requests_fresh
