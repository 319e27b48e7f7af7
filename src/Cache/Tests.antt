-- ===== src/Cache/Tests.antt =====
-- The theorems on freeCache at work on two apps.
use cmds.Common.{
  ℕ, All, Bytes, ◌≡◌, refl, true, false, List, [], ◌∷◌, codes, Option, some, none, pos, arith, Bool,
  if◌then◌else◌,
}
use cmds.Cache.{Item, Tracker, item_before}
use cmds.Cache.Free.{
  Request, Bounce, enough, is_enough, has_flag, free_cache, flag_free_cache_v2,
  flag_free_cache_v2_defy_quota, flag_free_cache_noop,
}
use cmds.Cache.Cleared.{taken}
use cmds.Cache.Queue.{count, items_left}
use cmds.Cache.Ends.{bounce-enough}
use cmds.Cache.Kept.{Fair, bounce-Fair}
use cmds.Cache.Answers.{free_cache-answers, free_cache-exhausted}
use cmds.Cache.Tree.{Stat, Node, leaf, dir, Forest, nil, cons, load_node}
use cmds.Cache.Scan.{Ids, Found}
use cmds.Cache.Loaded.{load_node-before}

abbrev folder : Item
folder = record {
  path = codes "/data/user/0/a/cache/d";
  level = 1;
  directory = true;
  group = false;
  tombstone = false;
  size = 4096;
  modified = 20;
}

abbrev file : Item
file = record folder {
  path = codes "/data/user/0/a/cache/d/f";
  level = 2;
  directory = false;
  modified = 10;
}

abbrev trackers : List Tracker
trackers =
    record {
      uid = 10001;
      cache_used = pos 8192;
      cache_quota = 4096;
      items = [];
      items_loaded = false;
      found = file ∷ folder ∷ [];
    }
    ∷ record {
      uid = 10002;
      cache_used = pos 4096;
      cache_quota = 8192;
      items = [];
      items_loaded = false;
      found = file ∷ [];
    }
    ∷ []

abbrev full : List Item → Option ℕ
full purged = some 5

abbrev request : Request
request = record {
  target_free = 100;
  cache_reserved = 0;
  cache_total = 12288;
  noop = false;
  defy_quota = false;
}

bounce-Fair_example : Fair request (bounce-enough full request trackers 95).0
bounce-Fair_example =
    bounce-Fair full request trackers 95 (enough trackers)
      (bounce-enough full request trackers 95).0
      ((bounce-enough full request trackers 95).1 (enough trackers) (omega arith))

free_cache-answers_example :
    (s : Bounce) × (free_cache full 100 0 256 trackers ≡ some (is_enough (full s.purged) 100, s))
free_cache-answers_example = free_cache-answers full 100 0 256 trackers

abbrev last : Bounce
last = (free_cache-answers full 100 0 768 trackers).0

v2 : has_flag 768 flag_free_cache_v2 ≡ true
unfolding has_flag
v2 = refl

defy : has_flag 768 flag_free_cache_v2_defy_quota ≡ true
unfolding has_flag
defy = refl

answer : free_cache full 100 0 768 trackers ≡ some (false, last)
unfolding is_enough
answer = (free_cache-answers full 100 0 768 trackers).1

abbrev is_folder : Item → Bool
is_folder item = item.directory

free_cache-exhausted_example :
    (count is_folder (taken last.log) ≡ items_left is_folder trackers)
    × (last.purged ≡ (if has_flag 768 flag_free_cache_noop then [] else taken last.log))
free_cache-exhausted_example =
    free_cache-exhausted full 100 0 768 trackers is_folder 5 last refl v2 defy refl answer

abbrev stat : Bytes → ℕ → Stat
stat name time = record { name = name; is_regular = true; blocks = 8; mtime = time }

abbrev old_folder : Node
old_folder =
    dir (stat (codes "d") 5) false false
      (cons (leaf (stat (codes "f") 90)) (cons (leaf (stat (codes "g") 7)) nil))

abbrev below : Forest
below = cons old_folder nil

load_node-before_example :
    All
      (λ i.
        (item_before (load_node (codes "/c") false false 1 old_folder).0 i ≡ true)
        × (item_before i (load_node (codes "/c") false false 1 old_folder).0 ≡ false))
      (load_node (codes "/c") false false 1 old_folder).1
load_node-before_example = load_node-before (codes "/c") false false 1 old_folder

abbrev no_gid : Option ℕ
no_gid = none

abbrev ids : Ids
ids = record {
  user_id = λ uid. 0;
  app_id = λ uid. uid;
  media_rw = 1023;
  ext_gid_start = 20000;
  app_start = 10000;
  cache_gid = λ user app. no_gid;
  ext_cache_gid = λ user app. no_gid;
}

abbrev found : List Found
found =
    record { path = codes "/u/a"; uid = 10001; gid = 10001 }
    ∷ record { path = codes "/m/a"; uid = 1023; gid = 20001 }
    ∷ record { path = codes "/u/b"; uid = 10002; gid = 10002 }
    ∷ []

abbrev no_quotas : ℕ → ℕ
no_quotas uid = 0
