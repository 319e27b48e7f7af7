-- ===== src/ServiceManager/Balance.antt =====
-- References in servicemanager/service_manager.c: the driver is told of each that is taken and of
-- each that is dropped.
use cmds.Common.{
  ℕ, ◌+◌, ◌≡◌, ◌≢◌, refl, ap, ◌∙◌, Bool, false, List, [], ◌∷◌, ◌++◌, Bytes, Option, none, some,
  ◌==◌, ==_iff, if◌then◌else◌, arith, Bool-cases, Option-cases, inl, inr,
}
use cmds.ServiceManager.{
  SvcInfo, Command, acquire, release, link_to_death, Manager, start, find_svc, find_at, set_handle,
  svcinfo_death, dead_binder, link, override, insert_svc, do_add_service,
}
use cmds.ServiceManager.Lookup.{
  Distinct, set_handle-Distinct, override-Distinct, find_at-found, find_at-set_handle,
}
use cmds.ServiceManager.Reach.{IsFresh, Step, add, death, Reach, here, next, do_add_service_cases}

-- How often a handle was acquired and released, and how many records hold it.
pub acquired : ℕ → List Command → ℕ
acquired g [] = 0
acquired g (acquire h ∷ cs) = (if h == g then 1 else 0) + acquired g cs
acquired g (release h ∷ cs) = acquired g cs
acquired g (link_to_death h a ∷ cs) = acquired g cs

pub released : ℕ → List Command → ℕ
released g [] = 0
released g (acquire h ∷ cs) = released g cs
released g (release h ∷ cs) = (if h == g then 1 else 0) + released g cs
released g (link_to_death h a ∷ cs) = released g cs

pub holders : ℕ → List SvcInfo → ℕ
holders g [] = 0
holders g (si ∷ list) = (if si.handle == g then 1 else 0) + holders g list

-- Every reference to a service is held by exactly one record of the list.
abbrev pub Balanced : Manager → Type 0
Balanced m = (g : ℕ) → g ≢ 0 → acquired g m.commands ≡ released g m.commands + holders g m.svclist

acquired-append : (g : ℕ) (a b : List Command) → acquired g (a ++ b) ≡ acquired g a + acquired g b
unfolding acquired
acquired-append g [] b = omega arith
acquired-append g (acquire h ∷ a) b = omega (arith, acquired-append g a b)
acquired-append g (release h ∷ a) b = acquired-append g a b
acquired-append g (link_to_death h c ∷ a) b = acquired-append g a b

released-append : (g : ℕ) (a b : List Command) → released g (a ++ b) ≡ released g a + released g b
unfolding released
released-append g [] b = omega arith
released-append g (acquire h ∷ a) b = released-append g a b
released-append g (release h ∷ a) b = omega (arith, released-append g a b)
released-append g (link_to_death h c ∷ a) b = released-append g a b

holders-set_handle :
    (g a h : ℕ) (list : List SvcInfo) (si : SvcInfo)
    → find_at a list ≡ some si
    → holders g (set_handle a h list) + (if si.handle == g then 1 else 0)
      ≡ holders g list + (if h == g then 1 else 0)
unfolding holders set_handle find_at
holders-set_handle g a h [] si e = cc
holders-set_handle g a h (x ∷ list) si e = elim (Bool-cases (x.address == a)) [
  | inl hit ↦ ground arith
  | inr miss ↦ ground (arith, holders-set_handle g a h list si)
]

svcinfo_death-Balanced :
    (m : Manager) (si : SvcInfo)
    → find_at si.address m.svclist ≡ some si
    → Balanced m
    → Balanced (svcinfo_death m si)
unfolding svcinfo_death acquired released
svcinfo_death-Balanced m si e b g nz = ground (
  arith,
  b g nz,
  acquired-append g m.commands (release si.handle ∷ []),
  released-append g m.commands (release si.handle ∷ []),
  holders-set_handle g si.address 0 m.svclist si e,
)

link-Balanced :
    (m : Manager) (a h : ℕ) (si : SvcInfo)
    → find_at a m.svclist ≡ some si
    → si.handle ≡ 0
    → Balanced m
    → Balanced (link (record m { svclist = set_handle a h m.svclist }) h a)
unfolding link acquired released
link-Balanced m a h si e z b g nz = ground (
  arith,
  b g nz,
  acquired-append g m.commands (acquire h ∷ link_to_death h a ∷ []),
  released-append g m.commands (acquire h ∷ link_to_death h a ∷ []),
  holders-set_handle g a h m.svclist si e,
)

insert-Balanced :
    (m : Manager) (s : Bytes) (h : ℕ) (allow : Bool) (pri a : ℕ)
    → Balanced m
    → Balanced (insert_svc m s h allow pri a)
unfolding insert_svc link acquired released holders
insert-Balanced m s h allow pri a b g nz = ground (
  arith,
  b g nz,
  acquired-append g m.commands (acquire h ∷ link_to_death h a ∷ []),
  released-append g m.commands (acquire h ∷ link_to_death h a ∷ []),
)

dropped_at :
    (m : Manager) (si : SvcInfo)
    → find_at si.address m.svclist ≡ some si
    → (si.handle == 0) ≡ false
    → find_at si.address (svcinfo_death m si).svclist ≡ some (record si { handle = 0 })
unfolding svcinfo_death
dropped_at m si e live = rw live (
    find_at-set_handle si.address si.address 0 m.svclist si e
    ∙ ground (arith, ==_iff si.address si.address))

override-Balanced :
    (m : Manager) (si : SvcInfo) (h : ℕ)
    → find_at si.address m.svclist ≡ some si
    → Balanced m
    → Balanced (override m si h)
unfolding override
override-Balanced m si h e b = elim (Bool-cases (si.handle == 0)) [
  | inl dead ↦ rw (override, dead) (link-Balanced m si.address h si e (ground arith) b)
  | inr live ↦
      rw (override, live)
        (link-Balanced (svcinfo_death m si) si.address h (record si { handle = 0 })
          (dropped_at m si e live) refl (svcinfo_death-Balanced m si e b))
]

-- What holds in every state that is reached.
pub record IsSound (m : Manager) : Type 0 where
  pub distinct : Distinct m.svclist
  pub balanced : Balanced m

pub start-IsSound : IsSound start
unfolding acquired released holders
start-IsSound = record { distinct = tt; balanced = λ g nz. refl }

insert-Distinct :
    (m : Manager) (s : Bytes) (h : ℕ) (allow : Bool) (pri a : ℕ)
    → find_svc s m.svclist ≡ none
    → find_at a m.svclist ≡ none
    → Distinct m.svclist
    → Distinct (insert_svc m s h allow pri a).svclist
unfolding insert_svc link
insert-Distinct m s h allow pri a e f d = (f, e, d)

add-IsSound :
    (m : Manager) (s : Bytes) (h : ℕ) (allow : Bool) (pri : ℕ) (memory : Option ℕ)
    → IsFresh memory m
    → IsSound m
    → IsSound (do_add_service m s h allow pri memory).0
add-IsSound m s h allow pri memory fresh v =
    do_add_service_cases m s h allow pri memory IsSound v
      (λ si r e. record {
        distinct = override-Distinct m si h v.distinct;
        balanced = override-Balanced m si h (find_at-found s m.svclist si v.distinct e) v.balanced;
      })
      (λ a r e q. record {
        distinct = insert-Distinct m s h allow pri a e (fresh_at a q) v.distinct;
        balanced = insert-Balanced m s h allow pri a v.balanced;
      })
  where
    fresh_at : (a : ℕ) → memory ≡ some a → find_at a m.svclist ≡ none
    fresh_at a q = rw q at fresh

address_of_found :
    (a : ℕ) (list : List SvcInfo) (si : SvcInfo) → find_at a list ≡ some si → si.address ≡ a
unfolding find_at
address_of_found a [] si e = cc
address_of_found a (x ∷ list) si e = ground (arith, address_of_found a list si)

death-Distinct :
    (m : Manager) (si : SvcInfo) → Distinct m.svclist → Distinct (svcinfo_death m si).svclist
unfolding svcinfo_death
death-Distinct m si d = ground (arith, set_handle-Distinct si.address 0 m.svclist d)

dead_binder-IsSound : (m : Manager) (cookie : ℕ) → IsSound m → IsSound (dead_binder m cookie)
unfolding dead_binder
dead_binder-IsSound m cookie v = elim (Option-cases (find_at cookie m.svclist)) [
  | inl e ↦ rw (e, dead_binder) v
  | inr (si, e) ↦
      let q = address_of_found cookie m.svclist si e in
      rw (e, dead_binder)
        (record {
          distinct = death-Distinct m si v.distinct;
          balanced = svcinfo_death-Balanced m si (ap (λ a. find_at a m.svclist) q ∙ e) v.balanced;
        })
]

-- Every registration, refused or not, and every death notice, also a stale one, keeps the list free
-- of duplicate names and addresses and every reference held by exactly one record.
pub Step-IsSound : {m n : Manager} → Step m n → IsSound m → IsSound n
Step-IsSound {m} (add s h allow pri memory fresh) v = add-IsSound m s h allow pri memory fresh v
Step-IsSound {m} (death cookie) v = dead_binder-IsSound m cookie v

-- After any history of registrations and death notices, from the empty registry on, the names and
-- the addresses of the records are unique, and for each handle but 0 the references acquired are those
-- released and those that the records hold.
pub Reach-IsSound : {m : Manager} → Reach m → IsSound m
Reach-IsSound here = start-IsSound
Reach-IsSound (next r st) = Step-IsSound st (Reach-IsSound r)
