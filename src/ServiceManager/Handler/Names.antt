-- ===== src/ServiceManager/Handler/Names.antt =====
-- Long names in the replies of servicemanager/service_manager.c to SVC_MGR_LIST_SERVICES: the reply
-- buffer of servicemanager/binder.c has 224 bytes for data.
use cmds.Common.{
  ℕ, zero, suc, ◌+◌, ◌-◌, ◌*◌, ◌≤◌, ◌≡◌, ◌≢◌, refl, ap, true, List, [], ◌∷◌, ◌++◌, some, ltb,
  if◌then◌else◌, arith, length, length-append, All,
}
use cmds.ServiceManager.{SvcInfo, Manager}
use cmds.ServiceManager.Bio.{
  aligned, bio_put, bio_put_uint32, bio_put_string16, empty_reply, padding, until_nul, word,
  unit_bytes,
}
use cmds.ServiceManager.Bio.RoundTrip.{length-unit_bytes}
use cmds.ServiceManager.Handler.{put_name}

until_nul-whole : (s : List ℕ) → All (λ u. u ≢ 0) s → until_nul s ≡ s
unfolding until_nul
until_nul-whole [] h = refl
until_nul-whole (u ∷ s) h = ground (arith, h.0, until_nul-whole s h.1)

length-padding : (stale : ℕ → ℕ) (at n : ℕ) → length (padding stale at n) ≡ n
unfolding padding
length-padding stale at zero = refl
length-padding stale at (suc n) = ap suc (length-padding stale (at + 1) n)

name_size : (s : List ℕ) → length (unit_bytes (s ++ 0 ∷ [])) ≡ (length s + 1) * 2
name_size s = omega (arith, length-unit_bytes (s ++ 0 ∷ []), length-append {0} s (0 ∷ []))

-- The answer for a service whose name has no 0 in it: the length and the name, if the name has at
-- most 109 units. A longer name, which registration allows up to 127, does not fit: the length is
-- sent alone, and the transaction counts as accepted.
pub put_name-written :
    (m : Manager) (stale : ℕ → ℕ) (si : SvcInfo)
    → All (λ u. u ≢ 0) si.name
    → length si.name ≤ 127
    → ((put_name m (empty_reply stale) (some si)).accepted ≡ true)
      × ((put_name m (empty_reply stale) (some si)).reply.written ≡ (
          if ltb 109 (length si.name)
          then word (length si.name)
          else word (length si.name)
            ++ (unit_bytes (si.name ++ 0 ∷ [])
                ++ padding stale
                    (4 + (length si.name + 1) * 2)
                    (aligned ((length si.name + 1) * 2) - (length si.name + 1) * 2))))
      × ((put_name m (empty_reply stale) (some si)).reply.overflow ≡ ltb 109 (length si.name))
unfolding put_name bio_put_string16 bio_put_uint32 bio_put aligned padding
put_name-written m stale si whole fits =
    rw (until_nul-whole si.name whole, name_size si.name) (ground arith)
