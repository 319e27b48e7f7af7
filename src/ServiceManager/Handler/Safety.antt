-- ===== src/ServiceManager/Handler/Safety.antt =====
-- What a transaction can do to the registry of servicemanager/service_manager.c.
use cmds.Common.{
  ℕ, ◌≡◌, refl, ap, ◌∙◌, Bool, true, false, not, List, Bytes, bytes_eq, sym, subst, Option, none,
  some, ◌==◌, if_elim, ◌⊎◌, arith, Option-cases, inl, inr,
}
use cmds.ServiceManager.{Aids, SvcInfo, Manager, do_add_service, find_svc}
use cmds.ServiceManager.Bio.{Driver, Message, Reply, bio_get_string16}
use cmds.ServiceManager.Reach.{
  IsFresh, add, IsRequest-dec, add_refused, add_no_memory, add_override, add_insert,
}
use cmds.ServiceManager.Balance.{IsSound, Step-IsSound}
use cmds.ServiceManager.Handler.{
  Transaction, Handled, svcmgr_id, put_handle, handle_get, added, handle_add, put_name, handle_list,
  handle_code, check_id, check_header, svcmgr_handler,
}

added_refused :
    (m : Manager) (s : Bytes) (h : ℕ) (allow : Bool) (pri : ℕ) (memory : Option ℕ)
    → (do_add_service m s h allow pri memory).1 ≡ false
    → (do_add_service m s h allow pri memory).0 ≡ m
added_refused m s h allow pri memory bad = elim (IsRequest-dec m s h allow pri memory) [
  | no wrong ↦ rw (add_refused m s h allow pri memory wrong)
  | yes r ↦ elim (Option-cases (find_svc s m.svclist)) [
    | inr (si, e) ↦
        cc (bad, ap (λ (r : Manager × Bool). r.1) (add_override m s h allow pri memory si r e))
    | inl e ↦ elim (Option-cases memory) [
      | inl q ↦ rw (add_no_memory m s h allow pri memory e q)
      | inr (a, q) ↦
          cc (bad, ap (λ (r : Manager × Bool). r.1) (add_insert m s h allow pri memory a r e q))
    ]
  ]
]

-- A transaction leaves the registry alone, or registers one service.
abbrev Effect : Manager → Option ℕ → Handled → Type 0
Effect m memory r =
    (r.manager ≡ m)
    ⊎ ((s : Bytes) × (h : ℕ) × (allow : Bool) × (pri : ℕ) × (r.manager
          ≡ (do_add_service m s h allow pri memory).0)
        × (r.accepted ≡ (do_add_service m s h allow pri memory).1))

Effect-added :
    (m : Manager) (reply : Reply) (memory : Option ℕ) (s : Bytes) (h : ℕ) (allow : Bool) (pri : ℕ)
    → (r : Manager × Bool) → do_add_service m s h allow pri memory ≡ r
    → Effect m memory (added reply r)
Effect-added m reply memory s h allow pri (n, true) e = inr (s, h, allow, pri, rw e, rw e)
Effect-added m reply memory s h allow pri (n, false) e = inr (s, h, allow, pri, rw e, rw e)

Effect-add :
    (driver : Driver) (m : Manager) (msg : Message) (reply : Reply) (memory : Option ℕ)
    (s : Option (List ℕ))
    → Effect m memory (handle_add driver m msg reply memory s)
unfolding handle_add
Effect-add driver m msg reply memory none = inl refl
Effect-add driver m msg reply memory (some s) = Effect-added m reply memory s _ _ _ _ refl

handle_get-manager :
    (driver : Driver) (aids : Aids) (m : Manager) (uid : ℕ) (reply : Reply) (s : Option (List ℕ))
    → (handle_get driver aids m uid reply s).manager ≡ m
unfolding handle_get put_handle
handle_get-manager driver aids m uid reply none = refl
handle_get-manager driver aids m uid reply (some s) = ground arith

put_name-manager :
    (m : Manager) (reply : Reply) (si : Option SvcInfo) → (put_name m reply si).manager ≡ m
unfolding put_name
put_name-manager m reply none = refl
put_name-manager m reply (some si) = refl

Effect-code :
    (driver : Driver) (aids : Aids) (m : Manager) (txn : Transaction) (msg : Message)
    (reply : Reply) (memory : Option ℕ)
    → Effect m memory (handle_code driver aids m txn msg reply memory)
unfolding handle_code handle_list
Effect-code driver aids m txn msg reply memory =
    if_elim (Effect m memory) (txn.code == 1) (inl got) (
      if_elim (Effect m memory) (txn.code == 2) (inl got) (
        if_elim (Effect m memory) (txn.code == 3)
          (Effect-add driver m (bio_get_string16 msg).1 reply memory (bio_get_string16 msg).0)
          (if_elim (Effect m memory) (txn.code == 4) (inl (put_name-manager m reply _))
            (inl refl))))
  where
    got : (handle_get driver aids m txn.sender_euid reply (bio_get_string16 msg).0).manager ≡ m
    got = handle_get-manager driver aids m txn.sender_euid reply (bio_get_string16 msg).0

Effect-id :
    (driver : Driver) (aids : Aids) (m : Manager) (txn : Transaction) (msg : Message)
    (reply : Reply) (memory : Option ℕ) (s : Option (List ℕ))
    → Effect m memory (check_id driver aids m txn msg reply memory s)
unfolding check_id
Effect-id driver aids m txn msg reply memory none = inl refl
Effect-id driver aids m txn msg reply memory (some s) =
    if_elim (Effect m memory) (bytes_eq svcmgr_id s)
      (Effect-code driver aids m txn msg reply memory) (inl refl)

module _ (driver : Driver) (aids : Aids) (m : Manager) (txn : Transaction) (msg : Message)
    (reply : Reply) (memory : Option ℕ) where
  Effect-handler : Effect m memory (svcmgr_handler driver aids m txn msg reply memory)
  unfolding svcmgr_handler check_header
  Effect-handler = if_elim (Effect m memory) (not (txn.target == 0)) (inl refl) (
      if_elim (Effect m memory) (txn.code == driver.ping_transaction) (inl refl)
        (Effect-id driver aids m txn _ reply memory _))

  -- A transaction that is refused, for whatever reason and with whatever message, leaves the
  -- registry, and what was sent to the driver, as they were.
  pub svcmgr_handler-refused :
      (svcmgr_handler driver aids m txn msg reply memory).accepted ≡ false
      → (svcmgr_handler driver aids m txn msg reply memory).manager ≡ m
  svcmgr_handler-refused bad = by_effect Effect-handler
    where
      by_effect :
          Effect m memory (svcmgr_handler driver aids m txn msg reply memory)
          → (svcmgr_handler driver aids m txn msg reply memory).manager ≡ m
      by_effect (inl same) = same
      by_effect (inr (s, h, allow, pri, e, ok)) =
          e ∙ added_refused m s h allow pri memory (cc (bad, ok))

  -- Whatever the message, a transaction takes a registry that is sound to one that is sound, where
  -- malloc gives memory that no record has.
  pub svcmgr_handler-IsSound :
      IsFresh memory m
      → IsSound m
      → IsSound (svcmgr_handler driver aids m txn msg reply memory).manager
  svcmgr_handler-IsSound fresh v = by_effect Effect-handler
    where
      by_effect :
          Effect m memory (svcmgr_handler driver aids m txn msg reply memory)
          → IsSound (svcmgr_handler driver aids m txn msg reply memory).manager
      by_effect (inl same) = subst IsSound (sym same) v
      by_effect (inr (s, h, allow, pri, e, ok)) =
          subst IsSound (sym e) (Step-IsSound (add s h allow pri memory fresh) v)
