-- ===== src/ServiceManager/Parse/Sound.antt =====
-- The registry under binder_parse of servicemanager/binder.c, with any bytes in the driver's buffer.
use cmds.Common.{
  ℕ, zero, suc, false, true, none, inl, inr, Option-cases, Bool-cases, ◌-◌, ◌≤◌, ◌≡◌, refl, Bool,
  Bytes, Option, some, if_elim, take, drop, arith,
}
use cmds.ServiceManager.{Aids, Manager, find_at}
use cmds.ServiceManager.Reach.{IsFresh, death}
use cmds.ServiceManager.Balance.{IsSound, Step-IsSound}
use cmds.ServiceManager.Bio.{Driver, empty_reply, number}
use cmds.ServiceManager.Handler.Safety.{svcmgr_handler-IsSound}
use cmds.ServiceManager.Parse.{
  Incoming, Protocol, Server, Parser, Next, go, stop, Result, going, replied, failed, wild, set_r,
  is_record, take_notice, is_short, handle, serve, transaction, take_reply, reply, bury, command,
  parse_loop, binder_parse,
}

abbrev is_wild : Result → Bool
is_wild going = false
is_wild replied = false
is_wild failed = false
is_wild (wild cookie) = true

abbrev Sound : Parser → Type 0
Sound p = IsSound p.server.manager × (is_wild p.r ≡ false)

-- What is undefined comes of a cookie that is the address of no record.
abbrev pub IsAccounted : Result → Manager → Type 0
IsAccounted going m = Unit
IsAccounted replied m = Unit
IsAccounted failed m = Unit
IsAccounted (wild cookie) m = find_at cookie m.svclist ≡ none

abbrev Ended : Parser → Type 0
Ended p = IsSound p.server.manager × IsAccounted p.r p.server.manager

tame-IsAccounted : (r : Result) (m : Manager) → is_wild r ≡ false → IsAccounted r m
tame-IsAccounted going m e = tt
tame-IsAccounted replied m e = tt
tame-IsAccounted failed m e = tt
tame-IsAccounted (wild cookie) m e = cc

Sound-Ended : (p : Parser) → Sound p → Ended p
Sound-Ended p v = (v.0, tame-IsAccounted p.r p.server.manager v.1)

AllSound : Next → Type 0
AllSound (go n p) = Sound p
AllSound (stop p) = Ended p

no_record :
    (cookie : ℕ) (m : Manager) → is_record cookie m ≡ false → find_at cookie m.svclist ≡ none
unfolding is_record
no_record cookie m e = elim (Option-cases (find_at cookie m.svclist)) [
  | inl f ↦ f
  | inr (si, f) ↦ let made : is_record cookie m ≡ true = rw (f, is_record) refl in cc
]

go-AllSound : (n : ℕ) (p : Parser) → Sound p → AllSound (go n p)
unfolding AllSound
go-AllSound n p v = v

stop-AllSound : (p : Parser) → Ended p → AllSound (stop p)
unfolding AllSound
stop-AllSound p v = v

module _ (protocol : Protocol) (driver : Driver) (aids : Aids) (stale : ℕ → ℕ)
    (malloc : Manager → Option ℕ) (fresh : (m : Manager) → IsFresh (malloc m) m) where
  abbrev func : Option (Incoming → Server → Server)
  func = some (handle driver aids stale malloc)

  serve-Sound : (block : Bytes) (p : Parser) → Sound p → Sound (serve protocol func block p)
  unfolding serve handle
  serve-Sound block p v =
      let inc = protocol.incoming block in
      (
        svcmgr_handler-IsSound driver aids p.server.manager inc.txn inc.message (empty_reply stale)
            (malloc p.server.manager) (fresh p.server.manager) v.0,
        v.1,
      )

  transaction-Sound :
      (left size : ℕ) (memory : Bytes) (p : Parser)
      → Sound p
      → AllSound (transaction protocol func left size memory p)
  unfolding transaction
  transaction-Sound left size memory p v =
      if_elim AllSound (is_short left size) (stop-AllSound _ (v.0, tt))
        (go-AllSound size _ (serve-Sound (take size memory) p v))

  reply-Sound :
      (left : ℕ) (memory : Bytes) (p : Parser)
      → Sound p
      → AllSound (reply protocol func left memory p)
  unfolding reply take_reply
  reply-Sound left memory p v =
      if_elim AllSound (is_short left protocol.transaction_size) (stop-AllSound _ (v.0, tt))
        (go-AllSound protocol.transaction_size _ (if_elim Sound p.bio (v.0, refl) (v.0, refl)))

  bury-Sound : (cookie : ℕ) (p : Parser) → Sound p → Sound (bury protocol func cookie p)
  unfolding bury
  bury-Sound cookie p v = (Step-IsSound (death cookie) v.0, v.1)

  take_notice-Sound :
      (cookie : ℕ) (p : Parser) → Sound p → AllSound (take_notice protocol func cookie p)
  unfolding take_notice
  take_notice-Sound cookie p v = elim (Bool-cases (is_record cookie p.server.manager)) [
    | inl e ↦ rw e (go-AllSound 8 _ (bury-Sound cookie p v))
    | inr e ↦
        rw e (stop-AllSound (set_r (wild cookie) p) (v.0, no_record cookie p.server.manager e))
  ]

  command-Sound :
      (cmd left : ℕ) (memory : Bytes) (p : Parser)
      → Sound p
      → AllSound (command protocol func cmd left memory p)
  unfolding command
  command-Sound cmd left memory p v = if_elim AllSound _ (go-AllSound 0 p v) (
      if_elim AllSound _ (go-AllSound protocol.ptr_cookie_size p v) (
        if_elim AllSound _ (transaction-Sound left protocol.secctx_size memory p v) (
          if_elim AllSound _ (transaction-Sound left protocol.transaction_size memory p v) (
            if_elim AllSound _ (reply-Sound left memory p v) (
              if_elim AllSound _ (take_notice-Sound (number (take 8 memory)) p v) (
                if_elim AllSound _ (go-AllSound 0 (set_r failed p) (v.0, refl))
                  (stop-AllSound (set_r failed p) (v.0, tt))))))))

  after-Sound :
      (fuel left : ℕ) (memory : Bytes) (p : Parser) (next : Next)
      → command protocol func (number (take 4 memory)) (suc left) (drop 4 memory) p ≡ next
      → AllSound next
      → ((n : ℕ) (q : Parser)
          → Sound q
          → (r : Parser) × (parse_loop protocol func fuel
                (suc left - 4 - n)
                (drop n (drop 4 memory))
                q
              ≡ some r)
            × Ended r)
      → (q : Parser) × (parse_loop protocol func (suc fuel) (suc left) memory p ≡ some q) × Ended q
  unfolding parse_loop AllSound
  after-Sound fuel left memory p (stop q) e w ends = (q, rw (e, parse_loop) refl, w)
  after-Sound fuel left memory p (go n q) e w ends =
      let (r, f, u) = ends n q w in (r, rw (e, parse_loop) f, u)

  parse_loop-Sound :
      (fuel left : ℕ) (memory : Bytes) (p : Parser)
      → left ≤ fuel
      → Sound p
      → (q : Parser) × (parse_loop protocol func fuel left memory p ≡ some q) × Ended q
  unfolding parse_loop
  parse_loop-Sound fuel zero memory p h v = (p, refl, Sound-Ended p v)
  parse_loop-Sound zero (suc left) memory p h v = absurd (omega arith)
  parse_loop-Sound (suc fuel) (suc left) memory p h v =
      after-Sound fuel left memory p
        (command protocol func (number (take 4 memory)) (suc left) (drop 4 memory) p) refl
        (command-Sound (number (take 4 memory)) (suc left) (drop 4 memory) p v)
        (λ n q w.
          parse_loop-Sound fuel (suc left - 4 - n) (drop n (drop 4 memory)) q (omega (arith, h)) w)

  -- Of any bytes in the driver's buffer and of a sound registry, and where malloc gives memory that
  -- no record has, binder_parse with the handler of the service manager returns and leaves a sound
  -- registry, or it comes, with the registry sound so far, to a death notice whose cookie is the address
  -- of no record; what the code does with that one is not defined, and nothing is said of it.
  pub binder_parse-IsSound :
      (bio : Bool) (size : ℕ) (memory : Bytes) (s : Server)
      → IsSound s.manager
      → (p : Parser) × (binder_parse protocol func bio size memory s ≡ some p)
        × IsSound p.server.manager
        × IsAccounted p.r p.server.manager
  unfolding binder_parse
  binder_parse-IsSound bio size memory s v =
      let (p, e, w) =
        parse_loop-Sound size size memory (record { server = s; r = going; bio = bio; got = none })
          (omega arith) (v, refl) in
      (p, e, w.0, w.1)
