-- ===== src/ServiceManager/Parse.antt =====
-- binder_parse of servicemanager/binder.c, over what the driver has put into the buffer, and the
-- replies of binder_send_reply. `memory` is what is in memory from a position on, which may be more than
-- the driver has written, since not every read is checked against the end. Pointers have 8 bytes.
pub mod Sound
pub mod InOrder
pub mod Tests
use cmds.Common.{
  ℕ, zero, suc, ◌+◌, ◌-◌, Bool, true, false, not, ◌&&◌, ◌||◌, List, [], ◌∷◌, ◌++◌, Bytes, Option,
  none, some, ◌==◌, ltb, leb, if◌then◌else◌, length, take, drop,
}
use cmds.ServiceManager.{Aids, Manager, find_at, dead_binder}
use cmds.ServiceManager.Bio.{Driver, Message, Reply, empty_reply, number}
use cmds.ServiceManager.Handler.{Transaction, svcmgr_handler}

-- A transaction as the driver reports it; `buffer` is where its data is, and `message` what is there.
pub record Incoming : Type 0 where
  pub txn : Transaction
  pub message : Message
  pub buffer : ℕ
  pub one_way : Bool

-- The commands BR_, the sizes of their arguments, and struct binder_transaction_data, of <linux/android/binder.h>.
pub record Protocol : Type 0 where
  pub noop : ℕ
  pub transaction_complete : ℕ
  pub increfs : ℕ
  pub acquire : ℕ
  pub release : ℕ
  pub decrefs : ℕ
  pub transaction : ℕ
  pub transaction_sec_ctx : ℕ
  pub reply : ℕ
  pub dead_binder : ℕ
  pub failed_reply : ℕ
  pub dead_reply : ℕ
  pub ptr_cookie_size : ℕ
  pub transaction_size : ℕ
  pub secctx_size : ℕ
  pub incoming : Bytes → Incoming

-- BC_FREE_BUFFER, alone or with BC_REPLY: a status, or data and the offsets of its objects.
pub data Sent : Type 0 where
  free_buffer : ℕ → Sent
  reply_status : ℕ → Sent
  reply_data : ℕ → Bytes → List ℕ → Sent

pub record Server : Type 0 where
  pub manager : Manager
  pub sent : List Sent

-- binder_send_reply; the handler returns 0 or -1.
unfoldable pub binder_send_reply : Reply → ℕ → Bool → Sent
binder_send_reply reply buffer true = reply_data buffer reply.written reply.offs
binder_send_reply reply buffer false = reply_status buffer

-- The values 1, 0 and -1 of r; and, for what is no value of r, that the code has to follow the cookie
-- of a death notice that is the address of no record: what it does then is not defined.
pub data Result : Type 0 where
  going replied failed : Result
  wild : ℕ → Result

-- The parser: what it serves, r, whether `bio` is not 0, and what bio was set to.
pub record Parser : Type 0 where
  pub server : Server
  pub r : Result
  pub bio : Bool
  pub got : Option Incoming

-- Go on, with so many bytes read, or return, or be undefined.
pub data Next : Type 0 where
  go : ℕ → Parser → Next
  stop : Parser → Next

abbrev pub set_r : Result → Parser → Parser
set_r result p = record p { r = result }

-- Whether a record has the address.
unfoldable pub is_record : ℕ → Manager → Bool
is_record address m = elim (find_at address m.svclist) [ none ↦ false | some si ↦ true ]

-- (end - ptr) < size, behind the command; it wraps where the command itself is cut.
unfoldable pub is_short : ℕ → ℕ → Bool
is_short left size = leb 4 left && ltb (left - 4) size

-- The handler of the service manager, as binder_parse calls it. `malloc` is what malloc would give.
unfoldable pub handle : Driver → Aids → (ℕ → ℕ) → (Manager → Option ℕ) → Incoming → Server → Server
handle driver aids stale malloc inc s =
    let h =
      svcmgr_handler driver aids s.manager inc.txn inc.message (empty_reply stale)
        (malloc s.manager) in
    record {
      manager = h.manager;
      sent =
          s.sent
          ++ (if inc.one_way
              then free_buffer inc.buffer
              else binder_send_reply h.reply inc.buffer h.accepted)
            ∷ [];
    }

module _ (protocol : Protocol) (func : Option (Incoming → Server → Server)) where
  unfoldable pub serve : Bytes → Parser → Parser
  serve block p = elim func [
    | none ↦ p
    | some f ↦ record p { server = f (protocol.incoming block) p.server }
  ]

  unfoldable pub transaction : ℕ → ℕ → Bytes → Parser → Next
  transaction left size memory p =
      if is_short left size then stop (set_r failed p) else go size (serve (take size memory) p)

  unfoldable pub take_reply : Incoming → Parser → Parser
  take_reply inc p =
      if p.bio
      then record p { r = replied; bio = false; got = some inc }
      else record p { r = replied }

  unfoldable pub reply : ℕ → Bytes → Parser → Next
  reply left memory p =
      if is_short left protocol.transaction_size
      then stop (set_r failed p)
      else go protocol.transaction_size
          (take_reply (protocol.incoming (take protocol.transaction_size memory)) p)

  -- A death notice is also served where `func` is 0.
  unfoldable pub bury : ℕ → Parser → Parser
  bury cookie p = record p {
    server = record p.server { manager = dead_binder p.server.manager cookie };
  }

  -- The cookie is taken for an address of a record and called through.
  unfoldable pub take_notice : ℕ → Parser → Next
  take_notice cookie p =
      if is_record cookie p.server.manager
      then go 8 (bury cookie p)
      else stop (set_r (wild cookie) p)

  -- The switch. `left` bytes of the buffer were there before the command, and `memory` is behind it.
  unfoldable pub command : ℕ → ℕ → Bytes → Parser → Next
  command cmd left memory p =
      if cmd == protocol.noop || cmd == protocol.transaction_complete
      then go 0 p
      else if cmd == protocol.increfs
          || cmd == protocol.acquire
          || cmd == protocol.release
          || cmd == protocol.decrefs
      then go protocol.ptr_cookie_size p
      else if cmd == protocol.transaction_sec_ctx
      then transaction left protocol.secctx_size memory p
      else if cmd == protocol.transaction
      then transaction left protocol.transaction_size memory p
      else if cmd == protocol.reply
      then reply left memory p
      else if cmd == protocol.dead_binder
      then take_notice (number (take 8 memory)) p
      else if cmd == protocol.failed_reply || cmd == protocol.dead_reply
      then go 0 (set_r failed p)
      else stop (set_r failed p)

  -- while (ptr < end): each round reads a command, so that the size of the buffer is fuel enough.
  unfoldable pub parse_loop : ℕ → ℕ → Bytes → Parser → Option Parser
  parse_loop fuel zero memory p = some p
  parse_loop zero (suc left) memory p = none
  parse_loop (suc fuel) (suc left) memory p =
      elim (command (number (take 4 memory)) (suc left) (drop 4 memory) p) [
        | stop q ↦ some q
        | go n q ↦ parse_loop fuel (suc left - 4 - n) (drop n (drop 4 memory)) q
      ]

  unfoldable pub binder_parse : Bool → ℕ → Bytes → Server → Option Parser
  binder_parse bio size memory s =
      parse_loop size size memory (record { server = s; r = going; bio = bio; got = none })
