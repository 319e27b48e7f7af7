-- ===== src/ServiceManager/Parse/InOrder.antt =====
-- What binder_parse of servicemanager/binder.c does with a buffer of whole commands.
use cmds.Common.{
  take-append, drop-append, ℕ, zero, suc, ◌+◌, ◌-◌, ◌^◌, ◌≤◌, ◌<◌, ◌≡◌, ◌≢◌, refl, sym, ap, ◌∙◌,
  Bool, true, false, if◌then◌else◌, Bool-cases, inl, inr, List, [], ◌∷◌, ◌++◌, Bytes, Option, none,
  some, length, take, drop, length-append, append_assoc, All, arith,
}
use cmds.ServiceManager.{dead_binder}
use cmds.ServiceManager.Bio.{word, number}
use cmds.ServiceManager.Bio.RoundTrip.{number-word}
use cmds.ServiceManager.Parse.{
  Incoming, Protocol, Server, Parser, go, going, failed, is_short, is_record, serve, transaction,
  replied, take_reply, reply, bury, take_notice, command, parse_loop, binder_parse,
}

-- The commands that ask the server to count a reference.
pub data Count : Type 0 where
  increfs acquire release decrefs : Count

-- What the driver may put into the buffer: each command of binder_parse, with its argument.
pub data Item : Type 0 where
  silent : Item
  completed : Item
  counted : Count → Bytes → Item
  transacted : Bytes → Item
  transacted_sec : Bytes → Item
  replied_with : Bytes → Item
  dead : Bytes → Item
  reply_failed : Item
  reply_dead : Item

abbrev pub codes_of : Protocol → List ℕ
codes_of protocol =
    protocol.noop ∷ protocol.transaction_complete ∷ protocol.increfs ∷ protocol.acquire
    ∷ protocol.release ∷ protocol.decrefs ∷ protocol.transaction_sec_ctx ∷ protocol.transaction
    ∷ protocol.reply ∷ protocol.dead_binder ∷ protocol.failed_reply ∷ protocol.dead_reply ∷ []

abbrev pub Unlike : ℕ → List ℕ → Type 0
Unlike a [] = Unit
Unlike a (b ∷ bs) = (b ≢ a) × Unlike a bs

abbrev pub NoRepeat : List ℕ → Type 0
NoRepeat [] = Unit
NoRepeat (a ∷ more) = Unlike a more × NoRepeat more

-- The commands are different numbers of 32 bits.
pub record IsProtocol (protocol : Protocol) : Type 0 where
  pub different : NoRepeat (codes_of protocol)
  pub short : All (λ c. c < 2 ^ 32) (codes_of protocol)

module _ (protocol : Protocol) where
  unfoldable pub IsWhole : Item → Type 0
  IsWhole silent = Unit
  IsWhole completed = Unit
  IsWhole (counted count block) = length block ≡ protocol.ptr_cookie_size
  IsWhole (transacted block) = length block ≡ protocol.transaction_size
  IsWhole (transacted_sec block) = length block ≡ protocol.secctx_size
  IsWhole (replied_with block) = length block ≡ protocol.transaction_size
  IsWhole (dead block) = length block ≡ 8
  IsWhole reply_failed = Unit
  IsWhole reply_dead = Unit

  count_code : Count → ℕ
  count_code increfs = protocol.increfs
  count_code acquire = protocol.acquire
  count_code release = protocol.release
  count_code decrefs = protocol.decrefs

  -- The code and the argument of an item.
  pub code_of : Item → ℕ
  code_of silent = protocol.noop
  code_of completed = protocol.transaction_complete
  code_of (counted count block) = count_code count
  code_of (transacted block) = protocol.transaction
  code_of (transacted_sec block) = protocol.transaction_sec_ctx
  code_of (replied_with block) = protocol.reply
  code_of (dead block) = protocol.dead_binder
  code_of reply_failed = protocol.failed_reply
  code_of reply_dead = protocol.dead_reply

  pub block_of : Item → Bytes
  block_of silent = []
  block_of completed = []
  block_of (counted count block) = block
  block_of (transacted block) = block
  block_of (transacted_sec block) = block
  block_of (replied_with block) = block
  block_of (dead block) = block
  block_of reply_failed = []
  block_of reply_dead = []

  pub buffer : List Item → Bytes
  buffer [] = []
  buffer (item ∷ items) = word (code_of item) ++ (block_of item ++ buffer items)

  module _ (func : Option (Incoming → Server → Server)) where
    unfoldable pub handed : Bytes → Parser → Parser
    handed block p = elim func [
      | none ↦ p
      | some f ↦ record p { server = f (protocol.incoming block) p.server }
    ]

    unfoldable pub given : Incoming → Parser → Parser
    given inc p = record p { r = replied; bio = false; got = if p.bio then some inc else p.got }

    unfoldable pub dropped : ℕ → Parser → Parser
    dropped cookie p = record p {
      server = record p.server { manager = dead_binder p.server.manager cookie };
    }

    unfoldable pub handled : Item → Parser → Parser
    handled silent p = p
    handled completed p = p
    handled (counted count block) p = p
    handled (transacted block) p = handed block p
    handled (transacted_sec block) p = handed block p
    handled (replied_with block) p = given (protocol.incoming block) p
    handled (dead block) p = dropped (number block) p
    handled reply_failed p = record p { r = failed }
    handled reply_dead p = record p { r = failed }

    pub all_handled : List Item → Parser → Parser
    all_handled [] p = p
    all_handled (item ∷ items) p = all_handled items (handled item p)

    -- The cookie of a death notice is the address of a record.
    unfoldable pub IsHonest : Item → Parser → Type 0
    IsHonest silent p = Unit
    IsHonest completed p = Unit
    IsHonest (counted count block) p = Unit
    IsHonest (transacted block) p = Unit
    IsHonest (transacted_sec block) p = Unit
    IsHonest (replied_with block) p = Unit
    IsHonest (dead block) p = is_record (number block) p.server.manager ≡ true
    IsHonest reply_failed p = Unit
    IsHonest reply_dead p = Unit

    -- At each death notice, when its turn comes.
    unfoldable pub AllHonest : List Item → Parser → Type 0
    AllHonest [] p = Unit
    AllHonest (item ∷ items) p = IsHonest item p × AllHonest items (handled item p)

    transaction-whole :
        (left size : ℕ) (block rest : Bytes) (p : Parser)
        → length block ≡ size
        → 4 + size ≤ left
        → transaction protocol func left size (block ++ rest) p ≡ go size (handed block p)
    unfolding transaction is_short serve handed
    transaction-whole left size block rest p e h =
        let whole : take size (block ++ rest) ≡ block =
          ap (λ (n : ℕ). take n (block ++ rest)) (sym e) ∙ take-append block rest in
        rw whole (ground (arith, h))

    take_reply-given : (inc : Incoming) (p : Parser) → take_reply protocol func inc p ≡ given inc p
    unfolding take_reply given
    take_reply-given inc p = elim (Bool-cases p.bio) [ inl e ↦ rw e refl | inr e ↦ rw e refl ]

    reply-whole :
        (left : ℕ) (block rest : Bytes) (p : Parser)
        → length block ≡ protocol.transaction_size
        → 4 + protocol.transaction_size ≤ left
        → reply protocol func left (block ++ rest) p
          ≡ go protocol.transaction_size (given (protocol.incoming block) p)
    unfolding reply is_short
    reply-whole left block rest p e h =
        let whole : take protocol.transaction_size (block ++ rest) ≡ block =
          ap (λ (n : ℕ). take n (block ++ rest)) (sym e) ∙ take-append block rest in
        rw (whole, take_reply-given (protocol.incoming block) p) (ground (arith, h))

    notice_taken :
        (cookie : ℕ) (p : Parser)
        → is_record cookie p.server.manager ≡ true
        → take_notice protocol func cookie p ≡ go 8 (dropped cookie p)
    unfolding take_notice bury dropped
    notice_taken cookie p e = rw e refl

    command-item :
        (item : Item) (left : ℕ) (rest : Bytes) (p : Parser)
        → IsProtocol protocol
        → IsWhole item
        → IsHonest item p
        → 4 + length (block_of item) ≤ left
        → command protocol func (code_of item) left (block_of item ++ rest) p
          ≡ go (length (block_of item)) (handled item p)
    unfolding command IsWhole IsHonest code_of count_code block_of handled
    command-item silent left rest p v w y h = ground arith
    command-item completed left rest p v w y h = ground (arith, v.different)
    command-item (counted increfs block) left rest p v w y h = ground (arith, v.different, w)
    command-item (counted acquire block) left rest p v w y h = ground (arith, v.different, w)
    command-item (counted release block) left rest p v w y h = ground (arith, v.different, w)
    command-item (counted decrefs block) left rest p v w y h = ground (arith, v.different, w)
    command-item (transacted block) left rest p v w y h = ground (
      arith,
      v.different,
      w,
      transaction-whole left protocol.transaction_size block rest p w (omega (arith, w, h)),
    )
    command-item (transacted_sec block) left rest p v w y h = ground (
      arith,
      v.different,
      w,
      transaction-whole left protocol.secctx_size block rest p w (omega (arith, w, h)),
    )
    command-item (replied_with block) left rest p v w y h =
        ground (arith, v.different, w, reply-whole left block rest p w (omega (arith, w, h)))
    command-item reply_failed left rest p v w y h = ground (arith, v.different)
    command-item reply_dead left rest p v w y h = ground (arith, v.different)
    command-item (dead block) left rest p v w y h =
        let eight : length block ≡ 8 = w in
        let whole : take 8 (block ++ rest) ≡ block =
          ap (λ (n : ℕ). take n (block ++ rest)) (sym eight) ∙ take-append block rest in
        ground (arith, v.different, eight, whole, notice_taken (number block) p y)

    code_short : (item : Item) → IsProtocol protocol → code_of item < 2 ^ 32
    unfolding code_of count_code
    code_short silent v = ground (arith, v.short)
    code_short completed v = ground (arith, v.short)
    code_short (counted increfs block) v = ground (arith, v.short)
    code_short (counted acquire block) v = ground (arith, v.short)
    code_short (counted release block) v = ground (arith, v.short)
    code_short (counted decrefs block) v = ground (arith, v.short)
    code_short (transacted block) v = ground (arith, v.short)
    code_short (transacted_sec block) v = ground (arith, v.short)
    code_short (replied_with block) v = ground (arith, v.short)
    code_short (dead block) v = ground (arith, v.short)
    code_short reply_failed v = ground (arith, v.short)
    code_short reply_dead v = ground (arith, v.short)

    parse_step :
        (cmd fuel left n : ℕ) (memory : Bytes) (p q : Parser)
        → cmd < 2 ^ 32
        → command protocol func cmd (suc left) memory p ≡ go n q
        → parse_loop protocol func (suc fuel) (suc left) (word cmd ++ memory) p
          ≡ parse_loop protocol func fuel (suc left - 4 - n) (drop n memory) q
    unfolding parse_loop
    parse_step cmd fuel left n memory p q h e = rw (number-word cmd h, e, parse_loop) refl

    parse_items :
        (items : List Item) (beyond : Bytes) (fuel : ℕ) (p : Parser)
        → IsProtocol protocol
        → All IsWhole items
        → AllHonest items p
        → length (buffer items) ≤ fuel
        → parse_loop protocol func fuel (length (buffer items)) (buffer items ++ beyond) p
          ≡ some (all_handled items p)
    unfolding parse_loop buffer all_handled AllHonest
    parse_items [] beyond fuel p v w y h = refl
    parse_items (item ∷ items) beyond zero p v w y h = absurd (omega arith)
    parse_items (item ∷ items) beyond (suc fuel) p v w y h =
        let block = block_of item in
        let more = suc (suc (suc (length (block ++ buffer items)))) in
        let size : length (block ++ buffer items) ≡ length block + length (buffer items) =
          length-append block (buffer items) in
        ap
          (λ (m : Bytes).
            parse_loop protocol func (suc fuel) (suc more) (word (code_of item) ++ m) p)
          (append_assoc block (buffer items) beyond)
        ∙ parse_step (code_of item) fuel more (length block) (block ++ (buffer items ++ beyond)) p
            (handled item p) (code_short item v)
            (command-item item (suc more) (buffer items ++ beyond) p v w.0 y.0
              (omega (arith, size)))
        ∙ ap
            (λ (n : ℕ).
              parse_loop protocol func fuel n
                (drop (length block) (block ++ (buffer items ++ beyond))) (handled item p))
            (omega (arith, size))
        ∙ ap
            (λ (m : Bytes).
              parse_loop protocol func fuel (length (buffer items)) m (handled item p))
            (drop-append block (buffer items ++ beyond))
        ∙ parse_items items beyond fuel (handled item p) v w.1 y.1 (omega (arith, h, size))

    -- Of a buffer of whole commands, of any that binder_parse knows, whatever is behind it in memory, where
    -- the commands have different codes and each death notice has, at its turn, the address of a record for its
    -- cookie, binder_parse handles each in order: it calls the handler once for each transaction, with its
    -- data, drops the service of each death notice, gives the first reply to a caller that waits for one,
    -- and passes over the other commands. It then returns 0 or -1 by the last reply, or failed or dead
    -- reply, or 1 where there is none.
    pub binder_parse-buffer :
        (bio : Bool) (items : List Item) (beyond : Bytes) (s : Server)
        → IsProtocol protocol
        → All IsWhole items
        → AllHonest items (record { server = s; r = going; bio = bio; got = none })
        → binder_parse protocol func bio (length (buffer items)) (buffer items ++ beyond) s
          ≡ some (all_handled items (record { server = s; r = going; bio = bio; got = none }))
    unfolding binder_parse
    binder_parse-buffer bio items beyond s v w y =
        parse_items items beyond (length (buffer items)) _ v w y (omega arith)
