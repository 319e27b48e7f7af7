-- ===== src/ServiceManager/Bio.antt =====
-- The binder_io buffers of servicemanager/binder.c: a message that is read from its front, with the
-- offsets of its objects, and a reply that is written up to its capacity. A size is rounded up to
-- four bytes; size_t has 64 bits, so that no size here wraps.
pub mod RoundTrip
use cmds.Common.{
  ℕ, zero, suc, ◌+◌, ◌-◌, ◌*◌, ◌/◌, ◌%◌, ◌^◌, Bool, true, false, List, [], ◌∷◌, ◌++◌, Bytes, Option,
  none, some, ◌==◌, leb, ltb, if◌then◌else◌, length, take, drop,
}

-- The layout of struct flat_binder_object, and codes, of <linux/android/binder.h>.
pub record Driver : Type 0 where
  pub ping_transaction : ℕ
  pub binder_type_handle : ℕ
  pub object_size : ℕ
  pub object_type : Bytes → ℕ
  pub object_handle : Bytes → ℕ
  pub encode_ref : ℕ → Bytes

-- (size + 3) & ~3
unfoldable pub aligned : ℕ → ℕ
aligned size = (size + 3) / 4 * 4

pub record Message : Type 0 where
  pub rest : Bytes
  pub offset : ℕ
  pub offs : List ℕ
  pub overflow : Bool

-- The block that bio_get points to.
unfoldable pub bio_get : Message → ℕ → Option Bytes × Message
unfolding aligned
bio_get msg size =
    if ltb (length msg.rest) (aligned size)
    then (none, record msg { rest = []; overflow = true })
    else (
      some (take size msg.rest),
      record msg { rest = drop (aligned size) msg.rest; offset = msg.offset + aligned size },
    )

-- A little-endian number.
abbrev pub number : Bytes → ℕ
number [] = 0
number (b ∷ bs) = b + 256 * number bs

abbrev pub or_zero : Option Bytes → ℕ
or_zero none = 0
or_zero (some block) = number block

unfoldable pub bio_get_uint32 : Message → ℕ × Message
bio_get_uint32 msg = let (block, rest) = bio_get msg 4 in (or_zero block, rest)

-- A block of 16-bit units.
abbrev pub units : Bytes → List ℕ
units (lo ∷ hi ∷ bs) = (lo + 256 * hi) ∷ units bs
units _ = []

abbrev pub string_of : ℕ → Option Bytes → Option (List ℕ)
string_of len none = none
string_of len (some block) = some (take len (units block))

-- The `len` units before the last one, which a sender sets to 0.
unfoldable pub bio_get_string16 : Message → Option (List ℕ) × Message
bio_get_string16 msg =
    let (len, msg1) = bio_get_uint32 msg in
    let (block, msg2) = bio_get msg1 ((len + 1) * 2) in (string_of len block, msg2)

unfoldable pub is_object_at : ℕ → List ℕ → Bool
is_object_at off [] = false
is_object_at off (o ∷ offs) = let later = is_object_at off offs in if o == off then true else later

unfoldable pub get_obj : Driver → Message → Option Bytes × Message
get_obj driver msg =
    if is_object_at msg.offset msg.offs
    then bio_get msg driver.object_size
    else (none, record msg { rest = []; overflow = true })

abbrev pub handle_of : Driver → Option Bytes → ℕ
handle_of driver none = 0
handle_of driver (some obj) =
    if driver.object_type obj == driver.binder_type_handle then driver.object_handle obj else 0

unfoldable pub bio_get_ref : Driver → Message → ℕ × Message
bio_get_ref driver msg = let (obj, rest) = get_obj driver msg in (handle_of driver obj, rest)

-- `stale` is what the buffer held before, which the padding shows.
pub record Reply : Type 0 where
  pub written : Bytes
  pub data_avail : ℕ
  pub offs : List ℕ
  pub offs_avail : ℕ
  pub overflow : Bool
  pub stale : ℕ → ℕ

-- bio_init(&reply, rdata, sizeof(rdata), 4), where rdata has 256 bytes.
abbrev pub empty_reply : (ℕ → ℕ) → Reply
empty_reply stale = record {
  written = [];
  data_avail = 256 - 4 * 8;
  offs = [];
  offs_avail = 4;
  overflow = false;
  stale = stale;
}

unfoldable pub padding : (ℕ → ℕ) → ℕ → ℕ → Bytes
padding stale at zero = []
padding stale at (suc n) = stale at ∷ padding stale (at + 1) n

-- bio_alloc, and the store of `block` in the memory that it gives.
unfoldable pub bio_put : Reply → Bytes → Reply
unfolding aligned padding
bio_put reply block =
    let size = aligned (length block) in
    if ltb reply.data_avail size then record reply { overflow = true } else record reply {
      written =
          reply.written
          ++ (block
              ++ padding reply.stale (length reply.written + length block) (size - length block));
      data_avail = reply.data_avail - size;
    }

abbrev pub byte : ℕ → ℕ
byte n = n % 256

-- The four bytes of a 32-bit number.
abbrev pub word : ℕ → Bytes
word n = byte n ∷ byte (n / 256) ∷ byte (n / 65536) ∷ byte (n / 16777216) ∷ []

unfoldable pub bio_put_uint32 : Reply → ℕ → Reply
bio_put_uint32 reply n = bio_put reply (word n)

-- The units of a string, low byte first.
abbrev pub unit_bytes : List ℕ → Bytes
unit_bytes [] = []
unit_bytes (u ∷ us) = byte u ∷ byte (u / 256) ∷ unit_bytes us

-- while (str[len]) len++
unfoldable pub until_nul : List ℕ → List ℕ
until_nul [] = []
until_nul (u ∷ us) = let rest = until_nul us in if u == 0 then [] else u ∷ rest

abbrev pub max_bio_size : ℕ
max_bio_size = 2 ^ 30

unfoldable pub bio_put_string16 : Reply → List ℕ → Reply
bio_put_string16 reply str =
    let s = until_nul str in
    if leb (max_bio_size / 2) (length s)
    then bio_put_uint32 reply 0xffffffff
    else bio_put (bio_put_uint32 reply (length s)) (unit_bytes (s ++ 0 ∷ []))

-- bio_put_ref: for a handle that is not 0, bio_alloc_obj notes the offset of the object. Where no offset is
-- left, the memory is used up all the same. The flags, type, handle and cookie that the function stores
-- into a flat_binder_object are laid out by a header of the kernel: `encode_ref` is what they are in bytes.
unfoldable pub bio_put_ref : Driver → Reply → ℕ → Reply
bio_put_ref driver reply handle =
    let size = aligned driver.object_size in
    let after = bio_put reply (driver.encode_ref handle) in
    if handle == 0
    then after
    else if ltb reply.data_avail size
    then record reply { overflow = true }
    else if reply.offs_avail == 0
    then record (bio_put reply (padding reply.stale (length reply.written) driver.object_size)) {
      overflow = true;
    }
    else record after {
      offs = reply.offs ++ length reply.written ∷ [];
      offs_avail = reply.offs_avail - 1;
    }
