-- ===== src/Rpc/Codec.antt =====
-- rpc/rpc_codec.h and rpc/rpc_codec.cpp: magic(4) version(1) type(1) req_id(8) method_len(2) method
-- body_len(4) body.
pub mod RoundTrip
pub mod Stream
use lightnet.Common.{
  ltb, leb, ◌==◌, if◌then◌else◌, ltb→lt, lt→ltb, le→ltb, le→leb, lt→leb, ltb→ge, leb→le, leb→gt,
  ==→eq, ==→ne, eq→==, ==-refl, Bool-cases, Option-cases, bytes_eq, bytes_eq_refl, bytes_eq→eq,
  ◌>>=◌, ◌>>◌, guard, length, take, drop, replicate, get_or, All, length-append, length-take,
  length-drop, length-replicate, take-append-drop, take_all, drop_all, drop-nil, take-append_le,
  drop-append_le, take-append_ge, drop-append_ge, take_front, drop_front, drop-drop, drop-take,
  length-map, take_first, drop_first, to_signed, to_unsigned, InRange, to_signed-to_unsigned,
  to_unsigned-lt, IsByte, le_bytes, of_le, length-le_bytes, le_bytes-IsByte, of_le-le_bytes, ℤ, pos,
  negsuc, ℕ, zero, suc, ◌+◌, ◌-◌, ◌*◌, ◌/◌, ◌%◌, ◌^◌, ◌≤◌, ◌<◌, min, max, ◌≡◌, refl, sym, ap, ◌∙◌,
  subst, ◌≢◌, ◌↔◌, ◌⊎◌, inl, inr, Bool, true, false, not, ◌&&◌, ◌||◌, Option, none, some, List, [],
  ◌∷◌, ◌++◌, map, append_assoc, append-nil, arith,
}
use lightnet.Buffer.{Buffer, new, ensure_writable, append, peek, readable_bytes, retrieve}

pub data RpcMessageType : Type 0 where
  request response oneway : RpcMessageType
  -- A value of the underlying byte that has no enumerator.
  unnamed : ℕ → RpcMessageType

unfoldable pub type_code : RpcMessageType → ℕ
type_code request = 1
type_code response = 2
type_code oneway = 3
type_code (unnamed n) = n

unfoldable pub type_of : ℕ → RpcMessageType
type_of n =
    if n == 1 then request else if n == 2 then response else if n == 3 then oneway else unnamed n

pub record RpcMessage : Type 0 where
  pub type : RpcMessageType
  pub request_id : ℕ
  pub method : List ℕ
  pub payload : List ℕ

abbrev pub magic : ℕ
magic = 0x4C4E5250

abbrev pub protocol_version : ℕ
protocol_version = 1

unfoldable pub encode : RpcMessage → Option Buffer
encode msg = do
  buf ← ensure_writable new (4 + 1 + 1 + 8 + 2 + length msg.method + 4 + length msg.payload)
  buf ← append buf (le_bytes 4 magic)
  buf ← append buf (protocol_version ∷ [])
  buf ← append buf (type_code msg.type ∷ [])
  buf ← append buf (le_bytes 8 msg.request_id)
  buf ← append buf (le_bytes 2 (length msg.method % 2 ^ 16))
  buf ← append buf msg.method
  buf ← append buf (le_bytes 4 (length msg.payload % 2 ^ 32))
  append buf msg.payload

-- The `n` bytes at an offset, which the code copies after it has checked that they are there.
abbrev pub slice : List ℕ → ℕ → ℕ → List ℕ
slice p i n = take n (drop i p)

-- The message at `p`, of which `readable` bytes are there, and its length.
unfoldable pub decode_at : ℕ → List ℕ → Option (RpcMessage × ℕ)
decode_at readable p = do
  guard (not (ltb readable 16))
  guard (of_le (take 4 p) == magic)
  guard (get_or p 4 0 == protocol_version)
  let method_len = of_le (slice p 14 2)
  let header_size = 16 + method_len + 4
  guard (not (ltb readable header_size))
  let body_len = of_le (slice p (16 + method_len) 4)
  let total = header_size + body_len
  guard (not (ltb readable total))
  some (
    record {
      type = type_of (get_or p 5 0);
      request_id = of_le (slice p 6 8);
      method = slice p 16 method_len;
      payload = slice p header_size body_len;
    },
    total,
  )

-- The message in front of the buffer is taken off; `none`, the result false, leaves the buffer alone.
unfoldable pub decode : Buffer → Option (RpcMessage × Buffer)
decode buf = do
  (msg, total) ← decode_at (readable_bytes buf) (peek buf)
  some (msg, retrieve buf total)

-- The values that `static_cast` maps back to themselves.
abbrev pub IsType : RpcMessageType → Type 0
IsType (unnamed n) = n < 1 ⊎ 3 < n
IsType _ = Unit {0}

pub type_of-type_code : (t : RpcMessageType) → IsType t → type_of (type_code t) ≡ t
unfolding type_of type_code
type_of-type_code (unnamed n) h = ground arith
type_of-type_code _ h = refl

-- What fits the fields of the header.
pub record IsMessage (m : RpcMessage) : Type 0 where
  pub type_fit : IsType m.type
  pub id_fit : m.request_id < 2 ^ 64
  pub method_fit : length m.method < 2 ^ 16
  pub payload_fit : length m.payload < 2 ^ 32
