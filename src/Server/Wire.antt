-- ===== src/Server/Wire.antt =====
-- server.go: messages on a TCP stream, and the exchanges with an upstream resolver.
pub mod Frames
use local_dns.Base.{
  ℕ, zero, suc, ◌+◌, ◌^◌, ◌%◌, List, [], ◌∷◌, ◌++◌, Bool, true, false, not, ◌&&◌, Bytes, Option,
  none, some, length, take, drop, ltb, leb, ◌==◌, if◌then◌else◌,
}
use local_dns.Dnsmsg.Word.{byte_at, uint16_at, put_uint16}

abbrev pub max_tcp_msg : ℕ
max_tcp_msg = 65535

-- `io.ReadFull`: the bytes and the rest of the stream, or `none` if it ends before.
abbrev pub read_full : ℕ → Bytes → Option (Bytes × Bytes)
read_full n stream = if ltb (length stream) n then none else some (take n stream, drop n stream)

-- The message, with the rest of the stream.
unfoldable pub read_tcp_msg : Bytes → Option (Bytes × Bytes)
read_tcp_msg stream = elim (read_full 2 stream) [
  | none ↦ none
  | some r ↦ (let msg_len = uint16_at r.0 0 in if msg_len == 0 then none else read_full msg_len r.1)
]

-- The bytes that are written, or `none` for a message that is too large.
unfoldable pub write_tcp_msg : Bytes → Option Bytes
write_tcp_msg msg =
    if ltb max_tcp_msg (length msg) then none else some (put_uint16 (length msg % 2 ^ 16) ++ msg)

-- What an upstream resolver does in one exchange: whether it can be reached and written to, the
-- datagrams that come back with `none` for a read that fails, and the bytes of its TCP stream.
pub record Upstream : Type 0 where
  pub dialed : Bool
  pub written : Bool
  pub datagrams : List (Option Bytes)
  pub stream : Bytes

-- `n >= 2 && buf[0] == req[0] && buf[1] == req[1]`
abbrev pub same_id : Bytes → Bytes → Bool
same_id resp req =
    leb 2 (length resp) && (byte_at resp 0 == byte_at req 0) && (byte_at resp 1 == byte_at req 1)

-- The loop over the attempts.
unfoldable pub await : ℕ → Bytes → List (Option Bytes) → Option Bytes
await zero req datagrams = none
await (suc attempts) req [] = none
await (suc attempts) req (none ∷ datagrams) = none
await (suc attempts) req (some datagram ∷ datagrams) =
    let later = await attempts req datagrams in
    let resp = take max_tcp_msg datagram in if same_id resp req then some resp else later

unfoldable pub exchange_udp : Upstream → Bytes → Option Bytes
unfolding await
exchange_udp up req = if up.dialed && up.written then await 3 req up.datagrams else none

unfoldable pub exchange_tcp : Upstream → Bytes → Option Bytes
unfolding read_tcp_msg write_tcp_msg
exchange_tcp up req = if not up.dialed then none else elim (write_tcp_msg req) [
  | none ↦ none
  | some out ↦
      if not up.written
      then none
      else elim (read_tcp_msg up.stream) [ none ↦ none | some r ↦ some r.0 ]
]
