-- ===== src/Server/Wire/Frames.antt =====
-- Messages on a stream come back as they were written; a UDP answer has the query's number.
use local_dns.Base.{
  ℕ, zero, suc, ◌+◌, ◌*◌, ◌/◌, ◌%◌, ◌^◌, ◌≤◌, ◌≡◌, refl, ◌∙◌, List, [], ◌∷◌, ◌++◌, true, false,
  ◌&&◌, Bytes, Option, none, some, arith, length, take, ltb, ◌==◌, Bool-cases, inl, inr, le→ltb,
  length-append, drop_of_length-append, take_of_length-append,
}
use local_dns.Dnsmsg.Word.{put_uint16}
use local_dns.Server.Wire.{
  max_tcp_msg, read_full, read_tcp_msg, write_tcp_msg, Upstream, same_id, await, exchange_udp,
}

read_full-append :
    (n : ℕ) (msg rest : Bytes) → n ≡ length msg → read_full n (msg ++ rest) ≡ some (msg, rest)
read_full-append n msg rest e =
    let long : ltb (length (msg ++ rest)) n ≡ false =
      le→ltb (length (msg ++ rest)) n (omega (arith, length-append msg rest)) in
    rw (long, take_of_length-append msg rest n e, drop_of_length-append msg rest n 0 (omega arith))
      refl

read_tcp_msg-prefix :
    (a b n : ℕ) (s : Bytes) → a * 256 + b ≡ n → 1 ≤ n → read_tcp_msg (a ∷ b ∷ s) ≡ read_full n s
unfolding read_tcp_msg
read_tcp_msg-prefix a b n s e lo =
    rw (read_full-append 2 (a ∷ b ∷ []) s refl, read_tcp_msg)
      (let some_length : (n == 0) ≡ false = ground arith in rw (e, some_length) refl)

-- A message of 1 to 65535 bytes is written by `writeTCPMsg` and read back by `readTCPMsg`, with
-- nothing of what follows it on the stream taken.
pub read_tcp_msg-write_tcp_msg :
    (msg rest : Bytes)
    → 1 ≤ length msg
    → length msg ≤ 65535
    → (out : Bytes) × (write_tcp_msg msg ≡ some out)
      × (read_tcp_msg (out ++ rest) ≡ some (msg, rest))
unfolding read_tcp_msg write_tcp_msg
read_tcp_msg-write_tcp_msg msg rest lo hi =
    let n = length msg in
    (
      put_uint16 (n % 2 ^ 16) ++ msg,
      ground arith,
      read_tcp_msg-prefix (n % 2 ^ 16 / 256 % 256) (n % 2 ^ 16 % 256) n (msg ++ rest) (omega arith)
            lo
          ∙ read_full-append n msg rest refl,
    )

await-same_id :
    (attempts : ℕ) (req : Bytes) (datagrams : List (Option Bytes)) (resp : Bytes)
    → await attempts req datagrams ≡ some resp
    → same_id resp req ≡ true
unfolding await
await-same_id zero req datagrams resp h = cc
await-same_id (suc n) req [] resp h = cc
await-same_id (suc n) req (none ∷ datagrams) resp h = cc
await-same_id (suc n) req (some d ∷ datagrams) resp h =
    elim (Bool-cases (same_id (take max_tcp_msg d) req)) [
      | inl e ↦
          let is : some (take max_tcp_msg d) ≡ some resp = rw (e, await) at h in
          let same : take max_tcp_msg d ≡ resp = ground arith in rw (← same) e
      | inr e ↦ await-same_id n req datagrams resp (rw (e, await) at h)
    ]

pub exchange_udp-same_id :
    (up : Upstream) (req resp : Bytes) → exchange_udp up req ≡ some resp → same_id resp req ≡ true
unfolding exchange_udp
exchange_udp-same_id up req resp h =
    await-same_id 3 req up.datagrams resp (elim (Bool-cases (up.dialed && up.written)) [
      | inl e ↦ rw (e, exchange_udp) at h
      | inr e ↦ absurd (ground arith)
    ])
