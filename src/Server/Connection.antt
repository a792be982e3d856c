-- ===== src/Server/Connection.antt =====
-- The queries of a TCP connection.
use local_dns.Base.{
  ℕ, zero, suc, ◌≤◌, ◌≡◌, refl, ap, List, [], ◌∷◌, ◌++◌, Bool, true, Bytes, Option, none, some,
  arith, length, All, Option-cases, inl, inr, Bool-cases,
}
use local_dns.Server.Answer.{Server}
use local_dns.Server.Wire.{read_tcp_msg, write_tcp_msg}
use local_dns.Server.Wire.Frames.{read_tcp_msg-write_tcp_msg}
use local_dns.Server.Handle.{Network, tcp, handle, serve_rounds, serve_tcp_conn}

-- A message that a frame can hold.
abbrev IsMessage : Bytes → Type 0
IsMessage msg = (1 ≤ length msg) × (length msg ≤ 65535)

abbrev bytes_of_frame : Option Bytes → Bytes
bytes_of_frame none = []
bytes_of_frame (some out) = out

-- The messages as a client writes them, one after the other.
abbrev pub stream_of : List Bytes → Bytes
stream_of [] = []
stream_of (msg ∷ msgs) = bytes_of_frame (write_tcp_msg msg) ++ stream_of msgs

abbrev framed : Option Bytes → Bytes
framed none = []
framed (some resp) = bytes_of_frame (write_tcp_msg resp)

-- The answers that are given until the rounds are used up, each in a frame.
abbrev pub answers_to : (ℕ → Bytes → Option Bytes) → ℕ → List Bytes → List Bytes
answers_to served zero msgs = []
answers_to served (suc n) [] = []
answers_to served (suc n) (msg ∷ msgs) = framed (served n msg) ∷ answers_to served n msgs

serve_rounds-length :
    (served : ℕ → Bytes → Option Bytes) (written : ℕ → Bool) (n : ℕ) (stream : Bytes)
    → length (serve_rounds served written n stream) ≤ n
unfolding serve_rounds
serve_rounds-length served written zero stream = omega arith
serve_rounds-length served written (suc n) stream = elim (Option-cases (read_tcp_msg stream)) [
  | inl e ↦ rw (e, serve_rounds) (omega arith)
  | inr (r, e) ↦ elim (Option-cases (served n r.0)) [
    | inl f ↦ rw (e, serve_rounds, f) (omega arith)
    | inr (resp, f) ↦ elim (Option-cases (write_tcp_msg resp)) [
      | inl g ↦ rw (e, serve_rounds, f, g) (omega arith)
      | inr (out, g) ↦ elim (Bool-cases (written n)) [
        | inr t ↦ rw (e, serve_rounds, f, g, t) (omega arith)
        | inl t ↦
            rw (e, serve_rounds, f, g, t) (omega (arith, serve_rounds-length served written n r.1))
      ]
    ]
  ]
]

-- A message that is answered in one frame, whatever the round.
abbrev pub IsServed : (ℕ → Bytes → Option Bytes) → Bytes → Type 0
IsServed served msg = (n : ℕ) → (resp : Bytes) × (served n msg ≡ some resp) × IsMessage resp

module _ (served : ℕ → Bytes → Option Bytes) (written : ℕ → Bool)
    (writes : (n : ℕ) → written n ≡ true) where
  serve_rounds-stream_of :
      (n : ℕ) (msgs : List Bytes)
      → All IsMessage msgs
      → All (IsServed served) msgs
      → serve_rounds served written n (stream_of msgs) ≡ answers_to served n msgs
  unfolding serve_rounds
  serve_rounds-stream_of zero msgs h k = refl
  serve_rounds-stream_of (suc n) [] h k = unfold read_tcp_msg in refl
  serve_rounds-stream_of (suc n) (msg ∷ msgs) ((lo, hi), h) (answered, k) =
      let (out, wrote, back) = read_tcp_msg-write_tcp_msg msg (stream_of msgs) lo hi in
      let (resp, given, (lo', hi')) = answered n in
      let (frame, put, _) = read_tcp_msg-write_tcp_msg resp [] lo' hi' in
      rw (wrote, serve_rounds, back, given, put, writes n)
        (ap (◌∷◌ frame) (serve_rounds-stream_of n msgs h k))

-- A connection answers the queries that it is sent in their order, up to the sixty-fourth, and
-- writes each answer as one frame, if every query and every answer fits in one, the handler answers
-- each, and the writes succeed.
pub serve_tcp_conn-stream_of :
    (s : Server) (clock : ℕ → ℕ) (nets : ℕ → Network) (written : ℕ → Bool) (msgs : List Bytes)
    → ((n : ℕ) → written n ≡ true)
    → All IsMessage msgs
    → All (IsServed (λ n req. handle s (clock n) (nets n) req tcp)) msgs
    → (serve_tcp_conn s clock nets written (stream_of msgs)
        ≡ answers_to (λ n req. handle s (clock n) (nets n) req tcp) 64 msgs)
unfolding serve_tcp_conn
serve_tcp_conn-stream_of s clock nets written msgs writes h k =
    serve_rounds-stream_of (λ n req. handle s (clock n) (nets n) req tcp) written writes 64 msgs h k

-- Whatever the client sends, one connection writes at most sixty-four frames.
pub length-serve_tcp_conn :
    (s : Server) (clock : ℕ → ℕ) (nets : ℕ → Network) (written : ℕ → Bool) (stream : Bytes)
    → length (serve_tcp_conn s clock nets written stream) ≤ 64
unfolding serve_tcp_conn
length-serve_tcp_conn s clock nets written stream =
    serve_rounds-length (λ n req. handle s (clock n) (nets n) req tcp) written 64 stream
