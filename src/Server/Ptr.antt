-- ===== src/Server/Ptr.antt =====
-- The reverse lookup of an address that a name leads to.
use local_dns.Base.{
  ℕ, ◌+◌, ◌≤◌, ◌≡◌, refl, ap, ◌∙◌, ◌++◌, [], ◌∷◌, All, true, false, Bytes, Option, some, ok, arith,
  length, ltb, le→ltb, ◌==◌, bytes_eq, Option-cases, inl, inr,
}
use local_dns.Base.Text.{has_suffix, split}
use local_dns.Dict.{get}
use local_dns.Dict.Entries.{Holds-get}
use local_dns.Dnsmsg.Word.{IsByte, type_ptr, rcode_no_error}
use local_dns.Dnsmsg.Header.{Header}
use local_dns.Dnsmsg.Name.{encode_name}
use local_dns.Dnsmsg.Name.Wire.{wire}
use local_dns.Dnsmsg.Question.{Question}
use local_dns.Dnsmsg.Reverse.{reverse_name, parse_reverse_name}
use local_dns.Dnsmsg.Reverse.RoundTrip.{parse_reverse_name-reverse_name}
use local_dns.Names.Valid.{IsHostName}
use local_dns.Names.Valid.Encodable.{encode_name-fqdn}
use local_dns.Store.State.{Store}
use local_dns.Store.Entries.{IsMapping}
use local_dns.Store.Invariant.{IsStore}
use local_dns.Store.Resolve.{resolve_name, resolve_ptr}
use local_dns.Store.Resolve.Reverse.{Leads, IsAnswer, resolve_ptr-IsAnswer}
use local_dns.Server.Answer.{Server, own_record, reply, answer_ptr, local, local_ptr}
use local_dns.Server.Handle.{Network, Transport, handle}
use local_dns.Server.Local.{IsAsked, Says, reply-Says, handle-local_eq}
use local_dns.Server.Managed.{serving}

-- A name that is found in a well-formed store is a host name.
resolve_name-IsHostName :
    (s : Store) (k : Bytes) (o : Option Bytes)
    → IsStore s
    → resolve_name k s ≡ some o
    → IsHostName k
unfolding resolve_name
resolve_name-IsHostName s k o v e = elim (Option-cases (get k s.mappings)) [
  | inl missing ↦ absurd (ground arith)
  | inr (m, there) ↦ (Holds-get IsMapping k m s.mappings v.mappings.0 there).1
]

-- `ResolvePTR` finds a name where there is one.
resolve_ptr-Leads :
    (s : Store) (ip k : Bytes)
    → Leads s ip k
    → (h : Bytes) × (resolve_ptr ip s ≡ some h) × Leads s ip h
unfolding IsAnswer
resolve_ptr-Leads s ip k leads = elim (Option-cases (resolve_ptr ip s)) [
  | inl nobody ↦ absurd ((rw nobody at (resolve_ptr-IsAnswer ip s)) k leads)
  | inr (h, found) ↦ (h, found, (rw found at (resolve_ptr-IsAnswer ip s)).0)
]

module _ (srv : Server) (s : Store) (req : Bytes) (h : Header) (q : Question) (ip least : Bytes)
    (v : IsAsked req h q) where
  -- The answer for a reverse name outside the domain whose address is found.
  local-found :
      q.qtype ≡ type_ptr
      → bytes_eq q.name srv.domain ≡ false
      → has_suffix q.name (b'.' ∷ srv.domain) ≡ false
      → parse_reverse_name q.name ≡ some ip
      → resolve_ptr ip s ≡ some least
      → (now : ℕ) → local (serving srv s) now req q ≡ answer_ptr (serving srv s) req q least
  unfolding local
  local-found typed apex below parsed found now =
      let ptr : (q.qtype == type_ptr) ≡ true = ground (arith, typed) in
      rw (apex, local, below, ptr, local_ptr, parsed, found) refl

  answer_ptr-encoded :
      (encoded : Bytes)
      → encode_name (least ++ (b'.' ∷ srv.domain)) ≡ ok encoded
      → answer_ptr (serving srv s) req q least
        ≡ reply req q rcode_no_error (own_record srv type_ptr encoded ∷ []) []
  unfolding answer_ptr
  answer_ptr-encoded encoded e = rw (e, answer_ptr) refl

-- A host name below a domain of at most 52 bytes is encoded.
encode_name-below :
    (host domain : Bytes)
    → IsHostName host
    → IsHostName domain
    → length domain ≤ 52
    → (out : Bytes) × (encode_name (host ++ (b'.' ∷ domain)) ≡ ok out)
encode_name-below host domain v w short =
    let fits : ltb 255 (length host + length domain + 3) ≡ false =
      le→ltb 255 (length host + length domain + 3) (omega (arith, v.fits)) in
    (
      wire (split b'.' host ++ split b'.' domain) ++ 0 ∷ [],
      rw fits at (encode_name-fqdn host domain v w),
    )

-- A PTR question of the class IN for the reverse name of an IPv4 address, outside the domain, is
-- answered from a well-formed store if some name of the store leads to the address, and the domain
-- is a host name of at most 52 bytes: without an error, by one record, which has the full name of a
-- name that leads there, and the same whatever the upstream resolvers do.
pub handle-ptr :
    (srv : Server) (s : Store) (now : ℕ) (req : Bytes) (h : Header) (q : Question) (a b c d : ℕ)
    (k : Bytes)
    → IsStore s
    → IsAsked req h q
    → All IsByte (a ∷ b ∷ c ∷ d ∷ [])
    → q.qtype ≡ type_ptr
    → q.name ≡ reverse_name (a ∷ b ∷ c ∷ d ∷ [])
    → bytes_eq q.name srv.domain ≡ false
    → has_suffix q.name (b'.' ∷ srv.domain) ≡ false
    → IsHostName srv.domain
    → length srv.domain ≤ 52
    → Leads s (a ∷ b ∷ c ∷ d ∷ []) k
    → (least fqdn resp : Bytes) × Leads s (a ∷ b ∷ c ∷ d ∷ []) least
      × (encode_name (least ++ (b'.' ∷ srv.domain)) ≡ ok fqdn)
      × (reply req q rcode_no_error (own_record srv type_ptr fqdn ∷ []) [] ≡ some resp)
      × ((net : Network) (transport : Transport)
          → handle (serving srv s) now net req transport ≡ some resp)
      × Says h q resp rcode_no_error 1 0
unfolding Leads
handle-ptr srv s now req h q a b c d k sound v bytes typed named apex below domain short leads =
    let ip = (a ∷ b ∷ c ∷ d ∷ []) in
    let (least, found, there) = resolve_ptr-Leads s ip k leads in
    let (cur, known, _) = there in
    let (fqdn, encoded) =
      encode_name-below least srv.domain (resolve_name-IsHostName s least (some cur) sound known)
        domain short in
    let parsed : parse_reverse_name q.name ≡ some ip =
      ap parse_reverse_name named ∙ parse_reverse_name-reverse_name a b c d bytes in
    let (resp, given, says) =
      reply-Says req h q v rcode_no_error (own_record srv type_ptr fqdn ∷ []) [] refl in
    let here =
      local-found srv s req h q ip least v typed apex below parsed found now
      ∙ (answer_ptr-encoded srv s req h q ip least v fqdn encoded ∙ given) in
    (
      least,
      fqdn,
      resp,
      there,
      encoded,
      given,
      handle-local_eq (serving srv s) now req resp h q v here,
      says,
    )
