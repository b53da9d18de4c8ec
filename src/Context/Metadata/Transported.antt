-- ===== src/Context/Metadata/Transported.antt =====
-- A context on its way through gRPC metadata, from the client's interceptor to the server's.
use kd.Base.{
  ℕ, ◌≡◌, refl, ap, ◌∙◌, inl, inr, Bool, true, false, not, ◌&&◌, ◌||◌, Bool-cases, Text, lit,
  is_empty, str_eq, eq_of_str_eq, starts_with, leb, ◌==◌, List, [], ◌∷◌, ◌++◌, append_nil, Option,
  none, some, arith, if◌then◌else◌, All, All-append,
}
use kd.Context.{RequestContext, no_context}
use kd.Context.Store.{Store, get_current}
use kd.Context.Metadata.{
  Metadata, entry, add_metadata, client_intercept, receive, receive_all, server_intercept,
}

-- The values under a key, in order.
abbrev values : Text → Metadata → List Text
values k [] = []
values k ((j, v) ∷ es) = if str_eq j k then v ∷ values k es else values k es

abbrev all_bytes : (ℕ → Bool) → Text → Bool
all_bytes p [] = true
all_bytes p (c ∷ s) = p c && all_bytes p s

abbrev is_key_byte : ℕ → Bool
is_key_byte c =
    (leb b'a' c && leb c b'z') || (leb b'0' c && leb c b'9') || c == b'-' || c == b'_' || c == b'.'

abbrev is_value_byte : ℕ → Bool
is_value_byte c = leb 32 c && leb c 126

abbrev last_byte : ℕ → Text → ℕ
last_byte c [] = c
last_byte c (d ∷ s) = last_byte d s

-- Without a space at either end
abbrev is_trimmed : Text → Bool
is_trimmed [] = true
is_trimmed (c ∷ s) = not (c == 32) && not (last_byte c s == 32)

abbrev IsPlain : Text → Type 0
IsPlain v = (all_bytes is_value_byte v ≡ true) × (is_trimmed v ≡ true)

-- What gRPC takes as an entry of text: a key of lower-case letters, digits and `-`, `_`, `.`, and a
-- value of printable ASCII without a space at either end.
abbrev IsSendable : Text × Text → Type 0
IsSendable (key, v) = (all_bytes is_key_byte key ≡ true) × IsPlain v

-- What gRPC documents of the metadata that a server gets: under a key of the application, here one
-- that begins with `x-`, the values that were sent, in order. The order of the keys is left open, and
-- gRPC may add entries of its own.
pub record IsTransport (deliver : Metadata → Metadata) : Type 0 where
  pub keeps :
      (sent : Metadata)
      → All IsSendable sent
      → (key : Text) → starts_with key (lit "x-") ≡ true
      → values key (deliver sent) ≡ values key sent

abbrev pub delivered : (Metadata → Metadata) → Option Metadata → Option Metadata
delivered deliver none = none
delivered deliver (some sent) = some (deliver sent)

abbrev IsPlainContext : RequestContext → Type 0
IsPlainContext ctx =
    IsPlain ctx.request_id
    × IsPlain ctx.trace_id
    × IsPlain ctx.user_id
    × IsPlain ctx.traffic_tag
    × IsPlain ctx.client_version
    × IsPlain ctx.zone

-- No entry under one of the six keys of a context.
abbrev IsForeign : Metadata → Type 0
IsForeign sent =
    (values (lit "x-request-id") sent ≡ [])
    × (values (lit "x-trace-id") sent ≡ [])
    × (values (lit "x-user-id") sent ≡ [])
    × (values (lit "x-traffic-tag") sent ≡ [])
    × (values (lit "x-client-version") sent ≡ [])
    × (values (lit "x-zone") sent ≡ [])

abbrev last_or : Text → List Text → Text
last_or old [] = old
last_or old (v ∷ vs) = last_or v vs

-- A field of a context that an entry under its key overwrites holds the last value.
receive_all-field :
    (field : RequestContext → Text) (key : Text)
    → ((ctx : RequestContext) (e : Text × Text)
        → field (receive ctx e) ≡ (if str_eq e.0 key then e.1 else field ctx))
    → (ctx : RequestContext) (es : Metadata)
    → field (receive_all ctx es) ≡ last_or (field ctx) (values key es)
unfolding receive_all
receive_all-field field key one ctx [] = refl
receive_all-field field key one ctx ((j, v) ∷ es) =
    let later = receive_all-field field key one (receive ctx (j, v)) es in
    later
    ∙ rw (one ctx (j, v))
        (elim (Bool-cases (str_eq j key)) [ inl same ↦ rw same refl | inr other ↦ rw other refl ])

differ : (key a b : Text) → str_eq a b ≡ false → str_eq key a ≡ true → str_eq key b ≡ false
differ key a b h e = rw (eq_of_str_eq key a e) h

receive-request_id :
    (ctx : RequestContext) (e : Text × Text)
    → (receive ctx e).request_id ≡ (if str_eq e.0 (lit "x-request-id") then e.1 else ctx.request_id)
unfolding receive str_eq lit
receive-request_id ctx e = ground (arith)

receive-trace_id :
    (ctx : RequestContext) (e : Text × Text)
    → (receive ctx e).trace_id ≡ (if str_eq e.0 (lit "x-trace-id") then e.1 else ctx.trace_id)
unfolding receive str_eq lit
receive-trace_id ctx e = ground (arith, differ e.0 (lit "x-trace-id") (lit "x-request-id") refl)

receive-user_id :
    (ctx : RequestContext) (e : Text × Text)
    → (receive ctx e).user_id ≡ (if str_eq e.0 (lit "x-user-id") then e.1 else ctx.user_id)
unfolding receive str_eq lit
receive-user_id ctx e = ground (
  arith,
  differ e.0 (lit "x-user-id") (lit "x-request-id") refl,
  differ e.0 (lit "x-user-id") (lit "x-trace-id") refl,
)

receive-traffic_tag :
    (ctx : RequestContext) (e : Text × Text)
    → (receive ctx e).traffic_tag
      ≡ (if str_eq e.0 (lit "x-traffic-tag") then e.1 else ctx.traffic_tag)
unfolding receive str_eq lit
receive-traffic_tag ctx e = ground (
  arith,
  differ e.0 (lit "x-traffic-tag") (lit "x-request-id") refl,
  differ e.0 (lit "x-traffic-tag") (lit "x-trace-id") refl,
  differ e.0 (lit "x-traffic-tag") (lit "x-user-id") refl,
)

receive-client_version :
    (ctx : RequestContext) (e : Text × Text)
    → (receive ctx e).client_version
      ≡ (if str_eq e.0 (lit "x-client-version") then e.1 else ctx.client_version)
unfolding receive str_eq lit
receive-client_version ctx e = ground (
  arith,
  differ e.0 (lit "x-client-version") (lit "x-request-id") refl,
  differ e.0 (lit "x-client-version") (lit "x-trace-id") refl,
  differ e.0 (lit "x-client-version") (lit "x-user-id") refl,
  differ e.0 (lit "x-client-version") (lit "x-traffic-tag") refl,
)

receive-zone :
    (ctx : RequestContext) (e : Text × Text)
    → (receive ctx e).zone ≡ (if str_eq e.0 (lit "x-zone") then e.1 else ctx.zone)
unfolding receive str_eq lit
receive-zone ctx e = ground (
  arith,
  differ e.0 (lit "x-zone") (lit "x-request-id") refl,
  differ e.0 (lit "x-zone") (lit "x-trace-id") refl,
  differ e.0 (lit "x-zone") (lit "x-user-id") refl,
  differ e.0 (lit "x-zone") (lit "x-traffic-tag") refl,
  differ e.0 (lit "x-zone") (lit "x-client-version") refl,
)

entry-All :
    (key v : Text) → all_bytes is_key_byte key ≡ true → IsPlain v → All IsSendable (entry key v)
entry-All key [] h plain = tt
entry-All key (c ∷ s) h plain = ((h, plain), tt)

add_metadata-All : (ctx : RequestContext) → IsPlainContext ctx → All IsSendable (add_metadata ctx)
unfolding add_metadata lit
add_metadata-All ctx (a, b, c, d, e, f) = All-append _ _ _ (entry-All _ ctx.request_id refl a) (
    All-append _ _ _ (entry-All _ ctx.trace_id refl b) (
      All-append _ _ _ (entry-All _ ctx.user_id refl c) (
        All-append _ _ _ (entry-All _ ctx.traffic_tag refl d) (
          All-append _ _ _ (entry-All _ ctx.client_version refl e) (entry-All _ ctx.zone refl f)))))

pub values-append :
    (key : Text) (xs ys : Metadata) → values key (xs ++ ys) ≡ values key xs ++ values key ys
values-append key [] ys = refl
values-append key ((j, v) ∷ xs) ys = ground (arith, values-append key xs ys)

values-entry :
    (key j v : Text)
    → values key (entry j v) ≡ (if str_eq j key then (if is_empty v then [] else v ∷ []) else [])
values-entry key j [] = ground arith
values-entry key j (c ∷ s) = ground arith

last_or-entry : (v : Text) → last_or [] (if is_empty v then [] else v ∷ []) ≡ v
last_or-entry [] = refl
last_or-entry (c ∷ s) = refl

ruleset values_laws = (values-append, values-entry, append_nil, last_or-entry)

last-request_id :
    (ctx : RequestContext)
    → last_or [] (values (lit "x-request-id") (add_metadata ctx)) ≡ ctx.request_id
unfolding add_metadata str_eq lit
last-request_id ctx = simp values_laws

last-trace_id :
    (ctx : RequestContext)
    → last_or [] (values (lit "x-trace-id") (add_metadata ctx)) ≡ ctx.trace_id
unfolding add_metadata str_eq lit
last-trace_id ctx = simp values_laws

last-user_id :
    (ctx : RequestContext) → last_or [] (values (lit "x-user-id") (add_metadata ctx)) ≡ ctx.user_id
unfolding add_metadata str_eq lit
last-user_id ctx = simp values_laws

last-traffic_tag :
    (ctx : RequestContext)
    → last_or [] (values (lit "x-traffic-tag") (add_metadata ctx)) ≡ ctx.traffic_tag
unfolding add_metadata str_eq lit
last-traffic_tag ctx = simp values_laws

last-client_version :
    (ctx : RequestContext)
    → last_or [] (values (lit "x-client-version") (add_metadata ctx)) ≡ ctx.client_version
unfolding add_metadata str_eq lit
last-client_version ctx = simp values_laws

last-zone :
    (ctx : RequestContext) → last_or [] (values (lit "x-zone") (add_metadata ctx)) ≡ ctx.zone
unfolding add_metadata str_eq lit
last-zone ctx = simp values_laws

module _ (deliver : Metadata → Metadata) (transport : IsTransport deliver) (ctx : RequestContext)
    (sent : Metadata) (plain : IsPlainContext ctx) (sendable : All IsSendable sent) where
  abbrev arrived : Metadata
  arrived = deliver (sent ++ add_metadata ctx)

  last_arrived :
      (key : Text)
      → starts_with key (lit "x-") ≡ true
      → values key sent ≡ []
      → last_or [] (values key arrived) ≡ last_or [] (values key (add_metadata ctx))
  last_arrived key application none_sent =
      let kept =
        transport.keeps (sent ++ add_metadata ctx)
          (All-append _ sent _ sendable (add_metadata-All ctx plain)) key application in
      ap (last_or []) {y = values key (add_metadata ctx)}
        (kept ∙ rw (values-append key sent (add_metadata ctx), none_sent) refl)

  context_arrives : IsForeign sent → receive_all no_context arrived ≡ ctx
  unfolding starts_with lit
  context_arrives (a, b, c, d, e, f) =
      let request_id_arrives : (receive_all no_context arrived).request_id ≡ ctx.request_id =
        receive_all-field (λ r. r.request_id) (lit "x-request-id") receive-request_id no_context
          arrived
        ∙ last_arrived (lit "x-request-id") refl a
        ∙ last-request_id ctx in
      let trace_id_arrives : (receive_all no_context arrived).trace_id ≡ ctx.trace_id =
        receive_all-field (λ r. r.trace_id) (lit "x-trace-id") receive-trace_id no_context arrived
        ∙ last_arrived (lit "x-trace-id") refl b
        ∙ last-trace_id ctx in
      let user_id_arrives : (receive_all no_context arrived).user_id ≡ ctx.user_id =
        receive_all-field (λ r. r.user_id) (lit "x-user-id") receive-user_id no_context arrived
        ∙ last_arrived (lit "x-user-id") refl c
        ∙ last-user_id ctx in
      let traffic_tag_arrives : (receive_all no_context arrived).traffic_tag ≡ ctx.traffic_tag =
        receive_all-field (λ r. r.traffic_tag) (lit "x-traffic-tag") receive-traffic_tag no_context
          arrived
        ∙ last_arrived (lit "x-traffic-tag") refl d
        ∙ last-traffic_tag ctx in
      let client_version_arrives : (receive_all no_context arrived).client_version
          ≡ ctx.client_version =
        receive_all-field (λ r. r.client_version) (lit "x-client-version") receive-client_version
          no_context arrived
        ∙ last_arrived (lit "x-client-version") refl e
        ∙ last-client_version ctx in
      let zone_arrives : (receive_all no_context arrived).zone ≡ ctx.zone =
        receive_all-field (λ r. r.zone) (lit "x-zone") receive-zone no_context arrived
        ∙ last_arrived (lit "x-zone") refl f
        ∙ last-zone ctx in
      ground arith

-- The current context of a client, with values of printable ASCII that no space begins or ends,
-- arrives unchanged at the server and is current there until the status of the call is sent. The
-- other metadata of the call must be sendable too and have none of the six keys of a context. gRPC
-- may add entries and reorder the keys.
pub context_propagates :
    (deliver : Metadata → Metadata) (ctx : RequestContext) (sent : Metadata) (server : Store)
    → IsTransport deliver
    → IsPlainContext ctx
    → All IsSendable sent
    → IsForeign sent
    → let metadata = delivered deliver (client_intercept (some ctx) (some sent)) in
      let serving = server_intercept true false metadata server in
      (serving ≡ some ctx)
      × (get_current serving ≡ ctx)
      × (server_intercept false true metadata serving ≡ none)
unfolding client_intercept server_intercept get_current
context_propagates deliver ctx sent server transport plain sendable foreign =
    let e = context_arrives deliver transport ctx sent plain sendable foreign in
    (ap some e, e, refl)
