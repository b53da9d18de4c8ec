-- ===== src/Gateway/Http/Headers.antt =====
-- The headers of a request in gateways/access_gateway/http/http_server.cpp, and the context that is
-- built from them, with BuildContextFromHeaders of context/gateway_context.cpp.
use kd.Base.{
  ℕ, ◌++◌, ◌≡◌, ◌≢◌, refl, Option, none, some, List, Text, lit, is_empty, [], ◌∷◌, if◌then◌else◌,
  show, Dict, lookup, insert, lookup-insert_self,
}
use kd.Log.{to_lower_ascii}
use kd.Context.{RequestContext}

abbrev pub HeaderMap : Type 0
HeaderMap = Dict Text

abbrev text_or_empty : Option Text → Text
text_or_empty none = []
text_or_empty (some v) = v

unfoldable header_or_empty : HeaderMap → Text → Text
unfolding to_lower_ascii
header_or_empty headers key = text_or_empty (lookup (to_lower_ascii key) headers)

-- NormalizeHeaders, and the lowering of HandleRequestForTesting: a later field replaces an earlier
unfoldable pub normalize_headers : List (Text × Text) → HeaderMap → HeaderMap
unfolding to_lower_ascii
normalize_headers [] headers = headers
normalize_headers ((key, value) ∷ fields) headers =
    normalize_headers fields (insert (to_lower_ascii key) value headers)

unfoldable build_context_from_headers :
    (request_id trace_id traffic_tag client_version zone : Text) → RequestContext
build_context_from_headers request_id trace_id traffic_tag client_version zone = record {
  request_id = request_id;
  trace_id = trace_id;
  user_id = [];
  traffic_tag = traffic_tag;
  client_version = client_version;
  zone = zone;
}

-- `if (v.empty()) v = fallback`
abbrev or_default : Text → Text → Text
or_default v fallback = if is_empty v then fallback else v

-- The context of a request of `user_id`; `stem` is `gw-req-` or `gw-ws-`.
unfoldable pub request_context :
    (stem : Text) (headers : HeaderMap) (seq : ℕ) (user_id : Text) → RequestContext
unfolding header_or_empty build_context_from_headers
request_context stem headers seq user_id =
    let request_id = or_default (header_or_empty headers (lit "x-request-id")) (stem ++ show seq) in
    let trace_id = or_default (header_or_empty headers (lit "x-trace-id")) request_id in
    let traffic_tag = or_default (header_or_empty headers (lit "x-traffic-tag")) (lit "default") in
    let client_version =
      or_default (header_or_empty headers (lit "x-client-version")) (lit "unknown") in
    let zone = or_default (header_or_empty headers (lit "x-zone")) (lit "default") in
    record (build_context_from_headers request_id trace_id traffic_tag client_version zone) {
      user_id = user_id;
    }

or_default-filled : (v fallback : Text) → fallback ≢ [] → or_default v fallback ≢ []
or_default-filled [] fallback h = h
or_default-filled (c ∷ v) fallback h = λ e. absurd (cc e)

default_filled : lit "default" ≢ []
unfolding lit
default_filled e = absurd (cc e)

unknown_filled : lit "unknown" ≢ []
unfolding lit
unknown_filled e = absurd (cc e)

append-filled : (s t : Text) → s ≢ [] → s ++ t ≢ []
append-filled [] t h = absurd (h refl)
append-filled (c ∷ s) t h = λ e. absurd (cc e)

-- A context that is ready to be sent: all of it is filled but, perhaps, the user.
abbrev IsComplete : RequestContext → Type 0
IsComplete ctx =
    (ctx.request_id ≢ [])
    × (ctx.trace_id ≢ [])
    × (ctx.traffic_tag ≢ [])
    × (ctx.client_version ≢ [])
    × (ctx.zone ≢ [])

-- Whatever the headers are, the context of a request is complete and its user is the authenticated
-- one; a header `x-user-id` plays no part.
context-IsComplete :
    (stem : Text) (headers : HeaderMap) (seq : ℕ) (user_id : Text)
    → stem ≢ []
    → let ctx = request_context stem headers seq user_id in IsComplete ctx × (ctx.user_id ≡ user_id)
unfolding request_context build_context_from_headers
context-IsComplete stem headers seq user_id h =
    let id =
      or_default-filled (header_or_empty headers (lit "x-request-id")) _
        (append-filled stem (show seq) h) in
    (
      (
        id,
        or_default-filled (header_or_empty headers (lit "x-trace-id")) _ id,
        or_default-filled (header_or_empty headers (lit "x-traffic-tag")) _ default_filled,
        or_default-filled (header_or_empty headers (lit "x-client-version")) _ unknown_filled,
        or_default-filled (header_or_empty headers (lit "x-zone")) _ default_filled,
      ),
      refl,
    )

normalize-append :
    (fs gs : List (Text × Text)) (headers : HeaderMap)
    → normalize_headers (fs ++ gs) headers ≡ normalize_headers gs (normalize_headers fs headers)
unfolding normalize_headers
normalize-append [] gs headers = refl
normalize-append ((key, value) ∷ fs) gs headers = normalize-append fs gs _

-- After the headers are normalized, a key in any spelling finds the last field of that name.
last_field_found :
    (key asked value : Text) (fields : List (Text × Text)) (headers : HeaderMap)
    → to_lower_ascii asked ≡ to_lower_ascii key
    → header_or_empty (normalize_headers (fields ++ (key, value) ∷ []) headers) asked ≡ value
unfolding normalize_headers header_or_empty
last_field_found key asked value fields headers same =
    rw
      (
        same,
        normalize-append fields ((key, value) ∷ []) headers,
        lookup-insert_self (to_lower_ascii key) value (normalize_headers fields headers),
      )
      refl
