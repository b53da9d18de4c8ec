-- ===== src/Storage/Redis/Streams.antt =====
-- The streams are queues.
use kd.Base.{
  ℕ, ◌≡◌, refl, ◌∙◌, ap, Text, List, [], ◌∷◌, ◌++◌, lookup, lookup-insert_self, take, drop, map,
  append_nil, append_assoc, map-append, map-take, map-drop, drain-take,
}
use kd.Storage.Redis.{Redis, StreamMessage, queue_of, xadd, xread}

-- The payloads that wait in a stream, the oldest first.
abbrev pending : Text → Redis → List Text
pending stream s = map (λ m. m.payload) (queue_of (lookup stream s.streams))

-- XADD of several payloads, one after another.
unfoldable xadd_all : Text → List Text → Redis → Redis
xadd_all stream [] s = s
xadd_all stream (p ∷ ps) s = xadd_all stream ps (xadd stream p s).1

pending-xadd :
    (stream p : Text) (s : Redis) → pending stream (xadd stream p s).1 ≡ pending stream s ++ p ∷ []
unfolding xadd
pending-xadd stream p s =
    rw (lookup-insert_self stream, map-append (λ (m : StreamMessage). m.payload)) refl

pending-xadd_all :
    (stream : Text) (ps : List Text) (s : Redis)
    → pending stream (xadd_all stream ps s) ≡ pending stream s ++ ps
unfolding xadd_all
pending-xadd_all stream [] s = rw (append_nil (pending stream s)) refl
pending-xadd_all stream (p ∷ ps) s =
    pending-xadd_all stream ps (xadd stream p s).1
    ∙ (ap (λ q. q ++ ps) (pending-xadd stream p s) ∙ append_assoc (pending stream s) (p ∷ []) ps)

xread-pending :
    (stream : Text) (n : ℕ) (s : Redis)
    → ((xread stream n s).0 ≡ take n (pending stream s))
      × (pending stream (xread stream n s).1 ≡ drop n (pending stream s))
unfolding xread
xread-pending stream n s =
    let q = queue_of (lookup stream s.streams) in
    let f = λ (m : StreamMessage). m.payload in
    let e = drain-take f n q in
    (
      ap (λ o. o.0) e ∙ map-take f n q,
      rw (lookup-insert_self stream) (ap (λ o. map f o.1) e ∙ map-drop f n q),
    )

-- A stream is first in, first out and loses nothing: whatever waits and is added is what a read of
-- `n` gives, at most `n` of it in that order, followed by what waits after it.
stream_fifo :
    (stream : Text) (ps : List Text) (n : ℕ) (s : Redis)
    → let out = xread stream n (xadd_all stream ps s) in
      (out.0 ≡ take n (pending stream s ++ ps))
      × (pending stream out.1 ≡ drop n (pending stream s ++ ps))
stream_fifo stream ps n s =
    let t = xadd_all stream ps s in
    let (a, b) = xread-pending stream n t in
    let e = pending-xadd_all stream ps s in (a ∙ ap (take n) e, b ∙ ap (drop n) e)
