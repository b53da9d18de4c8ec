-- ===== src/Mq/Delivery.antt =====
-- The order and the completeness of delivery.
use kd.Base.{
  ℕ, ◌≡◌, refl, ◌∙◌, sym, ap, false, Bool-cases, inl, inr, List, [], ◌∷◌, ◌++◌, Text, str_eq,
  eq_of_str_eq, lookup, insert, lookup-insert, if◌then◌else◌, All, map, take, drop, drain-take,
  append_nil, append_assoc,
}
use kd.Mq.{Bus, Handler, Subscriptions, queue_for, publish, pop, poll, handle_all}

-- The messages that wait in a topic, the oldest first.
abbrev pub waiting : Text → Bus → List Text
waiting topic b = queue_for (lookup topic b)

waiting-insert :
    (topic t : Text) (q : List Text) (b : Bus)
    → waiting t (insert topic q b) ≡ (if str_eq topic t then q else waiting t b)
waiting-insert topic t q b = elim (Bool-cases (str_eq topic t)) [
  | inl same ↦ rw (lookup-insert topic t q b, same) refl
  | inr other ↦ rw (lookup-insert topic t q b, other) refl
]

-- A message is appended to its topic and to no other.
waiting-publish :
    (topic t payload : Text) (b : Bus)
    → waiting t (publish topic payload b)
      ≡ (if str_eq topic t then waiting topic b ++ payload ∷ [] else waiting t b)
unfolding publish
waiting-publish topic t payload b = waiting-insert topic t (waiting topic b ++ payload ∷ []) b

map_id {ℓ} : {A : Type ℓ} (xs : List A) → map (λ (x : A). x) xs ≡ xs
map_id [] = refl
map_id (x ∷ xs) = rw (map_id xs)

-- A pop takes the first messages of its topic in order, leaves the others there, and touches no
-- other topic; what it takes followed by what is left is what waited.
pub pop_splits :
    (topic t : Text) (n : ℕ) (b : Bus)
    → let out = pop topic n b in
      (out.0 ≡ take n (waiting topic b))
      × (waiting t out.1 ≡ (if str_eq topic t then drop n (waiting topic b) else waiting t b))
unfolding pop
pop_splits topic t n b =
    let q = waiting topic b in
    let e = drain-take (λ (m : Text). m) n q in
    (
      ap (λ o. o.0) e ∙ map_id (take n q),
      ap (λ (o : List Text × List Text). waiting t (insert topic o.1 b)) e
          ∙ waiting-insert topic t (drop n q) b,
    )

-- A sequence of publications, by any producers, each of a topic and a payload.
unfoldable pub publish_all : List (Text × Text) → Bus → Bus
unfolding publish
publish_all [] b = b
publish_all ((topic, payload) ∷ rest) b = publish_all rest (publish topic payload b)

-- The payloads of one topic in a sequence of publications.
unfoldable pub of_topic : Text → List (Text × Text) → List Text
of_topic t [] = []
of_topic t ((topic, payload) ∷ rest) =
    if str_eq topic t then payload ∷ of_topic t rest else of_topic t rest

pub waiting-publish_all :
    (t : Text) (ps : List (Text × Text)) (b : Bus)
    → waiting t (publish_all ps b) ≡ waiting t b ++ of_topic t ps
unfolding publish_all of_topic
waiting-publish_all t [] b = sym (append_nil (waiting t b))
waiting-publish_all t ((topic, payload) ∷ rest) b = elim (Bool-cases (str_eq topic t)) [
  | inl same ↦
      let e : waiting t (publish topic payload b) ≡ waiting t b ++ payload ∷ [] =
        rw (waiting-publish topic t payload b, same)
          (ap (λ k. waiting k b ++ payload ∷ []) (eq_of_str_eq topic t same)) in
      rw same (
        waiting-publish_all t rest (publish topic payload b)
        ∙ (ap (λ q. q ++ of_topic t rest) e
            ∙ append_assoc (waiting t b) (payload ∷ []) (of_topic t rest)))
  | inr other ↦
      let e : waiting t (publish topic payload b) ≡ waiting t b =
        rw (waiting-publish topic t payload b, other) refl in
      rw other
        (waiting-publish_all t rest (publish topic payload b) ∙ ap (λ q. q ++ of_topic t rest) e)
]

-- First in, first out: after any interleaving of publications to any topics, a pop of a topic gives
-- what waited there before and then its own messages in the order of publication, at most `n`.
fifo :
    (t : Text) (ps : List (Text × Text)) (n : ℕ) (b : Bus)
    → (pop t n (publish_all ps b)).0 ≡ take n (waiting t b ++ of_topic t ps)
fifo t ps n b = (pop_splits t t n (publish_all ps b)).0 ∙ ap (take n) (waiting-publish_all t ps b)

-- Handlers that leave the bus alone, of topics that differ.
abbrev pub IsQuiet : Subscriptions → Type 0
IsQuiet [] = Unit
IsQuiet ((topic, handler) ∷ rest) =
    ((p : Text) (b : Bus) → handler p b ≡ b)
    × All (λ (e : Text × Handler). str_eq topic e.0 ≡ false) rest
    × IsQuiet rest

pub handle_all-quiet :
    (handler : Handler) (ps : List Text) (b : Bus)
    → ((p : Text) (b : Bus) → handler p b ≡ b)
    → handle_all handler ps b ≡ b
unfolding handle_all
handle_all-quiet handler [] b h = refl
handle_all-quiet handler (p ∷ ps) b h = rw (h p b) (handle_all-quiet handler ps b h)

abbrev batch : Bus → Text × Handler → Text × List Text
batch b (topic, handler) = (topic, take 32 (waiting topic b))

batch-pop :
    (topic : Text) (n : ℕ) (b : Bus) (rest : Subscriptions)
    → All (λ (e : Text × Handler). str_eq topic e.0 ≡ false) rest
    → map (batch (pop topic n b).1) rest ≡ map (batch b) rest
batch-pop topic n b [] h = refl
batch-pop topic n b ((t, handler) ∷ rest) (other, h) =
    let e : waiting t (pop topic n b).1 ≡ waiting t b =
      (pop_splits topic t n b).1 ∙ (rw other refl) in
    rw (e, batch-pop topic n b rest h) refl

-- One round of the worker, with handlers that do not publish, hands to each subscribed topic the
-- first 32 messages that waited there, in order; no topic starves another.
poll_delivers :
    (subs : Subscriptions) (b : Bus) → IsQuiet subs → (poll subs b).0 ≡ map (batch b) subs
unfolding poll
poll_delivers [] b h = refl
poll_delivers ((topic, handler) ∷ rest) b (quiet, apart, h) =
    rw
      (
        handle_all-quiet handler (pop topic 32 b).0 (pop topic 32 b).1 quiet,
        poll_delivers rest (pop topic 32 b).1 h,
        batch-pop topic 32 b rest apart,
        (pop_splits topic topic 32 b).0,
      )
      refl
