-- ===== src/Mq/Consumer/Delivering.antt =====
-- What the worker of the consumer delivers.
use kd.Base.{
  ℕ, zero, suc, ◌*◌, ◌≤◌, ◌≡◌, refl, ◌∙◌, sym, ap, Bool, true, false, Bool-cases, inl, inr, List,
  [], ◌∷◌, ◌++◌, Text, str_eq, eq_of_str_eq, str_eq_of_eq, subst, length-drop, nil_of_length,
  if◌then◌else◌, All, take, drop, length, take-append-drop, append_nil, append_assoc, arith, some,
  lookup,
}
use kd.Mq.Consumer.{work}
use kd.Mq.{Bus, Handler, Subscriptions, pop, poll}
use kd.Mq.Delivery.{
  waiting, waiting-publish_all, pop_splits, publish_all, of_topic, handle_all-quiet, IsQuiet,
}

-- The payloads of a topic, in the order of delivery.
abbrev pub to_topic : Text → List (Text × List Text) → List Text
to_topic t [] = []
to_topic t ((topic, payloads) ∷ rest) =
    if str_eq topic t then payloads ++ to_topic t rest else to_topic t rest

to_topic-append :
    (t : Text) (xs ys : List (Text × List Text))
    → to_topic t (xs ++ ys) ≡ to_topic t xs ++ to_topic t ys
to_topic-append t [] ys = refl
to_topic-append t ((topic, payloads) ∷ xs) ys = elim (Bool-cases (str_eq topic t)) [
  | inl same ↦ rw same (
      ap (λ l. payloads ++ l) (to_topic-append t xs ys)
      ∙ sym (append_assoc payloads (to_topic t xs) (to_topic t ys)))
  | inr other ↦ rw other (to_topic-append t xs ys)
]

-- Handlers that leave the bus alone.
abbrev KeepBus : Subscriptions → Type 0
KeepBus [] = Unit
KeepBus ((topic, handler) ∷ rest) = ((p : Text) (b : Bus) → handler p b ≡ b) × KeepBus rest

-- One topic of a round: `q` waits in it, `w` and `w'` in the topic that is looked at before and after.
front_keeps :
    (same : Bool) (popped later left q w w' : List Text)
    → popped ≡ take 32 q
    → w' ≡ (if same then drop 32 q else w)
    → later ++ left ≡ w'
    → (same ≡ true → q ≡ w)
    → (if same then popped ++ later else later) ++ left ≡ w
front_keeps true popped later left q w w' first rest whole here =
    append_assoc popped later left ∙ rw (whole, rest, first) (take-append-drop 32 q ∙ here refl)
front_keeps false popped later left q w w' first rest whole here = whole ∙ rest

-- What a round delivers of a topic, followed by what still waits, is what waited.
poll_keeps :
    (t : Text) (subs : Subscriptions) (b : Bus)
    → KeepBus subs
    → to_topic t (poll subs b).0 ++ waiting t (poll subs b).1 ≡ waiting t b
unfolding poll
poll_keeps t [] b h = refl
poll_keeps t ((topic, handler) ∷ rest) b (quiet, h) =
    let b' : Bus = (pop topic 32 b).1 in
    let (first, left) = pop_splits topic t 32 b in
    rw (handle_all-quiet handler (pop topic 32 b).0 b' quiet) (
      front_keeps (str_eq topic t) (pop topic 32 b).0 (to_topic t (poll rest b').0)
        (waiting t (poll rest b').1) (waiting topic b) (waiting t b) (waiting t b') first left
        (poll_keeps t rest b' h) (λ same. ap (λ k. waiting k b) (eq_of_str_eq topic t same)))

-- All publications of the rounds.
abbrev pub all_published : List (List (Text × Text)) → List (Text × Text)
all_published [] = []
all_published (published ∷ rounds) = published ++ all_published rounds

of_topic-append :
    (t : Text) (xs ys : List (Text × Text)) → of_topic t (xs ++ ys) ≡ of_topic t xs ++ of_topic t ys
unfolding of_topic
of_topic-append t [] ys = refl
of_topic-append t ((topic, payload) ∷ xs) ys = elim (Bool-cases (str_eq topic t)) [
  | inl same ↦ rw same (ap (λ l. payload ∷ l) (of_topic-append t xs ys))
  | inr other ↦ rw other (of_topic-append t xs ys)
]

-- Exactly once and in order: with handlers that do not publish, whatever is published between the
-- rounds and to whatever topics, the messages of a topic that were handed to its handler, followed by
-- those that wait, are those that waited before, followed by those that were published.
pub delivered_once :
    (t : Text) (rounds : List (List (Text × Text))) (subs : Subscriptions) (b : Bus)
    → KeepBus subs
    → to_topic t (work rounds subs b).0 ++ waiting t (work rounds subs b).1
      ≡ waiting t b ++ of_topic t (all_published rounds)
unfolding work of_topic
delivered_once t [] subs b h = sym (append_nil (waiting t b))
delivered_once t (published ∷ rounds) subs b h =
    let now = poll subs (publish_all published b) in
    let rest = work rounds subs now.1 in
    rw (to_topic-append t now.0 rest.0, of_topic-append t published (all_published rounds))
      (append_assoc (to_topic t now.0) (to_topic t rest.0) (waiting t rest.1)
        ∙ ap (λ l. to_topic t now.0 ++ l) (delivered_once t rounds subs now.1 h)
        ∙ sym
            (append_assoc (to_topic t now.0) (waiting t now.1) (of_topic t (all_published rounds)))
        ∙ ap (λ l. l ++ of_topic t (all_published rounds))
            (poll_keeps t subs (publish_all published b) h ∙ waiting-publish_all t published b)
        ∙ append_assoc (waiting t b) (of_topic t published) (of_topic t (all_published rounds)))

str_eq-false_sym : (j k : Text) → str_eq j k ≡ false → str_eq k j ≡ false
str_eq-false_sym j k other = elim (Bool-cases (str_eq k j)) [
  | inl same ↦ absurd (cc (other, str_eq_of_eq j k (sym (eq_of_str_eq k j same))))
  | inr differs ↦ differs
]

-- A round leaves alone the topics that are not subscribed.
poll_other :
    (t : Text) (subs : Subscriptions) (b : Bus)
    → KeepBus subs
    → All (λ (e : Text × Handler). str_eq t e.0 ≡ false) subs
    → waiting t (poll subs b).1 ≡ waiting t b
unfolding poll
poll_other t [] b h apart = refl
poll_other t ((topic, handler) ∷ rest) b (quiet, h) (other, apart) =
    let b' : Bus = (pop topic 32 b).1 in
    let differs : str_eq topic t ≡ false = str_eq-false_sym t topic other in
    rw (handle_all-quiet handler (pop topic 32 b).0 b' quiet)
      (poll_other t rest b' h apart ∙ (pop_splits topic t 32 b).1 ∙ rw differs refl)

IsQuiet-KeepBus : (subs : Subscriptions) → IsQuiet subs → KeepBus subs
IsQuiet-KeepBus [] h = tt
IsQuiet-KeepBus ((topic, handler) ∷ rest) (quiet, apart, h) = (quiet, IsQuiet-KeepBus rest h)

poll_drops :
    (t : Text) {handler : Handler} (subs : Subscriptions) (b : Bus)
    → IsQuiet subs
    → lookup t subs ≡ some handler
    → waiting t (poll subs b).1 ≡ drop 32 (waiting t b)
unfolding poll lookup
poll_drops t [] b h found = absurd (cc found)
poll_drops t ((topic, handler) ∷ rest) b (quiet, apart, h) found =
    elim (Bool-cases (str_eq topic t)) [
      | inl same ↦
          let here : topic ≡ t = eq_of_str_eq topic t same in
          let b' : Bus = (pop topic 32 b).1 in
          rw (handle_all-quiet handler (pop topic 32 b).0 b' quiet) (
            poll_other t rest b' (IsQuiet-KeepBus rest h)
              (subst (λ k. All (λ (e : Text × Handler). str_eq k e.0 ≡ false) rest) here apart)
            ∙ (pop_splits topic t 32 b).1
            ∙ rw (same, here) refl)
      | inr other ↦
          let b' : Bus = (pop topic 32 b).1 in
          rw (handle_all-quiet handler (pop topic 32 b).0 b' quiet) (
            poll_drops t rest b' h (rw other at found)
            ∙ ap (drop 32) (
                let left : waiting t b' ≡ waiting t b =
                  (pop_splits topic t 32 b).1 ∙ rw other refl in
                left))
    ]

-- Rounds in which nobody publishes.
abbrev pub silent : ℕ → List (List (Text × Text))
silent zero = []
silent (suc n) = [] ∷ silent n

waiting-empty :
    (t : Text) {handler : Handler} (n : ℕ) (subs : Subscriptions) (b : Bus)
    → IsQuiet subs
    → lookup t subs ≡ some handler
    → length (waiting t b) ≤ 32 * n
    → waiting t (work (silent n) subs b).1 ≡ []
unfolding work publish_all
waiting-empty t zero subs b h found short = nil_of_length (waiting t b) (omega (arith, short))
waiting-empty t (suc n) subs b h found short =
    waiting-empty t n subs (poll subs b).1 h found
      (rw (poll_drops t subs b h found) (omega (arith, short, length-drop 32 (waiting t b))))

published-silent : (t : Text) (n : ℕ) → of_topic t (all_published (silent n)) ≡ []
unfolding of_topic
published-silent t zero = refl
published-silent t (suc n) = published-silent t n

-- Every message of a subscribed topic is handed over: in n rounds, if nobody publishes meanwhile,
-- the handler of a topic gets all of up to 32 n messages that waited, in order, whatever other
-- topics are subscribed and however many messages wait there.
pub delivered_all :
    (t : Text) {handler : Handler} (n : ℕ) (subs : Subscriptions) (b : Bus)
    → IsQuiet subs
    → lookup t subs ≡ some handler
    → length (waiting t b) ≤ 32 * n
    → to_topic t (work (silent n) subs b).0 ≡ waiting t b
delivered_all t n subs b h found short =
    let handed : List Text = to_topic t (work (silent n) subs b).0 in
    sym (append_nil handed)
    ∙ ap (λ l. handed ++ l) (sym (waiting-empty t n subs b h found short))
    ∙ delivered_once t (silent n) subs b (IsQuiet-KeepBus subs h)
    ∙ rw (published-silent t n) (append_nil (waiting t b))
