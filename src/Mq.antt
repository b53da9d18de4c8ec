-- ===== src/Mq.antt =====
-- infrastructure/mq/core: the bus of local_bus.h, the producer and the consumer's worker. A handler
-- is outside: it is given as what it does to the bus. A method runs under the mutexes of the bus, so
-- the calls of several threads are a sequence. The worker's rounds are in Consumer.
pub mod Delivery
pub mod Consumer
use kd.Base.{
  ℕ, ◌++◌, Bool, true, false, Option, none, some, List, [], ◌∷◌, Text, Dict, lookup, insert, drain,
}

-- `topics_`
abbrev pub Bus : Type 0
Bus = Dict (List Text)

-- QueueFor: an absent queue is empty
abbrev pub queue_for : Option (List Text) → List Text
queue_for none = []
queue_for (some q) = q

unfoldable pub publish : (topic payload : Text) → Bus → Bus
publish topic payload b = insert topic (queue_for (lookup topic b) ++ payload ∷ []) b

unfoldable pub pop : (topic : Text) → (max_count : ℕ) → Bus → List Text × Bus
pop topic max_count b =
    let (out, left) = drain (λ (m : Text). m) max_count [] (queue_for (lookup topic b)) in
    (out, insert topic left b)

-- RedisStreamsProducer::Publish
unfoldable pub produce : (topic payload : Text) → Bus → Bool × Bus
unfolding publish
produce topic payload b = (true, publish topic payload b)

-- RedisStreamsConsumer: a handler for each topic
abbrev pub Handler : Type 0
Handler = Text → Bus → Bus

abbrev pub Subscriptions : Type 0
Subscriptions = Dict Handler

unfoldable pub subscribe : Text → Handler → Subscriptions → Subscriptions
subscribe topic handler s = insert topic handler s

-- `for (auto& payload : …) handler(payload)`
unfoldable pub handle_all : Handler → List Text → Bus → Bus
handle_all handler [] b = b
handle_all handler (payload ∷ rest) b = handle_all handler rest (handler payload b)

-- One round of the worker's loop: what it delivered, topic by topic, and the bus.
unfoldable pub poll : Subscriptions → Bus → List (Text × List Text) × Bus
unfolding pop handle_all
poll [] b = ([], b)
poll ((topic, handler) ∷ rest) b =
    let popped = pop topic 32 b in
    let others = poll rest (handle_all handler popped.0 popped.1) in
    ((topic, popped.0) ∷ others.0, others.1)
