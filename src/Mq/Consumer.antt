-- ===== src/Mq/Consumer.antt =====
-- The worker of RedisStreamsConsumer in infrastructure/mq/core/consumer.cpp, over the rounds of its
-- loop, with the publications of other threads between them.
pub mod Delivering
use kd.Base.{Bool, true, false, List, [], ◌∷◌, ◌++◌, Text, if◌then◌else◌}
use kd.Mq.{Bus, Handler, Subscriptions, poll, subscribe}
use kd.Mq.Delivery.{publish_all}

pub record Consumer : Type 0 where
  pub running : Bool
  pub worker : Bool
  pub subscriptions : Subscriptions

-- Subscribe
unfoldable add_handler : Text → Handler → Consumer → Consumer
unfolding subscribe
add_handler topic handler s = record s { subscriptions = subscribe topic handler s.subscriptions }

-- Start; the worker begins its rounds
unfoldable pub start : Consumer → Consumer
start s = if s.running then s else record s { running = true; worker = true }

-- Stop, and the destructor
unfoldable pub stop : Consumer → Consumer
stop s = if s.running then record s { running = false; worker = false } else s

-- The loop of the worker: what it hands to handlers, topic by topic, and the bus. A round comes with
-- what others publish before it; the list ends where the loop finds `running_` false.
unfoldable pub work :
    List (List (Text × Text)) → Subscriptions → Bus → List (Text × List Text) × Bus
unfolding poll publish_all
work [] subs b = ([], b)
work (published ∷ rounds) subs b =
    let delivered = poll subs (publish_all published b) in
    let later = work rounds subs delivered.1 in (delivered.0 ++ later.0, later.1)
