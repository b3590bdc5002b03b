-- ===== src/Tests/Pubsub.antt =====
-- Runs of publish and subscribe.
use shoredb.Base.{◌≡◌, true, codes, is_some}
use shoredb.Pubsub.{PubSub, new_pubsub, subscribe, publish}
use shoredb.Pubsub.Buffers.{AreBounded}
use shoredb.Pubsub.Histories.{starts, steps, subscribes, Reachable-publish}

abbrev one_subscriber : PubSub
one_subscriber = (subscribe (codes "news") new_pubsub).0

Reachable-publish_example :
    (is_some (publish (codes "news") (codes "hello") one_subscriber) ≡ true)
    × AreBounded one_subscriber.chans
Reachable-publish_example =
    Reachable-publish one_subscriber (codes "news") (codes "hello")
      (steps starts (subscribes new_pubsub (codes "news")))
