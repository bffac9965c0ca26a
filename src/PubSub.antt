-- ===== src/PubSub.antt =====
-- internal/storage/pubsub.go, less the delivery to connections. A client's Go channel is the list of the
-- messages in its buffer; `deliver` is the receive of one of them. Each method holds `Mu` to its end.
pub mod Channels
pub mod Invariant
use tealis.Base.{
  ℕ, List, [], ◌∷◌, ◌++◌, Option, none, some, Bool, true, false, if◌then◌else◌, length, is_some,
  ltb,
}
use tealis.Base.Int.{pos}
use tealis.Base.Text.{Text, codes}
use tealis.Base.Dict.{Dict, lookup, insert, erase}
use tealis.Strconv.{itoa}
use tealis.Tealis.{Tealis}

-- The capacity of a client's channel.
abbrev pub buffer : ℕ
buffer = 100

-- client ID → messages
abbrev pub Subscribers : Type 0
Subscribers = Dict (List Text)

abbrev pub subs_or_new : Option Subscribers → Subscribers
subs_or_new none = []
subs_or_new (some subs) = subs

-- A client that is subscribed already keeps its channel.
abbrev pub with_client : Text → Subscribers → Subscribers
with_client client subs = if is_some (lookup client subs) then subs else insert client [] subs

-- `Subscribe`
unfoldable pub subscribe : Text → Text → Tealis → Text × Tealis
subscribe client channel s = (
  codes "+SUBSCRIBED to " ++ channel,
  record s {
    pubsub_subscribers =
        insert channel (with_client client (subs_or_new (lookup channel s.pubsub_subscribers)))
          s.pubsub_subscribers;
  },
)

-- `if len(subs) == 0 { delete(r.pubsubSubscribers, channel) }`
abbrev pub put_subs : Text → Subscribers → Dict Subscribers → Dict Subscribers
put_subs channel [] all = erase channel all
put_subs channel (sub ∷ subs) all = insert channel (sub ∷ subs) all

abbrev pub without_client : Text → Text → Option Subscribers → Dict Subscribers → Dict Subscribers
without_client client channel none all = all
without_client client channel (some subs) all = put_subs channel (erase client subs) all

-- `Unsubscribe`
unfoldable pub unsubscribe : Text → Text → Tealis → Text × Tealis
unsubscribe client channel s = (
  codes "+UNSUBSCRIBED from " ++ channel,
  record s {
    pubsub_subscribers =
        without_client client channel (lookup channel s.pubsub_subscribers) s.pubsub_subscribers;
  },
)

-- `select { case msgChan <- message: default: }`
abbrev pub offer : Text → List Text → List Text
offer message queue = if ltb (length queue) buffer then queue ++ message ∷ [] else queue

-- The loop of `Publish`.
unfoldable pub offer_all : Text → Subscribers → Subscribers
offer_all message [] = []
offer_all message ((client, queue) ∷ subs) = (client, offer message queue) ∷ offer_all message subs

-- `Publish`
unfoldable pub publish : Text → Text → Tealis → Text × Tealis
publish channel message s = elim (lookup channel s.pubsub_subscribers) [
  | none ↦ (codes ":0", s)
  | some subs ↦ (
    b':' ∷ itoa (pos (length subs)),
    record s { pubsub_subscribers = insert channel (offer_all message subs) s.pubsub_subscribers },
  )
]
