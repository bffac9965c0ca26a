-- ===== src/Tests/Messages.antt =====
-- Examples for streams and channels (internal/storage/stream.go and pubsub.go).
use tealis.Base.{
  [], ◌∷◌, ◌++◌, none, some, ◌||◌, ◌≡◌, refl, arith, length, ◌+◌, is_some, if◌then◌else◌,
}
use tealis.Base.Int.{pos}
use tealis.Base.Text.{Text, text_eq, text_lt, codes}
use tealis.Base.Dict.{lookup}
use tealis.StreamCommands.{xadd, xread, xrange, xlen, xread_group, xack}
use tealis.StreamCommands.Reading.{xread-after, xadd-xrange}
use tealis.StreamCommands.Groups.{
  mentions, ids, pending_at, group_at, given_to, xread_group-pending, xack-pending,
}
use tealis.PubSub.{subscribe, unsubscribe, publish}
use tealis.PubSub.Channels.{waiting, publish_each, waiting-publish_each}
use tealis.PubSub.Invariant.{GoodChannels, channels_stay_good}
use tealis.Tests.Data.{k, j, a, b, hello, second_entry, group, entries, streaming, subscribed}

xread-after_example : xread k (codes "1-0") (pos 1) streaming ≡ second_entry ∷ []
unfolding lookup text_eq tealis.Value.as_stream text_lt
xread-after_example = xread-after k (codes "1-0") (pos 1) streaming

xadd-xrange_example :
    (xrange k (codes "2") (codes "9") (xadd k (codes "3-0") [] (pos 5) streaming).1
      ≡ second_entry ∷ record { id = codes "3-0"; fields = [] } ∷ [])
    × (xlen k (xadd k (codes "3-0") [] (pos 5) streaming).1 ≡ 3)
unfolding text_eq text_lt xlen xrange lookup tealis.StreamCommands.range_loop tealis.Value.as_stream
xadd-xrange_example = xadd-xrange k k (codes "3-0") (codes "2") (codes "9") [] (pos 5) streaming

xread_group-pending_example :
    let r = xread_group k j b (codes "0") (pos 0) streaming in
    (r.0 ≡ xread k (codes "0") (pos 0) streaming)
    × ((id : Text)
        → is_some (lookup id (pending_at k j r.1))
          ≡ (mentions (ids r.0) id || is_some (lookup id (pending_at k j streaming))))
    × (given_to b (group_at k j r.1) ≡ given_to b (group_at k j streaming) ++ ids r.0)
unfolding lookup text_eq tealis.Value.as_stream
xread_group-pending_example =
    xread_group-pending k j entries group streaming refl refl b (codes "0") (pos 0)

xack-pending_example :
    let r = xack k j (codes "1-0" ∷ codes "1-0" ∷ []) streaming in
    (r.0 + length (pending_at k j r.1) ≡ 1)
    × ((id : Text)
        → lookup id (pending_at k j r.1) ≡ (
            if mentions (codes "1-0" ∷ codes "1-0" ∷ []) id
            then none
            else lookup id (pending_at k j streaming)))
unfolding lookup text_eq tealis.Value.as_stream
xack-pending_example =
    xack-pending k j entries group streaming refl refl (refl, tt) (codes "1-0" ∷ codes "1-0" ∷ [])

waiting-publish_each_example :
    waiting a k (publish_each k (hello ∷ j ∷ []) subscribed) ≡ some (hello ∷ j ∷ [])
unfolding text_eq waiting lookup
waiting-publish_each_example = waiting-publish_each a k k (hello ∷ j ∷ []) subscribed (omega arith)

channels_stay_good_example :
    GoodChannels (subscribe b k subscribed).1.pubsub_subscribers
    × GoodChannels (unsubscribe b k subscribed).1.pubsub_subscribers
    × GoodChannels (publish k hello subscribed).1.pubsub_subscribers
unfolding lookup
channels_stay_good_example =
    channels_stay_good b k hello subscribed ((tt, (refl, tt), (omega arith, tt)), tt)
