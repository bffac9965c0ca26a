-- ===== src/PubSub/Invariant.antt =====
-- What holds of the channels at all times (internal/storage/pubsub.go).
use tealis.Base.{
  ◌≤◌, List, [], ◌∷◌, none, some, true, length, length-append, is_some, ◌≡◌, refl, sym, arith, inl,
  inr, Bool-cases, Option-cases,
}
use tealis.Base.Text.{Text, text_eq}
use tealis.Base.Dict.{Dict, lookup, insert, erase, IsDict, insert-IsDict, erase-IsDict}
use tealis.Tealis.{Tealis}
use tealis.PubSub.{
  buffer, Subscribers, with_client, subscribe, put_subs, unsubscribe, offer, offer_all, publish,
}
use tealis.PubSub.Channels.{lookup-offer_all}

-- The server's channels: each has a client, each client appears once, and no buffer is over its
-- capacity.
abbrev pub Fits : Subscribers → Type 0
Fits [] = Unit
Fits ((_, queue) ∷ subs) = (length queue ≤ buffer) × Fits subs

abbrev pub Inhabited : Subscribers → Type 0
Inhabited [] = ⊥
Inhabited (sub ∷ subs) = Unit

abbrev pub GoodSubs : Subscribers → Type 0
GoodSubs subs = Inhabited subs × IsDict subs × Fits subs

abbrev pub GoodChannels : Dict Subscribers → Type 0
GoodChannels [] = Unit
GoodChannels ((_, subs) ∷ all) = GoodSubs subs × GoodChannels all

GoodChannels-insert :
    (channel : Text) (subs : Subscribers) (all : Dict Subscribers)
    → GoodSubs subs
    → GoodChannels all
    → GoodChannels (insert channel subs all)
unfolding insert
GoodChannels-insert channel subs [] g h = (g, tt)
GoodChannels-insert channel subs ((j, other) ∷ all) g h = elim (Bool-cases (text_eq j channel)) [
  | inl here ↦ rw here (g, h.1)
  | inr there ↦ rw there (h.0, GoodChannels-insert channel subs all g h.1)
]

GoodChannels-erase :
    (channel : Text) (all : Dict Subscribers) → GoodChannels all → GoodChannels (erase channel all)
unfolding erase
GoodChannels-erase channel [] h = tt
GoodChannels-erase channel ((j, other) ∷ all) h = elim (Bool-cases (text_eq j channel)) [
  | inl here ↦ rw here (GoodChannels-erase channel all h.1)
  | inr there ↦ rw there (h.0, GoodChannels-erase channel all h.1)
]

GoodChannels-lookup :
    (channel : Text) (all : Dict Subscribers) (subs : Subscribers)
    → GoodChannels all
    → lookup channel all ≡ some subs
    → GoodSubs subs
unfolding lookup
GoodChannels-lookup channel [] subs h e = absurd (ground arith)
GoodChannels-lookup channel ((j, other) ∷ all) subs h e = elim (Bool-cases (text_eq j channel)) [
  | inl here ↦ let same : other ≡ subs = ground arith in rw (sym same) h.0
  | inr there ↦ GoodChannels-lookup channel all subs h.1 (ground arith)
]

length-offer :
    (message : Text) (queue : List Text)
    → length queue ≤ buffer
    → length (offer message queue) ≤ buffer
length-offer message queue h = ground (arith, length-append queue (message ∷ []))

Fits-offer_all : (message : Text) (subs : Subscribers) → Fits subs → Fits (offer_all message subs)
unfolding offer_all
Fits-offer_all message [] h = tt
Fits-offer_all message ((_, queue) ∷ subs) h =
    (length-offer message queue h.0, Fits-offer_all message subs h.1)

offer_all-IsDict :
    (message : Text) (subs : Subscribers) → IsDict subs → IsDict (offer_all message subs)
unfolding offer_all
offer_all-IsDict message [] h = tt
offer_all-IsDict message ((c, queue) ∷ subs) h =
    (rw (lookup-offer_all c message subs, h.0) refl, offer_all-IsDict message subs h.1)

GoodSubs-offer_all :
    (message : Text) (subs : Subscribers) → GoodSubs subs → GoodSubs (offer_all message subs)
unfolding offer_all
GoodSubs-offer_all message [] h = elim h.0 [ ]
GoodSubs-offer_all message ((c, queue) ∷ subs) h = (
  tt,
  offer_all-IsDict message ((c, queue) ∷ subs) h.1,
  Fits-offer_all message ((c, queue) ∷ subs) h.2,
)

Fits-insert : (client : Text) (subs : Subscribers) → Fits subs → Fits (insert client [] subs)
unfolding insert
Fits-insert client [] h = (omega arith, tt)
Fits-insert client ((c, queue) ∷ subs) h = elim (Bool-cases (text_eq c client)) [
  | inl here ↦ rw here (omega arith, h.1)
  | inr there ↦ rw there (h.0, Fits-insert client subs h.1)
]

Inhabited-insert : (client : Text) (subs : Subscribers) → Inhabited (insert client [] subs)
unfolding insert
Inhabited-insert client [] = tt
Inhabited-insert client ((c, queue) ∷ subs) = elim (Bool-cases (text_eq c client)) [
  | inl here ↦ rw here tt
  | inr there ↦ rw there tt
]

Fits-erase : (client : Text) (subs : Subscribers) → Fits subs → Fits (erase client subs)
unfolding erase
Fits-erase client [] h = tt
Fits-erase client ((c, queue) ∷ subs) h = elim (Bool-cases (text_eq c client)) [
  | inl here ↦ rw here (Fits-erase client subs h.1)
  | inr there ↦ rw there (h.0, Fits-erase client subs h.1)
]

Inhabited-lookup :
    (client : Text) (subs : Subscribers) → is_some (lookup client subs) ≡ true → Inhabited subs
unfolding lookup
Inhabited-lookup client [] h = absurd (ground arith)
Inhabited-lookup client (sub ∷ subs) h = tt

GoodSubs-with_client :
    (client : Text) (subs : Subscribers)
    → IsDict subs
    → Fits subs
    → GoodSubs (with_client client subs)
GoodSubs-with_client client subs d f = elim (Bool-cases (is_some (lookup client subs))) [
  | inl there ↦ rw there (Inhabited-lookup client subs there, d, f)
  | inr new ↦
      rw new
        (Inhabited-insert client subs, insert-IsDict client [] subs d, Fits-insert client subs f)
]

GoodChannels-put_subs :
    (channel : Text) (subs : Subscribers) (all : Dict Subscribers)
    → IsDict subs
    → Fits subs
    → GoodChannels all
    → GoodChannels (put_subs channel subs all)
GoodChannels-put_subs channel [] all d f h = GoodChannels-erase channel all h
GoodChannels-put_subs channel (sub ∷ subs) all d f h =
    GoodChannels-insert channel (sub ∷ subs) all (tt, d, f) h

publish-absent :
    (channel message : Text) (s : Tealis)
    → lookup channel s.pubsub_subscribers ≡ none
    → (publish channel message s).1.pubsub_subscribers ≡ s.pubsub_subscribers
unfolding publish
publish-absent channel message s e = ground arith

publish-present :
    (channel message : Text) (subs : Subscribers) (s : Tealis)
    → lookup channel s.pubsub_subscribers ≡ some subs
    → (publish channel message s).1.pubsub_subscribers
      ≡ insert channel (offer_all message subs) s.pubsub_subscribers
unfolding publish
publish-present channel message subs s e = ground arith

-- SUBSCRIBE, UNSUBSCRIBE and PUBLISH keep the channels such that each has a subscriber, names each
-- client once, and holds at most as many messages for it as its buffer takes.
pub channels_stay_good :
    (client channel message : Text) (s : Tealis)
    → GoodChannels s.pubsub_subscribers
    → GoodChannels (subscribe client channel s).1.pubsub_subscribers
      × GoodChannels (unsubscribe client channel s).1.pubsub_subscribers
      × GoodChannels (publish channel message s).1.pubsub_subscribers
unfolding subscribe unsubscribe
channels_stay_good client channel message s h =
    elim (Option-cases (lookup channel s.pubsub_subscribers)) [
      | inl none_yet ↦
          rw (none_yet, publish-absent channel message s none_yet)
            (
              GoodChannels-insert channel _ s.pubsub_subscribers
                  (GoodSubs-with_client client [] tt tt) h,
              h,
              h,
            )
      | inr (subs, e) ↦
          let g = GoodChannels-lookup channel s.pubsub_subscribers subs h e in
          rw (e, publish-present channel message subs s e)
            (
              GoodChannels-insert channel _ s.pubsub_subscribers
                  (GoodSubs-with_client client subs g.1 g.2) h,
              GoodChannels-put_subs channel (erase client subs) s.pubsub_subscribers
                  (erase-IsDict client subs g.1) (Fits-erase client subs g.2) h,
              GoodChannels-insert channel _ s.pubsub_subscribers (GoodSubs-offer_all message subs g)
                  h,
            )
    ]
