-- ===== src/PubSub/Channels.antt =====
-- Subscriptions and the messages that wait in them (internal/storage/pubsub.go).
use tealis.Base.{
  ◌≤◌, ltb, ltb→le, length, length-append, take, take_of_length-le, take_append_length, Bool-cases,
  append_assoc, append-nil, ◌++◌, ap, sym, ◌∙◌, List, [], ◌∷◌, Option, none, some, ◌&&◌, not,
  if◌then◌else◌, is_some, ◌≡◌, refl, arith, inl, inr, Option-cases,
}
use tealis.Base.Text.{Text, text_eq, text_eq_iff}
use tealis.Base.Dict.{Dict, lookup, erase, lookup-insert, lookup-erase}
use tealis.Tealis.{Tealis}
use tealis.PubSub.{
  Subscribers, subs_or_new, with_client, subscribe, put_subs, unsubscribe, offer, offer_all,
  publish,
}

-- The messages that wait for a client on a channel, if it is subscribed.
abbrev waiting_in : Text → Option Subscribers → Option (List Text)
waiting_in client none = none
waiting_in client (some subs) = lookup client subs

unfoldable pub waiting : Text → Text → Tealis → Option (List Text)
waiting client channel s = waiting_in client (lookup channel s.pubsub_subscribers)

abbrev pub offered : Text → Option (List Text) → Option (List Text)
offered message none = none
offered message (some queue) = some (offer message queue)

pub lookup-offer_all :
    (client message : Text) (subs : Subscribers)
    → lookup client (offer_all message subs) ≡ offered message (lookup client subs)
unfolding lookup offer_all
lookup-offer_all client message [] = refl
lookup-offer_all client message ((c, q) ∷ subs) =
    ground (arith, lookup-offer_all client message subs)

-- PUBLISH adds the message to what waits for each client of the channel, unless its buffer is full, and
-- changes no other channel and subscribes nobody.
waiting-publish :
    (client channel j message : Text) (s : Tealis)
    → waiting client j (publish channel message s).1
      ≡ (if text_eq channel j then offered message (waiting client j s) else waiting client j s)
unfolding waiting publish
waiting-publish client channel j message s =
    elim (Option-cases (lookup channel s.pubsub_subscribers)) [
      | inl none_yet ↦ ground (arith, text_eq_iff channel j)
      | inr (subs, e) ↦ ground (
        arith,
        text_eq_iff channel j,
        lookup-insert j channel (offer_all message subs) s.pubsub_subscribers,
        lookup-offer_all client message subs,
      )
    ]

-- One PUBLISH after the other.
unfoldable pub publish_each : Text → List Text → Tealis → Tealis
publish_each channel [] s = s
publish_each channel (message ∷ messages) s =
    publish_each channel messages (publish channel message s).1

-- The messages that a client who subscribed receives: the first hundred that wait.
abbrev pub first_hundred : List Text → Option (List Text) → Option (List Text)
first_hundred messages none = none
first_hundred messages (some queue) = some (take 100 (queue ++ messages))

abbrev pub AtMostHundred : Option (List Text) → Type 0
AtMostHundred none = Unit
AtMostHundred (some queue) = length queue ≤ 100

take_full : (queue more : List Text) → length queue ≡ 100 → take 100 (queue ++ more) ≡ queue
take_full queue more full = rw (sym full) (take_append_length queue more)

-- One message more or less makes no difference behind a full buffer.
take-offer :
    (message : Text) (queue messages : List Text)
    → length queue ≤ 100
    → take 100 (offer message queue ++ messages) ≡ take 100 (queue ++ message ∷ messages)
take-offer message queue messages h = elim (Bool-cases (ltb (length queue) 100)) [
  | inl room ↦ rw (room, append_assoc) refl
  | inr none_left ↦
      let full : length queue ≡ 100 = omega (arith, h, ltb→le (length queue) 100 none_left) in
      rw none_left (take_full queue messages full ∙ sym (take_full queue (message ∷ messages) full))
]

length-offer :
    (message : Text) (queue : List Text) → length queue ≤ 100 → length (offer message queue) ≤ 100
length-offer message queue h = ground (arith, length-append queue (message ∷ []))

first_hundred-offered :
    (message : Text) (messages : List Text) (o : Option (List Text))
    → AtMostHundred o
    → first_hundred messages (offered message o) ≡ first_hundred (message ∷ messages) o
first_hundred-offered message messages none h = refl
first_hundred-offered message messages (some queue) h =
    ap some (take-offer message queue messages h)

offered-AtMostHundred :
    (message : Text) (o : Option (List Text)) → AtMostHundred o → AtMostHundred (offered message o)
offered-AtMostHundred message none h = tt
offered-AtMostHundred message (some queue) h = length-offer message queue h

first_hundred-nil : (o : Option (List Text)) → AtMostHundred o → o ≡ first_hundred [] o
first_hundred-nil none h = refl
first_hundred-nil (some queue) h = ap some (sym (rw append-nil (take_of_length-le 100 queue h)))

-- Messages that are published to a channel one after the other wait for each of its clients in the order in which they were published, behind those that waited before, up to a hundred in all; what comes when a hundred wait is dropped. Nobody is subscribed by it, and what waits on every other channel is as before. The client has at most a hundred messages waiting at the start.
pub waiting-publish_each :
    (client channel j : Text) (messages : List Text) (s : Tealis)
    → AtMostHundred (waiting client j s)
    → waiting client j (publish_each channel messages s) ≡ (
        if text_eq channel j
        then first_hundred messages (waiting client j s)
        else waiting client j s)
unfolding publish_each
waiting-publish_each client channel j [] s h = elim (Bool-cases (text_eq channel j)) [
  | inl same ↦ rw same (first_hundred-nil (waiting client j s) h)
  | inr other ↦ rw other refl
]
waiting-publish_each client channel j (message ∷ messages) s h =
    let u = (publish channel message s).1 in
    elim (Bool-cases (text_eq channel j)) [
      | inl same ↦
          let now : waiting client j u ≡ offered message (waiting client j s) =
            waiting-publish client channel j message s ∙ rw same refl in
          let fits : AtMostHundred (waiting client j u) =
            rw now (offered-AtMostHundred message (waiting client j s) h) in
          waiting-publish_each client channel j messages u fits
          ∙ rw (same, now) (first_hundred-offered message messages (waiting client j s) h)
      | inr other ↦
          let now : waiting client j u ≡ waiting client j s =
            waiting-publish client channel j message s ∙ rw other refl in
          let fits : AtMostHundred (waiting client j u) = rw now h in
          waiting-publish_each client channel j messages u fits ∙ rw (other, now) refl
    ]

lookup-with_client :
    (client c : Text) (subs : Subscribers)
    → lookup c (with_client client subs)
      ≡ (if text_eq client c && not (is_some (lookup c subs)) then some [] else lookup c subs)
lookup-with_client client c subs =
    ground (arith, text_eq_iff client c, lookup-insert c client [] subs)

-- SUBSCRIBE gives the client an empty buffer on the channel if it had none; every buffer that there was is
-- as before.
pub waiting-subscribe :
    (client c channel j : Text) (s : Tealis)
    → waiting c j (subscribe client channel s).1 ≡ (
        if text_eq channel j && (text_eq client c && not (is_some (waiting c j s)))
        then some []
        else waiting c j s)
unfolding waiting subscribe lookup
waiting-subscribe client c channel j s =
    let subs = subs_or_new (lookup channel s.pubsub_subscribers) in
    rw lookup-insert (ground (arith, text_eq_iff channel j, lookup-with_client client c subs))

lookup-put_subs :
    (channel j : Text) (subs : Subscribers) (all : Dict Subscribers) (c : Text)
    → waiting_in c (lookup j (put_subs channel subs all))
      ≡ (if text_eq channel j then lookup c subs else waiting_in c (lookup j all))
unfolding lookup
lookup-put_subs channel j [] all c = ground (arith, lookup-erase j channel all)
lookup-put_subs channel j (sub ∷ subs) all c =
    ground (arith, lookup-insert j channel (sub ∷ subs) all)

-- UNSUBSCRIBE takes the client's buffer on the channel away; every other one is as before.
pub waiting-unsubscribe :
    (client c channel j : Text) (s : Tealis)
    → waiting c j (unsubscribe client channel s).1
      ≡ (if text_eq channel j && text_eq client c then none else waiting c j s)
unfolding waiting unsubscribe
waiting-unsubscribe client c channel j s =
    elim (Option-cases (lookup channel s.pubsub_subscribers)) [
      | inl none_yet ↦ ground (arith, text_eq_iff channel j)
      | inr (subs, e) ↦ ground (
        arith,
        text_eq_iff channel j,
        lookup-put_subs channel j (erase client subs) s.pubsub_subscribers c,
        lookup-erase c client subs,
      )
    ]
