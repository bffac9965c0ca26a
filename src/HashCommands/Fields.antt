-- ===== src/HashCommands/Fields.antt =====
-- What the reads of internal/storage/hset.go find after its writes.
use tealis.Base.{
  ℕ, [], ◌∷◌, Option, none, some, ok, ◌≡◌, refl, sym, ap, ◌∙◌, arith, if◌then◌else◌, is_some,
}
use tealis.Base.Text.{Text, text_eq, text_eq_iff}
use tealis.Base.Dict.{
  Dict, lookup, insert, erase, lookup-insert, lookup-erase, lookup-insert_self, IsDict,
}
use tealis.Value.{Value, Json, GoMap, made, as_hash}
use tealis.Tealis.{Tealis, put}
use tealis.HashCommands.{
  hash_at, hash_or_new, entries, field_of, hdel_in, copied, hset, hset_in, hget, insert_all, hmset,
  hmset_in, hgetall, hdel, hexists,
}

hash_at-put :
    (key : Text) (d : Dict Json) (s : Tealis)
    → hash_at key (put key (Value.hash d) s) ≡ some (made d)
unfolding as_hash
hash_at-put key d s = rw lookup-insert_self

hget-put :
    (key field : Text) (d : Dict Json) (s : Tealis)
    → hget key field (put key (Value.hash d) s) ≡ lookup field d
unfolding hget
hget-put key field d s = rw hash_at-put

-- `HEXISTS` says where `HGET` finds a value.
pub hexists-hget :
    (key field : Text) (s : Tealis) → hexists key field s ≡ is_some (hget key field s)
unfolding hexists hget
hexists-hget key field s = ground arith

hset_in-made :
    (key f g : Text) (v : Json) (d : Dict Json) (s : Tealis)
    → hget key g (put key (Value.hash (insert f v d)) s)
      ≡ (if text_eq f g then some v else lookup g d)
hset_in-made key f g v d s = hget-put key g (insert f v d) s ∙ lookup-insert g f v d

hget-at :
    (key g : Text) (o : Option GoMap) (s : Tealis) → hash_at key s ≡ o → hget key g s ≡ field_of g o
unfolding hget
hget-at key g o s e = rw e

hset_in-hget :
    (key f g : Text) (v : Json) (n : ℕ) (o : Option GoMap) (s : Tealis)
    → hash_at key s ≡ o
    → (hset_in key f v (hash_or_new o) s).0 ≡ ok n
    → (n ≡ (if hexists key f s then 0 else 1))
      × (hget key g (hset_in key f v (hash_or_new o) s).1
          ≡ (if text_eq f g then some v else hget key g s))
unfolding hset_in lookup
hset_in-hget key f g v n none s e h = ground (
  arith,
  hset_in-made key f g v [] s,
  hget-at key f none s e,
  hget-at key g none s e,
  hexists-hget key f s,
)
hset_in-hget key f g v n (some GoMap.nil_map) s e h = absurd (cc)
hset_in-hget key f g v n (some (made d)) s e h = ground (
  arith,
  hset_in-made key f g v d s,
  hget-at key f (some (made d)) s e,
  hget-at key g (some (made d)) s e,
  hexists-hget key f s,
)

-- `HSET` where it does not panic: the reply is 1 exactly if the field was not there, the field has the
-- value, and the other fields of the key are as before. (A key of another type has no fields.)
hset-hget :
    (key f g : Text) (v : Json) (n : ℕ) (s : Tealis)
    → (hset key f v s).0 ≡ ok n
    → (n ≡ (if hexists key f s then 0 else 1))
      × (hget key g (hset key f v s).1 ≡ (if text_eq f g then some v else hget key g s))
unfolding hset
hset-hget key f g v n s h = hset_in-hget key f g v n (hash_at key s) s refl h

hdel_in-hget :
    (key f g : Text) (o : Option GoMap) (s : Tealis)
    → hash_at key s ≡ o
    → ((hdel_in key f o s).0 ≡ (if hexists key f s then 1 else 0))
      × (hget key g (hdel_in key f o s).1 ≡ (if text_eq f g then none else hget key g s))
unfolding hdel_in
hdel_in-hget key f g none s e =
    ground (arith, hget-at key f none s e, hget-at key g none s e, hexists-hget key f s)
hdel_in-hget key f g (some m) s e = ground (
  arith,
  hget-put key g (erase f (entries m)) s,
  lookup-erase g f (entries m),
  hget-at key f (some m) s e,
  hget-at key g (some m) s e,
  hexists-hget key f s,
  text_eq_iff f g,
)

-- `HDEL`: the reply is 1 exactly if the field was there, the field is gone, and the other fields of the
-- key are as before.
pub hdel-hget :
    (key f g : Text) (s : Tealis)
    → ((hdel key f s).0 ≡ (if hexists key f s then 1 else 0))
      × (hget key g (hdel key f s).1 ≡ (if text_eq f g then none else hget key g s))
unfolding hdel
hdel-hget key f g s = hdel_in-hget key f g (hash_at key s) s refl

-- The first of two values, if there is one.
abbrev pub or_else : Option Json → Option Json → Option Json
or_else none b = b
or_else (some a) b = some a

or_else-none : (o : Option Json) → or_else o none ≡ o
or_else-none none = refl
or_else-none (some a) = refl

lookup-insert_all :
    (g : Text) (fs d : Dict Json)
    → IsDict fs
    → lookup g (insert_all fs d) ≡ or_else (lookup g fs) (lookup g d)
unfolding insert_all lookup
lookup-insert_all g [] d h = refl
lookup-insert_all g ((f, v) ∷ fs) d h =
    ground
      (arith, lookup-insert_all g fs (insert f v d) h.1, lookup-insert g f v d, text_eq_iff f g)

hmset-made :
    (key g : Text) (fs d : Dict Json) (s : Tealis)
    → IsDict fs
    → hget key g s ≡ lookup g d
    → hget key g (put key (Value.hash (insert_all fs d)) s) ≡ or_else (lookup g fs) (hget key g s)
hmset-made key g fs d s h before =
    hget-put key g (insert_all fs d) s
    ∙ lookup-insert_all g fs d h
    ∙ ap (or_else (lookup g fs)) (sym before)

hmset_in-hget :
    (key g : Text) (fs : Dict Json) (o : Option GoMap) (s : Tealis)
    → IsDict fs
    → hash_at key s ≡ o
    → (hmset_in key fs (hash_or_new o) s).0 ≡ ok tt
    → hget key g (hmset_in key fs (hash_or_new o) s).1 ≡ or_else (lookup g fs) (hget key g s)
unfolding hmset_in
hmset_in-hget key g [] none s d e h =
    hmset-made key g [] [] s d (unfold lookup in hget-at key g none s e)
hmset_in-hget key g (f ∷ fs) none s d e h =
    hmset-made key g (f ∷ fs) [] s d (unfold lookup in hget-at key g none s e)
hmset_in-hget key g [] (some GoMap.nil_map) s d e h = unfold lookup in refl
hmset_in-hget key g (f ∷ fs) (some GoMap.nil_map) s d e h = cc
hmset_in-hget key g [] (some (made m)) s d e h =
    hmset-made key g [] m s d (hget-at key g (some (made m)) s e)
hmset_in-hget key g (f ∷ fs) (some (made m)) s d e h =
    hmset-made key g (f ∷ fs) m s d (hget-at key g (some (made m)) s e)

-- `HMSET` where it does not panic: the fields given have their new values, and the other fields of the
-- key are as before.
pub hmset-hget :
    (key g : Text) (fs : Dict Json) (s : Tealis)
    → IsDict fs
    → (hmset key fs s).0 ≡ ok tt
    → hget key g (hmset key fs s).1 ≡ or_else (lookup g fs) (hget key g s)
unfolding hmset
hmset-hget key g fs s d h = hmset_in-hget key g fs (hash_at key s) s d refl h

lookup-copied :
    (g : Text) (o : Option GoMap) (d : Dict Json)
    → ((m : GoMap) → o ≡ some m → IsDict (entries m))
    → copied o ≡ some d
    → lookup g d ≡ field_of g o
unfolding copied
lookup-copied g none d h e = cc
lookup-copied g (some m) d h e =
    let same : d ≡ insert_all (entries m) [] = cc in
    rw same (
      lookup-insert_all g (entries m) [] (h m refl)
      ∙ unfold lookup in or_else-none (lookup g (entries m)))

-- `HGETALL` returns the fields and values that `HGET` finds, in a map of its own.
pub hgetall-hget :
    (key g : Text) (d : Dict Json) (s : Tealis)
    → ((m : GoMap) → hash_at key s ≡ some m → IsDict (entries m))
    → hgetall key s ≡ some d
    → lookup g d ≡ hget key g s
unfolding hgetall hget
hgetall-hget key g d s h e = lookup-copied g (hash_at key s) d h e
