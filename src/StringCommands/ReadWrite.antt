-- ===== src/StringCommands/ReadWrite.antt =====
-- What `Get` returns after `Set`, `Del`, `Append` and `IncrBy`, and when it blocks for ever.
use tealis.Base.{
  Option, none, some, true, ◌&&◌, ok, panic, deadlock, ◌≡◌, ◌∙◌, ◌≢◌, ◌↔◌, refl, arith,
  if◌then◌else◌, Bool-cases, inl, inr, Option-cases,
}
use tealis.Base.Int.{
  ℤ, pos, ◌+ℤ◌, wrap64, wrap64-IsInt64, wrap64_of_IsInt64, wrap64-add_wrap64, +ℤ_assoc, ltb_ℤ,
  IsInt64,
}
use tealis.Base.Text.{Text, text_eq}
use tealis.Base.Dict.{lookup, lookup-insert, lookup-erase, lookup-insert_self, insert-insert}
use tealis.Mutex.{rlock, lock}
use tealis.Strconv.{itoa, atoi}
use tealis.Strconv.RoundTrip.{atoi-itoa}
use tealis.Value.{Value, string, as_string}
use tealis.Tealis.{Tealis, put}
use tealis.Tealis.Expiry.{is_past}
use tealis.StringCommands.{set, get_value, get, del, exists, incr_by}

get_value-ne-deadlock : (o : Option Value) → get_value o ≢ deadlock
unfolding get_value
get_value-ne-deadlock o h = ground arith

-- `Get` leaves the state as it is, and blocks for ever exactly on a key that is past its expiry: there it
-- asks for the write lock while it holds the read lock.
pub get_deadlock :
    (key : Text) (now : ℤ) (s : Tealis)
    → ((get key now s).1 ≡ s)
      × (((get key now s).0 ≡ deadlock) ↔ (is_past now (lookup key s.expiries) ≡ true))
unfolding rlock lock
get_deadlock key now s = elim (Bool-cases (is_past now (lookup key s.expiries))) [
  | inl past ↦ unfold get in rw past (refl, (λ _. refl, λ _. refl))
  | inr live ↦ unfold get in rw live (refl, (λ h. absurd (get_value-ne-deadlock _ h), λ h. cc))
]

-- `Get` after `Set`: the value, if no time to live was given or it is not over, and a deadlock if it is;
-- of another key, what it returned before.
pub get-set :
    (key j value : Text) (ttl now t : ℤ) (s : Tealis)
    → (get j t (set key value ttl now s)).0 ≡ (
        if text_eq key j
        then (if ltb_ℤ (pos 0) ttl && ltb_ℤ (now +ℤ ttl) t then deadlock else ok (some value))
        else (get j t s).0)
unfolding get set as_string rlock lock
get-set key j value ttl now t s = ground (
  arith,
  lookup-insert j key (now +ℤ ttl) s.expiries,
  lookup-erase j key s.expiries,
  lookup-insert j key (string value) s.store,
)

-- `Del` says whether the key was there. If it was, a `Get` of it then finds nothing, at any time, and a
-- `Get` of another key returns what it returned before.
get-del :
    (key j : Text) (t : ℤ) (s : Tealis)
    → ((del key s).0 ≡ exists key s)
      × (exists key s ≡ true
          → (get j t (del key s).1).0 ≡ (if text_eq key j then ok none else (get j t s).0))
unfolding get del exists rlock lock
get-del key j t s = ground (arith, lookup-erase j key s.expiries, lookup-erase j key s.store)

as_string-eq-some : (v : Value) (t : Text) → as_string v ≡ some t → v ≡ string t
unfolding as_string
as_string-eq-some v t h = ground arith

module _ (key : Text) (a : ℤ) (s : Tealis) where
  incr_by-missing :
      lookup key s.store ≡ none → incr_by key a s ≡ (ok (some a), put key (string (itoa a)) s)
  unfolding incr_by
  incr_by-missing e = ground arith

  incr_by-other :
      (v : Value) → lookup key s.store ≡ some v → as_string v ≡ none → incr_by key a s ≡ (panic, s)
  unfolding incr_by
  incr_by-other v e o = ground arith

  incr_by-no_number :
      (t : Text)
      → lookup key s.store ≡ some (string t)
      → atoi t ≡ none
      → incr_by key a s ≡ (ok none, s)
  unfolding incr_by as_string
  incr_by-no_number t e p = ground arith

  incr_by-number :
      (t : Text) (n : ℤ)
      → lookup key s.store ≡ some (string t)
      → atoi t ≡ some n
      → incr_by key a s ≡ (ok (some (wrap64 (n +ℤ a))), put key (string (itoa (wrap64 (n +ℤ a)))) s)
  unfolding incr_by as_string
  incr_by-number t n e p = ground arith

-- The second increment finds what the first has written.
incr_by-put :
    (key : Text) (m b : ℤ) (s : Tealis)
    → IsInt64 m
    → incr_by key b (put key (string (itoa m)) s)
      ≡ (ok (some (wrap64 (m +ℤ b))), put key (string (itoa (wrap64 (m +ℤ b)))) s)
incr_by-put key m b s h =
    incr_by-number key b (put key (string (itoa m)) s) (itoa m) m
      (lookup-insert_self key (string (itoa m)) s.store) (atoi-itoa m h)
    ∙ rw insert-insert

incr_by-twice_number :
    (key t : Text) (n a b : ℤ) (s : Tealis)
    → lookup key s.store ≡ some (string t)
    → atoi t ≡ some n
    → incr_by key b (incr_by key a s).1 ≡ incr_by key (a +ℤ b) s
incr_by-twice_number key t n a b s e p =
    rw (incr_by-number key a s t n e p, incr_by-number key (a +ℤ b) s t n e p)
      (incr_by-put key (wrap64 (n +ℤ a)) b s (wrap64-IsInt64 (n +ℤ a))
        ∙ rw (wrap64-add_wrap64, +ℤ_assoc))

-- Two increments are one by their sum, in the result and in the state, whatever the key holds. (An
-- increment is a 64-bit int, and so is the sum.)
incr_by-incr_by :
    (key : Text) (a b : ℤ) (s : Tealis)
    → IsInt64 a
    → IsInt64 (a +ℤ b)
    → incr_by key b (incr_by key a s).1 ≡ incr_by key (a +ℤ b) s
incr_by-incr_by key a b s ha hab = elim (Option-cases (lookup key s.store)) [
  | inl missing ↦
      rw (incr_by-missing key a s missing, incr_by-missing key (a +ℤ b) s missing)
        (incr_by-put key a b s ha ∙ rw (wrap64_of_IsInt64 (a +ℤ b) hab))
  | inr (v, e) ↦ elim (Option-cases (as_string v)) [
    | inl other ↦
        rw (incr_by-other key a s v e other, incr_by-other key (a +ℤ b) s v e other)
          (incr_by-other key b s v e other)
    | inr (t, q) ↦
        let e' : lookup key s.store ≡ some (string t) = cc (as_string-eq-some v t q) in
        elim (Option-cases (atoi t)) [
          | inl nan ↦
              rw (incr_by-no_number key a s t e' nan, incr_by-no_number key (a +ℤ b) s t e' nan)
                (incr_by-no_number key b s t e' nan)
          | inr (n, p) ↦ incr_by-twice_number key t n a b s e' p
        ]
  ]
]
