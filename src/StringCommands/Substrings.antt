-- ===== src/StringCommands/Substrings.antt =====
-- `GetRange` and `SetRange`: which bytes they pick and which they keep.
use tealis.Base.{
  ℕ, ◌+◌, ◌-◌, [], ◌++◌, none, some, Outcome, ok, panic, ltb, leb, if◌then◌else◌, length, take,
  drop, replicate, get_elem?, ◌≡◌, refl, sym, ◌∙◌, arith, Bool-cases, inl, inr, length-append,
  length-take, length-replicate, get_elem?-append, get_elem?-replicate, get_elem?-take_of_lt,
  get_elem?-take_of_le,
}
use tealis.Base.Int.{ℤ, pos, negsuc, ◌+ℤ◌, ltb_ℤ, leb_ℤ, pos_part}
use tealis.Base.Text.{Text}
use tealis.Base.Dict.{lookup}
use tealis.Ranges.{
  slice, from_end, window, window_empty, window-slice, cut_last, +ℤ-one, at_least_zero-eq-pos,
}
use tealis.Value.{string, as_string}
use tealis.Tealis.{Tealis, put}
use tealis.StringCommands.{range_of, get_range, spliced, set_range}

-- The end of `range_of`, for a start that is settled.
abbrev tail_of_range : Text → ℕ → ℤ → Outcome Text
tail_of_range value lo end =
    if leb_ℤ (pos (length value)) (pos lo)
    then ok []
    else let end : ℤ =
        if leb_ℤ (pos (length value)) end then pos (length value) +ℤ negsuc 0 else end in
      if ltb_ℤ end (pos lo) then ok [] else slice value (pos lo) (end +ℤ pos 1)

tail_of_range-window :
    (value : Text) (lo : ℕ) (end : ℤ)
    → (r : Text) × (tail_of_range value lo end ≡ ok r)
      × ((i : ℕ) → get_elem? r i ≡ window value lo end i)
tail_of_range-window value lo (negsuc end) =
    ([], ground arith, λ i. sym (window_empty value lo (negsuc end) i (inl (ground arith))))
tail_of_range-window value lo (pos end) = elim (Bool-cases (leb (length value) lo)) [
  | inl beyond ↦
      ([], ground arith, λ i. sym (window_empty value lo (pos end) i (inr (ground arith))))
  | inr inside ↦ elim (Bool-cases (leb lo end)) [
    | inl some_items ↦
        let sliced = window-slice value lo end (ground arith) (ground arith) in
        (
          take ((if leb (length value) end then length value - 1 else end) + 1 - lo)
              (drop lo value),
          rw (cut_last (length value) end (ground arith), +ℤ-one) (ground (arith, sliced.0)),
          sliced.1,
        )
    | inr no_items ↦ (
      [],
      rw (cut_last (length value) end (ground arith)) (ground arith),
      λ i. sym (window_empty value lo (pos end) i (inl (ground arith))),
    )
  ]
]

range_of-window :
    (value : Text) (start end : ℤ)
    → (r : Text) × (range_of value start end ≡ ok r)
      × ((i : ℕ)
          → get_elem? r i
            ≡ window value
                (pos_part (from_end start (length value)))
                (from_end end (length value))
                i)
unfolding range_of
range_of-window value start end = rw at_least_zero-eq-pos (
    tail_of_range-window value (pos_part (from_end start (length value)))
      (from_end end (length value)))

get_range-string :
    (key value : Text) (start end : ℤ) (s : Tealis)
    → lookup key s.store ≡ some (string value)
    → get_range key start end s ≡ range_of value start end
unfolding get_range as_string
get_range-string key value start end s e = ground arith

-- `GetRange` of a string never panics. It returns the bytes from `start` to `end`, both counted in,
-- where a negative index counts from the end of the string.
pub get_range-window :
    (key value : Text) (start end : ℤ) (s : Tealis)
    → lookup key s.store ≡ some (string value)
    → (r : Text) × (get_range key start end s ≡ ok r)
      × ((i : ℕ)
          → get_elem? r i
            ≡ window value
                (pos_part (from_end start (length value)))
                (from_end end (length value))
                i)
get_range-window key value start end s e =
    rw (get_range-string key value start end s e) (range_of-window value start end)

abbrev space : ℕ
space = b' '

-- A text cut off or filled up with spaces to a length.
abbrev pub fitted : Text → ℕ → Text
fitted value n =
    take n (if ltb (length value) n then value ++ replicate (n - length value) b' ' else value)

length-fitted : (value : Text) (n : ℕ) → length (fitted value n) ≡ n
length-fitted value n = ground (
  arith,
  length-take n (value ++ replicate (n - length value) b' '),
  length-take n value,
  length-append value (replicate (n - length value) b' '),
  length-replicate (n - length value) space,
)

get_elem?-fitted :
    (value : Text) (n i : ℕ)
    → get_elem? (fitted value n) i
      ≡ (if ltb i n then (if ltb i (length value) then get_elem? value i else some b' ') else none)
get_elem?-fitted value n i = ground (
  arith,
  get_elem?-take_of_lt n i value,
  get_elem?-take_of_lt n i (value ++ replicate (n - length value) b' '),
  get_elem?-take_of_le n i value,
  get_elem?-take_of_le n i (value ++ replicate (n - length value) b' '),
  get_elem?-append i value (replicate (n - length value) b' '),
  get_elem?-replicate (n - length value) (i - length value) space,
)

spliced-fitted :
    (value new : Text) (offset : ℕ)
    → spliced value (pos offset) new ≡ ok (fitted value offset ++ new)
unfolding spliced
spliced-fitted value new offset = ground (
  arith,
  length-append value (replicate (offset - length value) b' '),
  length-replicate (offset - length value) space,
)

set_range-fitted :
    (key value new : Text) (offset : ℕ) (s : Tealis)
    → lookup key s.store ≡ some (string value)
    → set_range key (pos offset) new s
      ≡ (ok (length (fitted value offset ++ new)), put key (string (fitted value offset ++ new)) s)
unfolding set_range as_string
set_range-fitted key value new offset s e = ground (arith, spliced-fitted value new offset)

-- `SetRange` at an offset of at least 0 in a string: the new string has the old bytes below the
-- offset, or spaces where there were none, then the value, and nothing more. What the old string had
-- behind the value is lost. The new length is returned, and no other key changes.
pub set_range-spliced :
    (key value new : Text) (offset : ℕ) (s : Tealis)
    → lookup key s.store ≡ some (string value)
    → (t : Text) × (set_range key (pos offset) new s ≡ (ok (length t), put key (string t) s))
      × (length t ≡ offset + length new)
      × ((i : ℕ)
          → get_elem? t i ≡ (
              if ltb i offset
              then (if ltb i (length value) then get_elem? value i else some b' ')
              else get_elem? new (i - offset)))
set_range-spliced key value new offset s e = (
  fitted value offset ++ new,
  set_range-fitted key value new offset s e,
  length-append (fitted value offset) new ∙ rw length-fitted,
  λ i. rw (get_elem?-append, length-fitted, get_elem?-fitted) (ground arith),
)

-- `SetRange` at a negative offset panics and leaves the state alone.
pub set_range_negative :
    (key new : Text) (n : ℕ) (s : Tealis) → set_range key (negsuc n) new s ≡ (panic, s)
unfolding set_range spliced
set_range_negative key new n s = refl
