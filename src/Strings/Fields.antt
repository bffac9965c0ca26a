-- ===== src/Strings/Fields.antt =====
-- `Fields` takes a text apart that `Join` built from words.
use tealis.Base.{ℕ, arith, List, [], ◌∷◌, ◌++◌, append_assoc, append-nil, false, ◌≡◌, refl, ap, ◌∙◌}
use tealis.Base.Text.{Text}
use tealis.Strings.{join, begins_space, wide_space, flush, fields_from, fields}

-- No white space begins in the text.
abbrev pub NoSpace : Text → Type 0
NoSpace [] = Unit
NoSpace (c ∷ s) = (begins_space c s ≡ false) × NoSpace s

-- A word, as `Fields` returns it: not empty, and with no white space.
abbrev pub IsWord : Text → Type 0
IsWord [] = ⊥
IsWord (c ∷ s) = NoSpace (c ∷ s)

abbrev pub Words : List Text → Type 0
Words [] = Unit
Words (p ∷ ps) = IsWord p × Words ps

IsWord→NoSpace : (p : Text) → IsWord p → NoSpace p
IsWord→NoSpace [] h = tt
IsWord→NoSpace (c ∷ s) h = h

wide_space-before_blank :
    (c : ℕ) (s t : Text) → begins_space c s ≡ false → begins_space c (s ++ 32 ∷ t) ≡ false
unfolding wide_space
wide_space-before_blank c [] [] h = ground (arith, h)
wide_space-before_blank c [] (e ∷ t) h = ground (arith, h)
wide_space-before_blank c (d ∷ []) t h = ground (arith, h)
wide_space-before_blank c (d ∷ e ∷ s) t h = h

blank_alone : (t : Text) → wide_space 32 t ≡ 0
unfolding wide_space
blank_alone [] = refl
blank_alone (d ∷ []) = refl
blank_alone (d ∷ e ∷ t) = refl

fields_from-blank :
    (word p t : Text)
    → NoSpace p
    → fields_from 0 word (p ++ 32 ∷ t) ≡ flush (word ++ p) (fields_from 0 [] t)
unfolding fields_from
fields_from-blank word [] t h = rw (append-nil, blank_alone t) refl
fields_from-blank word (c ∷ p) t h =
    rw (wide_space-before_blank c p t h.0, fields_from-blank (word ++ c ∷ []) p t h.1, append_assoc)
      refl

fields_from-end : (word p : Text) → NoSpace p → fields_from 0 word p ≡ flush (word ++ p) []
unfolding fields_from
fields_from-end word [] h = rw append-nil refl
fields_from-end word (c ∷ p) h = rw (h.0, fields_from-end (word ++ c ∷ []) p h.1, append_assoc) refl

flush-word : (p : Text) (fs : List Text) → IsWord p → flush p fs ≡ p ∷ fs
flush-word [] fs h = elim h [ ]
flush-word (c ∷ p) fs h = refl

-- The words of a text that was joined from words by spaces are those words.
pub fields-join : (ps : List Text) → Words ps → fields (join (b' ' ∷ []) ps) ≡ ps
unfolding fields join fields_from
fields-join [] h = refl
fields-join (p ∷ []) h = fields_from-end [] p (IsWord→NoSpace p h.0) ∙ flush-word p [] h.0
fields-join (p ∷ q ∷ ps) h =
    fields_from-blank [] p (join (32 ∷ []) (q ∷ ps)) (IsWord→NoSpace p h.0)
    ∙ flush-word p _ h.0
    ∙ ap (◌∷◌ p) (fields-join (q ∷ ps) h.1)
