-- ===== src/Connection/Chunks.antt =====
-- The input of a connection (main.go): it may come in pieces, and a backspace corrects it.
use tealis.Base.{
  ℕ, ◌≡◌, ◌≢◌, zero, suc, ◌+◌, replicate, refl, sym, ap, ◌∙◌, List, [], ◌∷◌, ◌++◌, append_assoc,
  append-nil, Option, none, some, false, ◌||◌, ◌==◌, if◌then◌else◌, Bool-cases, inl, inr, arith,
}
use tealis.Base.Text.{Text}
use tealis.Tealis.{Tealis}
use tealis.Transactions.{Run}
use tealis.Connection.{
  but_last, clean_from, clean_bytes, has_newline, reading, closed, failed, Round, take_line, echo,
  after_echo, on_read, next_read, on_reads,
}

has_newline-append : (a b : Text) → has_newline (a ++ b) ≡ has_newline a || has_newline b
unfolding has_newline
has_newline-append [] b = refl
has_newline-append (c ∷ a) b = ground (arith, has_newline-append a b)

abbrev pub NoNewlines : List Text → Type 0
NoNewlines [] = Unit
NoNewlines (chunk ∷ chunks) = (has_newline chunk ≡ false) × NoNewlines chunks

abbrev pub concat : List Text → Text
concat [] = []
concat (chunk ∷ chunks) = chunk ++ concat chunks

after_echo-append :
    (xs ys : List Text) (r : Option Round)
    → after_echo xs (after_echo ys r) ≡ after_echo (xs ++ ys) r
unfolding after_echo
after_echo-append xs ys none = refl
after_echo-append xs ys (some (texts, progress, s)) = rw append_assoc refl

-- A round that goes on has nothing more to do.
last_read :
    (run : Run) (client : Text) (r : Option Round) → next_read (on_reads run client []) r ≡ r
unfolding next_read on_reads after_echo
last_read run client none = refl
last_read run client (some (texts, reading input, s)) = rw append-nil refl
last_read run client (some (texts, closed, s)) = refl
last_read run client (some (texts, failed o, s)) = refl

-- A read is answered at once if it begins with a backspace and there is input before it.
abbrev pub erases : Text → Text → ℕ
erases [] chunk = 0
erases (c ∷ input) [] = 0
erases (c ∷ input) (b ∷ chunk) = if b == 8 then 1 else 0

-- How many of the reads are.
abbrev pub erasures : Text → List Text → ℕ
erasures input [] = 0
erasures input (chunk ∷ chunks) = erases input chunk + erasures (input ++ chunk) chunks

-- A blank between two backspaces, with a blank before them: it wipes the last character of the client's line.
abbrev pub wipe : Text
wipe = b' ' ∷ 8 ∷ b' ' ∷ 8 ∷ []

echo-erases : (input chunk : Text) → echo input chunk ≡ replicate (erases input chunk) wipe
unfolding echo
echo-erases [] chunk = refl
echo-erases (c ∷ input) [] = refl
echo-erases (c ∷ input) (b ∷ chunk) = elim (Bool-cases (b == 8)) [
  | inl e ↦ rw e refl
  | inr e ↦ rw e refl
]

replicate-add : (n m : ℕ) (t : Text) → replicate n t ++ replicate m t ≡ replicate (n + m) t
replicate-add zero m t = ap (λ (i : ℕ). replicate i t) (omega arith)
replicate-add (suc n) m t =
    let next : suc n + m ≡ suc (n + m) = omega arith in rw next (ap (◌∷◌ t) (replicate-add n m t))

module _ (run : Run) (client : Text) where
  quiet_read :
      (chunk input : Text) (s : Tealis)
      → has_newline (input ++ chunk) ≡ false
      → on_read run client input chunk s
        ≡ some (echo input chunk ++ [], reading (input ++ chunk), s)
  unfolding on_read take_line after_echo
  quiet_read chunk input s h = rw h refl

  -- Reads without a newline, and then one more, lead to what one read of all their bytes leads to: the bytes before the last read are kept with the input, and what is written, what becomes of the connection and the state are those of the line that all the bytes make. Before that, for every one of the reads that begins with a backspace while there is input before it, the client is sent the text that wipes a character, and nothing else.
  pub on_reads-take_line :
      (chunks : List Text) (last input : Text) (s : Tealis)
      → has_newline input ≡ false
      → NoNewlines chunks
      → on_reads run client (chunks ++ last ∷ []) input s
        ≡ after_echo
            (replicate (erasures input (chunks ++ last ∷ [])) wipe)
            (take_line run client (input ++ (concat chunks ++ last)) s)
  unfolding on_reads next_read on_read after_echo
  on_reads-take_line [] last input s h q =
      let count : erasures input (last ∷ []) ≡ erases input last = omega arith in
      last_read run client (on_read run client input last s)
      ∙ rw (count, echo-erases input last) refl
  on_reads-take_line (chunk ∷ chunks) last input s h q =
      let quiet : has_newline (input ++ chunk) ≡ false =
        has_newline-append input chunk ∙ rw (h, q.0) refl in
      let e = on_reads-take_line chunks last (input ++ chunk) s quiet q.1 in
      let more = erasures (input ++ chunk) (chunks ++ last ∷ []) in
      rw
        (
          quiet_read chunk input s quiet,
          next_read,
          append-nil,
          e,
          after_echo-append,
          echo-erases,
          replicate-add (erases input chunk) more wipe,
        )
        (ap
          (λ (t : Text).
            after_echo (replicate (erases input chunk + more) wipe) (take_line run client t s))
          (append_assoc input chunk (concat chunks ++ last)
            ∙ ap (λ (t : Text). input ++ t) (sym (append_assoc chunk (concat chunks) last))))

but_last-append : (xs : Text) (c : ℕ) → but_last (xs ++ c ∷ []) ≡ xs
unfolding but_last
but_last-append [] c = refl
but_last-append (x ∷ []) c = refl
but_last-append (x ∷ y ∷ xs) c = ap (◌∷◌ x) (but_last-append (y ∷ xs) c)

clean_from-append :
    (result xs ys : Text) → clean_from result (xs ++ ys) ≡ clean_from (clean_from result xs) ys
unfolding clean_from
clean_from-append result [] ys = refl
clean_from-append result (x ∷ xs) ys = elim (Bool-cases (x == 8)) [
  | inl e ↦ rw (e, clean_from-append (but_last result) xs ys) refl
  | inr e ↦ rw (e, clean_from-append (result ++ x ∷ []) xs ys) refl
]

-- A byte and a backspace after it come to nothing, wherever they stand in the input.
pub clean_bytes-backspace :
    (xs ys : Text) (c : ℕ) → c ≢ 8 → clean_bytes (xs ++ c ∷ 8 ∷ ys) ≡ clean_bytes (xs ++ ys)
unfolding clean_bytes clean_from
clean_bytes-backspace xs ys c h =
    let plain : (c == 8) ≡ false = ground (arith, h) in
    rw
      (
        clean_from-append [] xs (c ∷ 8 ∷ ys),
        clean_from-append [] xs ys,
        clean_from,
        plain,
        clean_from,
        but_last-append,
      )
      refl
