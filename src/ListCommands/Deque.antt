-- ===== src/ListCommands/Deque.antt =====
-- A key that holds no value or a list is a deque, which the pushes and pops work on
-- (internal/storage/list.go).
use tealis.Base.{
  ℕ, List, [], ◌∷◌, ◌++◌, Option, none, some, Outcome, ok, panic, deadlock, ◌+◌, ◌≡◌, ◌≢◌, ◌⊎◌, inl,
  inr, refl, ap, ◌∙◌, arith, length, take, get_elem?, length-append,
}
use tealis.Base.Text.{Text}
use tealis.Base.Dict.{lookup, lookup-insert_self, lookup-insert_ne}
use tealis.Value.{Value, list, as_list}
use tealis.Tealis.{Tealis, put}
use tealis.ListCommands.{rpush, lpush, lpop, rpop}

-- The abstract view of a key: the elements of its deque, or none for a value of another type.
abbrev view : Option Value → Option (List Text)
view none = some []
view (some v) = as_list v

unfoldable pub deque : Text → Tealis → Option (List Text)
deque key s = view (lookup key s.store)

-- What an operation may change: the value of its own key, and no other part of the state.
pub record OnlyKey (key : Text) (s s' : Tealis) : Type 0 where
  pub others : (j : Text) → key ≢ j → lookup j s'.store ≡ lookup j s.store
  pub expiries : s'.expiries ≡ s.expiries
  pub transactions : s'.transactions ≡ s.transactions
  pub multi : s'.multi ≡ s.multi
  pub arrays : s'.arrays ≡ s.arrays
  pub enable_aof : s'.enable_aof ≡ s.enable_aof
  pub aof_file : s'.aof_file ≡ s.aof_file
  pub pubsub_subscribers : s'.pubsub_subscribers ≡ s.pubsub_subscribers

pub OnlyKey-refl : (key : Text) (s : Tealis) → OnlyKey key s s
OnlyKey-refl key s = record {
  others = λ j h. refl;
  expiries = refl;
  transactions = refl;
  multi = refl;
  arrays = refl;
  enable_aof = refl;
  aof_file = refl;
  pubsub_subscribers = refl;
}

pub OnlyKey-trans :
    {key : Text} {s t u : Tealis} → OnlyKey key s t → OnlyKey key t u → OnlyKey key s u
OnlyKey-trans a b = record {
  others = λ j h. b.others j h ∙ a.others j h;
  expiries = b.expiries ∙ a.expiries;
  transactions = b.transactions ∙ a.transactions;
  multi = b.multi ∙ a.multi;
  arrays = b.arrays ∙ a.arrays;
  enable_aof = b.enable_aof ∙ a.enable_aof;
  aof_file = b.aof_file ∙ a.aof_file;
  pubsub_subscribers = b.pubsub_subscribers ∙ a.pubsub_subscribers;
}

put-OnlyKey : (key : Text) (v : Value) (s : Tealis) → OnlyKey key s (put key v s)
put-OnlyKey key v s = record {
  others = λ j h. lookup-insert_ne j key v s.store h;
  expiries = refl;
  transactions = refl;
  multi = refl;
  arrays = refl;
  enable_aof = refl;
  aof_file = refl;
  pubsub_subscribers = refl;
}

-- On a deque `l`, a push returns the length of the new deque and stores it.
rpush-deque :
    (key : Text) (values l : List Text) (s : Tealis)
    → deque key s ≡ some l
    → rpush key values s ≡ (ok (length (l ++ values)), put key (list (l ++ values)) s)
unfolding rpush deque as_list
rpush-deque key values l s h = ground arith

lpush-deque :
    (key : Text) (values l : List Text) (s : Tealis)
    → deque key s ≡ some l
    → lpush key values s ≡ (ok (length (values ++ l)), put key (list (values ++ l)) s)
unfolding lpush deque as_list
lpush-deque key values l s h = ground arith

deque-put : (key : Text) (l : List Text) (s : Tealis) → deque key (put key (list l) s) ≡ some l
unfolding deque as_list
deque-put key l s = rw lookup-insert_self

-- The abstract deque: its operations on a list, with the code's indices gone.
pub data DequeOp : Type 0 where
  push_right : List Text → DequeOp
  push_left : List Text → DequeOp
  pop_left : DequeOp
  pop_right : DequeOp

pub data Reply : Type 0 where
  count : ℕ → Reply
  popped : Option Text → Reply

abbrev pub init : List Text → List Text
init [] = []
init (x ∷ []) = []
init (x ∷ y ∷ l) = x ∷ init (y ∷ l)

abbrev pub last : List Text → Option Text
last [] = none
last (x ∷ []) = some x
last (x ∷ y ∷ l) = last (y ∷ l)

abbrev pub abstract_step : DequeOp → List Text → Reply × List Text
abstract_step (push_right vs) l = (count (length l + length vs), l ++ vs)
abstract_step (push_left vs) l = (count (length vs + length l), vs ++ l)
abstract_step pop_left [] = (popped none, [])
abstract_step pop_left (x ∷ l) = (popped (some x), l)
abstract_step pop_right l = (popped (last l), init l)

abbrev counted : Outcome ℕ × Tealis → Outcome Reply × Tealis
counted (ok n, s) = (ok (count n), s)
counted (panic, s) = (panic, s)
counted (deadlock, s) = (deadlock, s)

-- The code's operation.
abbrev pub concrete_step : DequeOp → Text → Tealis → Outcome Reply × Tealis
concrete_step (push_right vs) key s = counted (rpush key vs s)
concrete_step (push_left vs) key s = counted (lpush key vs s)
concrete_step pop_left key s = let (x, s') = lpop key s in (ok (popped x), s')
concrete_step pop_right key s = let (x, s') = rpop key s in (ok (popped x), s')

get_elem?-last : (x : Text) (l : List Text) → get_elem? (x ∷ l) (length l) ≡ last (x ∷ l)
get_elem?-last x [] = refl
get_elem?-last x (y ∷ l) = get_elem?-last y l

take-init : (x : Text) (l : List Text) → take (length l) (x ∷ l) ≡ init (x ∷ l)
take-init x [] = refl
take-init x (y ∷ l) = ap (◌∷◌ x) (take-init y l)

lpop-deque :
    (key x : Text) (l : List Text) (s : Tealis)
    → deque key s ≡ some (x ∷ l)
    → lpop key s ≡ (some x, put key (list l) s)
unfolding lpop deque as_list
lpop-deque key x l s h = ground arith

rpop-deque :
    (key x : Text) (l : List Text) (s : Tealis)
    → deque key s ≡ some (x ∷ l)
    → rpop key s ≡ (last (x ∷ l), put key (list (init (x ∷ l))) s)
unfolding rpop deque as_list
rpop-deque key x l s h = ground (arith, get_elem?-last x l, take-init x l)

pop_empty :
    (key : Text) (s : Tealis)
    → (deque key s ≡ none) ⊎ (deque key s ≡ some [])
    → (lpop key s ≡ (none, s)) × (rpop key s ≡ (none, s))
unfolding lpop rpop deque as_list
pop_empty key s h = (ground arith, ground arith)

-- One operation on a deque.
pub step_refines :
    (op : DequeOp) (key : Text) (l : List Text) (s : Tealis)
    → deque key s ≡ some l
    → ((concrete_step op key s).0 ≡ ok (abstract_step op l).0)
      × (deque key (concrete_step op key s).1 ≡ some (abstract_step op l).1)
      × OnlyKey key s (concrete_step op key s).1
step_refines (push_right vs) key l s h = rw (rpush-deque key vs l s h) (
  ap (λ (n : ℕ). ok (count n)) (length-append l vs),
  deque-put key (l ++ vs) s,
  put-OnlyKey key _ s,
)
step_refines (push_left vs) key l s h = rw (lpush-deque key vs l s h) (
  ap (λ (n : ℕ). ok (count n)) (length-append vs l),
  deque-put key (vs ++ l) s,
  put-OnlyKey key _ s,
)
step_refines pop_left key [] s h = rw ((pop_empty key s (inr h)).0) (refl, h, OnlyKey-refl key s)
step_refines pop_left key (x ∷ l) s h =
    rw (lpop-deque key x l s h) (refl, deque-put key l s, put-OnlyKey key _ s)
step_refines pop_right key [] s h = rw ((pop_empty key s (inr h)).1) (refl, h, OnlyKey-refl key s)
step_refines pop_right key (x ∷ l) s h =
    rw (rpop-deque key x l s h) (refl, deque-put key (init (x ∷ l)) s, put-OnlyKey key _ s)

-- The outcome on a key with a value of another type: a push fails its type assertion.
abbrev pub refused : DequeOp → Outcome Reply
refused (push_right vs) = panic
refused (push_left vs) = panic
refused pop_left = ok (popped none)
refused pop_right = ok (popped none)

-- On a key with a value of another type a push panics and a pop finds nothing; neither changes the
-- state.
step_other_type :
    (op : DequeOp) (key : Text) (s : Tealis)
    → deque key s ≡ none
    → concrete_step op key s ≡ (refused op, s)
unfolding deque
step_other_type (push_right vs) key s h = unfold rpush in ground arith
step_other_type (push_left vs) key s h = unfold lpush in ground arith
step_other_type pop_left key s h = rw ((pop_empty key s (inl h)).0)
step_other_type pop_right key s h = rw ((pop_empty key s (inl h)).1)
