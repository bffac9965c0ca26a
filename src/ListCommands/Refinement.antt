-- ===== src/ListCommands/Refinement.antt =====
-- Any sequence of pushes and pops on one key (internal/storage/list.go) runs as on an abstract deque.
use tealis.Base.{List, [], ◌∷◌, some, Outcome, ok, ◌>>=◌, ◌≡◌, refl}
use tealis.Base.Text.{Text}
use tealis.Tealis.{Tealis}
use tealis.ListCommands.Deque.{
  deque, OnlyKey, OnlyKey-refl, OnlyKey-trans, DequeOp, Reply, abstract_step, concrete_step,
  step_refines,
}

abbrev pub abstract_run : List DequeOp → List Text → List Reply × List Text
abstract_run [] l = ([], l)
abstract_run (op ∷ ops) l =
    let (r, l') = abstract_step op l in let (rs, l'') = abstract_run ops l' in (r ∷ rs, l'')

-- The commands one after the other; their replies, if all of them return.
abbrev pub concrete_run : List DequeOp → Text → Tealis → Outcome (List Reply) × Tealis
concrete_run [] key s = (ok [], s)
concrete_run (op ∷ ops) key s =
    let (r, s') = concrete_step op key s in
    let (rs, s'') = concrete_run ops key s' in ((r >>= λ x. rs >>= λ xs. ok (x ∷ xs)), s'')

-- Pushes and pops on a key that holds no value or a list never panic; they reply as a deque does and
-- leave the deque's list under the key, and they change no other part of the state.
pub run_refines :
    (ops : List DequeOp) (key : Text) (l : List Text) (s : Tealis)
    → deque key s ≡ some l
    → ((concrete_run ops key s).0 ≡ ok (abstract_run ops l).0)
      × (deque key (concrete_run ops key s).1 ≡ some (abstract_run ops l).1)
      × OnlyKey key s (concrete_run ops key s).1
run_refines [] key l s h = (refl, h, OnlyKey-refl key s)
run_refines (op ∷ ops) key l s h =
    let (replied, stored, kept) = step_refines op key l s h in
    let (replies, final, kept') =
      run_refines ops key (abstract_step op l).1 (concrete_step op key s).1 stored in
    (rw (replied, replies), final, OnlyKey-trans kept kept')
