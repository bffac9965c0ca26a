-- ===== src/HyperLogLogCommands/Merging.antt =====
-- `PFMerge` of internal/storage/hyperloglog.go: the registers of the result.
use Prim.Native.Nat.{max}
use tealis.Base.{
  ℕ, zero, suc, ◌≡◌, refl, sym, ap, ◌∙◌, List, [], ◌∷◌, none, some, ok, if◌then◌else◌, ltb, ◌==◌,
  ==_iff, inr, true, arith, get_elem?, length,
}
use tealis.Base.Text.{Text}
use tealis.Base.Dict.{lookup, lookup-insert_self}
use tealis.Floats.{Arithmetic}
use tealis.Value.{HyperLogLog}
use tealis.Tealis.{Tealis}
use tealis.HyperLogLogCommands.{
  merge_registers, merge, merge_source, merge_sources, pointer, store_merged, pfmerge,
}
use tealis.HyperLogLogCommands.Registers.{
  IsHll, or_zero, register_of, register_in, IsHllIn, new-IsHll,
}

Maxima : List ℕ → List ℕ → List ℕ → Type 0
Maxima rs others new =
    (merge_registers rs others ≡ some new)
    × (length new ≡ length rs)
    × ((i : ℕ)
        → or_zero (get_elem? new i) ≡ max (or_zero (get_elem? rs i)) (or_zero (get_elem? others i)))

larger_at :
    (a b : ℕ) (rs others new : List ℕ)
    → ((i : ℕ)
        → or_zero (get_elem? new i) ≡ max (or_zero (get_elem? rs i)) (or_zero (get_elem? others i)))
    → (i : ℕ)
    → or_zero (get_elem? ((if ltb a b then b else a) ∷ new) i)
      ≡ max (or_zero (get_elem? (a ∷ rs) i)) (or_zero (get_elem? (b ∷ others) i))
larger_at a b rs others new h zero = ground arith
larger_at a b rs others new h (suc i) = h i

merge_registers-Maxima :
    (rs others : List ℕ) → length rs ≡ length others → (new : List ℕ) × Maxima rs others new
unfolding Maxima merge_registers
merge_registers-Maxima [] [] h = ([], (refl, refl, λ i. refl))
merge_registers-Maxima [] (b ∷ others) h = absurd (omega arith)
merge_registers-Maxima (a ∷ rs) [] h = absurd (omega arith)
merge_registers-Maxima (a ∷ rs) (b ∷ others) h =
    let (new, (e, len, larger)) = merge_registers-Maxima rs others (omega arith) in
    ((if ltb a b then b else a) ∷ new, (rw e refl, ap suc len, larger_at a b rs others new larger))

merge-IsHll :
    (h g : HyperLogLog)
    → IsHll h
    → IsHll g
    → (f : HyperLogLog) × ((merge h g ≡ ok f)
        × IsHll f
        × ((i : ℕ) → register_of i f ≡ max (register_of i h) (register_of i g)))
unfolding merge Maxima
merge-IsHll h g (m, len) (m', len') =
    let (new, (e, size, larger)) =
      merge_registers-Maxima h.registers g.registers (omega (arith, len, len')) in
    let same : (h.m == g.m) ≡ true = (==_iff h.m g.m).1 (m ∙ sym m') in
    (record h { registers = new }, (rw (merge, same, e) refl, (m, size ∙ len), larger))

-- All the keys hold HyperLogLogs of 2^14 registers.
abbrev pub AllHll : List Text → Tealis → Type 0
AllHll [] s = Unit
AllHll (key ∷ keys) s = IsHllIn (lookup key s.store) × AllHll keys s

-- The largest of a register and those of the keys.
abbrev pub largest : ℕ → ℕ → List Text → Tealis → ℕ
largest i r [] s = r
largest i r (key ∷ keys) s = largest i (max r (register_in i (lookup key s.store))) keys s

module _ (arithmetic : Arithmetic) where
  merge_sources-largest :
      (h : HyperLogLog) (sources : List Text) (s : Tealis)
      → IsHll h
      → AllHll sources s
      → (g : HyperLogLog) × ((merge_sources arithmetic (some h) sources s ≡ ok (inr (some g)))
          × IsHll g
          × ((i : ℕ) → register_of i g ≡ largest i (register_of i h) sources s))
  unfolding merge_sources merge_source
  merge_sources-largest h [] s is all = (h, (refl, is, λ i. refl))
  merge_sources-largest h (source ∷ sources) s is ((f, (e, is')), all) =
      let (g, (merged, good, larger)) = merge-IsHll h f is is' in
      let (k, (done, good', rest)) = merge_sources-largest g sources s good all in
      (
        k,
        (
          rw (merge_sources, e, merge_source, merged, done) refl,
          good',
          λ i. rest i ∙ rw (larger, e) refl,
        ),
      )

  -- `PFMerge` of one key or more that all hold HyperLogLogs of 2^14 registers returns no error, and each register of the destination is then the largest of those of the sources.
  pub pfmerge-registers :
      (dest source : Text) (sources : List Text) (s : Tealis)
      → AllHll (source ∷ sources) s
      → ((pfmerge arithmetic dest (source ∷ sources) s).0 ≡ ok none)
        × IsHllIn (lookup dest (pfmerge arithmetic dest (source ∷ sources) s).1.store)
        × ((i : ℕ)
            → register_in i (lookup dest (pfmerge arithmetic dest (source ∷ sources) s).1.store)
              ≡ largest i 0 (source ∷ sources) s)
  unfolding pfmerge merge_sources merge_source store_merged pointer
  pfmerge-registers dest source sources s ((h, (e, is)), all) =
      let (new, (made, good, zeros)) = new-IsHll arithmetic in
      let (f, (merged, good', larger)) = merge-IsHll new h good is in
      let (g, (done, is', rest)) = merge_sources-largest f sources s good' all in
      rw
        (
          pfmerge, merge_sources, e, merge_source, made, merged, done, store_merged,
          lookup-insert_self,
        )
        (refl, (g, (refl, is')), λ i. rest i ∙ rw (larger, zeros) refl)
