-- ===== src/HyperLogLogCommands/Registers.antt =====
-- The registers of internal/storage/hyperloglog.go after `PFAdd` and `PFMerge`.
use Prim.Native.Nat.{bit_and, bit_xor, max}
use native.Mathlib.Nat.{pow-suc}
use tealis.Base.{
  ℕ, zero, suc, ◌*◌, ◌/◌, ◌%◌, ◌^◌, ◌≤◌, ◌<◌, ◌≡◌, ◌≢◌, refl, ap, ◌∙◌, List, [], ◌∷◌, Option, none,
  some, ok, if◌then◌else◌, ltb, ◌==◌, ==_iff, ◌⊎◌, inl, inr, Bool, true, false, Bool-cases, arith,
  get_elem?, set, replicate, length, length-set, length-replicate, get_elem?-set_self,
  get_elem?-set_ne,
}
use tealis.Base.Bits.{digit-bit_and, digit_of_lt, lt_of_digits}
use tealis.Base.Text.{Text}
use tealis.Base.Dict.{lookup, lookup-insert_self}
use tealis.Floats.{Arithmetic}
use tealis.Value.{Value, HyperLogLog, hll}
use tealis.Tealis.{Tealis}
use tealis.HyperLogLogCommands.{
  fnv, sum64, bit_length, register_index, rank, add, new_hyper_log_log, store_hll, pfadd_at, pfadd,
}

-- As `NewHyperLogLog(14)` makes them.
abbrev pub IsHll : HyperLogLog → Type 0
IsHll h = (h.m ≡ 16384) × (length h.registers ≡ 16384)

abbrev pub or_zero : Option ℕ → ℕ
or_zero none = 0
or_zero (some register) = register

abbrev pub register_of : ℕ → HyperLogLog → ℕ
register_of i h = or_zero (get_elem? h.registers i)

fnv-lt : (hash : ℕ) (value : Text) → hash < 2 ^ 64 → fnv hash value < 2 ^ 64
unfolding fnv
fnv-lt hash [] h = h
fnv-lt hash (c ∷ value) h = fnv-lt (bit_xor hash c * 1099511628211 % 2 ^ 64) value (omega arith)

sum64-lt : (value : Text) → sum64 value < 2 ^ 64
unfolding sum64
sum64-lt value = fnv-lt 14695981039346656037 value (omega arith)

bit_length-le : (n k a : ℕ) → a < 2 ^ k → bit_length n a ≤ k
unfolding bit_length
bit_length-le zero k a h = omega arith
bit_length-le (suc n) zero a h = ground arith
bit_length-le (suc n) (suc k) a h =
    ground (arith, bit_length-le n k (a / 2) (omega (arith, pow-suc 2 k)))

digits_of_m : bit_length 32 16384 ≡ 15
unfolding bit_length
digits_of_m = refl

-- At least 49 of the 64 digits are shifted away before the zeros are counted.
pub rank-bounds : (value : Text) → (50 ≤ rank 16384 value) × (rank 16384 value ≤ 65)
unfolding rank
rank-bounds value =
    let short : sum64 value / 2 ^ 49 < 2 ^ 15 = omega (arith, sum64-lt value) in
    let few = bit_length-le 64 15 (sum64 value / 2 ^ 49) short in
    rw digits_of_m (omega (arith, few), omega arith)

index-lt : (value : Text) → register_index 16384 value < 16384
unfolding register_index
index-lt value = lt_of_digits 14 (bit_and (sum64 value % 2 ^ 32) 16383) (λ k h.
    digit-bit_and k (sum64 value % 2 ^ 32) 16383
    ∙ rw (digit_of_lt 14 k 16383 (omega arith) h) (omega arith))

get_elem?_of_lt : (rs : List ℕ) (i : ℕ) → i < length rs → (r : ℕ) × (get_elem? rs i ≡ some r)
get_elem?_of_lt [] i h = absurd (omega arith)
get_elem?_of_lt (r ∷ rs) zero h = (r, refl)
get_elem?_of_lt (r ∷ rs) (suc i) h = get_elem?_of_lt rs i (omega arith)

-- `Add`: the register that the hash names is raised to the rank.
Added : HyperLogLog → Text → HyperLogLog → Type 0
Added h value g =
    (add h value ≡ ok g)
    × IsHll g
    × ((i : ℕ)
        → register_of i g ≡ (
            if i == register_index 16384 value
            then max (register_of i h) (rank 16384 value)
            else register_of i h))

raised :
    (rs : List ℕ) (j v i r : ℕ)
    → get_elem? rs j ≡ some r
    → j < length rs
    → or_zero (get_elem? (if ltb r v then set rs j v else rs) i)
      ≡ (if i == j then max (or_zero (get_elem? rs i)) v else or_zero (get_elem? rs i))
raised rs j v i r at l = elim (Bool-cases (i == j)) [
  | inl e ↦
      (let same = (==_iff i j).0 e in rw same (ground (arith, at, get_elem?-set_self rs j v l)))
  | inr e ↦
      (let apart : j ≢ i = λ q. ground (arith, ==_iff i j, e) in
        ground (arith, e, get_elem?-set_ne rs j i v apart))
]

chosen :
    (h : HyperLogLog) (b : Bool) (rs : List ℕ)
    → (if b then ok (record h { registers = rs }) else ok h)
      ≡ ok (record h { registers = if b then rs else h.registers })
chosen h true rs = refl
chosen h false rs = refl

add-chosen :
    (h : HyperLogLog) (value : Text) (j v r : ℕ)
    → register_index h.m value ≡ j
    → rank h.m value % 2 ^ 8 ≡ v
    → get_elem? h.registers j ≡ some r
    → add h value
      ≡ ok (record h { registers = if ltb r v then set h.registers j v else h.registers })
unfolding add
add-chosen h value j v r same_index same_rank at =
    rw (add, same_index, at, same_index, same_rank) (chosen h (ltb r v) (set h.registers j v))

add-Added : (h : HyperLogLog) (value : Text) → IsHll h → (g : HyperLogLog) × Added h value g
unfolding Added
add-Added h value (m, len) =
    let j = register_index 16384 value in
    let v = rank 16384 value in
    let small : v % 2 ^ 8 ≡ v = omega (arith, (rank-bounds value).1) in
    let same_index : register_index h.m value ≡ j = ap (λ n. register_index n value) m in
    let same_rank : rank h.m value % 2 ^ 8 ≡ v = ap (λ n. rank n value % 2 ^ 8) m ∙ small in
    let (r, at) = get_elem?_of_lt h.registers j (omega (arith, index-lt value, len)) in
    let inside : j < length h.registers = omega (arith, index-lt value, len) in
    (
      record h { registers = if ltb r v then set h.registers j v else h.registers },
      (
        add-chosen h value j v r same_index same_rank at,
        (m, ground (arith, len, length-set h.registers j v)),
        λ i. raised h.registers j v i r at inside,
      ),
    )

-- The value of a key, as a register of it.
abbrev pub register_in : ℕ → Option Value → ℕ
register_in i (some (hll h)) = register_of i h
register_in i _ = 0

abbrev pub IsHllIn : Option Value → Type 0
IsHllIn v = (h : HyperLogLog) × ((v ≡ some (hll h)) × IsHll h)

-- The key has no value, or a HyperLogLog as `PFAdd` makes them.
abbrev pub Countable : Option Value → Type 0
Countable v = (v ≡ none) ⊎ IsHllIn v

zero_registers : (n i : ℕ) → or_zero (get_elem? (replicate n 0) i) ≡ 0
zero_registers zero i = refl
zero_registers (suc n) zero = refl
zero_registers (suc n) (suc i) = zero_registers n i

module _ (arithmetic : Arithmetic) where
  pub new-IsHll :
      (h : HyperLogLog) × ((new_hyper_log_log arithmetic 14 ≡ ok h)
        × IsHll h
        × ((i : ℕ) → register_of i h ≡ 0))
  unfolding new_hyper_log_log
  new-IsHll = (_, (refl, (refl, length-replicate {A = ℕ} 16384 0), zero_registers 16384))

  -- For a key that has no value, or a HyperLogLog of 2^14 registers: `PFAdd` returns no error, and raises one register of the key, which the hash of the value names, to the rank of the value if it is lower; the other registers stay. The rank is between 50 and 65 for every value.
  pub pfadd-registers :
      (key value : Text) (s : Tealis)
      → Countable (lookup key s.store)
      → ((pfadd arithmetic key value s).0 ≡ ok none)
        × IsHllIn (lookup key (pfadd arithmetic key value s).1.store)
        × ((i : ℕ)
            → register_in i (lookup key (pfadd arithmetic key value s).1.store) ≡ (
                if i == register_index 16384 value
                then max (register_in i (lookup key s.store)) (rank 16384 value)
                else register_in i (lookup key s.store)))
        × (50 ≤ rank 16384 value)
        × (rank 16384 value ≤ 65)
  unfolding pfadd pfadd_at store_hll Added
  pfadd-registers key value s (inl e) =
      let (h, (made, is, zeros)) = new-IsHll in
      let (g, (added, is', new)) = add-Added h value is in
      rw (e, made, added, lookup-insert_self)
        (
          refl,
          (g, (refl, is')),
          λ i. new i ∙ rw zeros refl,
          (rank-bounds value).0,
          (rank-bounds value).1,
        )
  pfadd-registers key value s (inr (h, (e, is))) =
      let (g, (added, is', new)) = add-Added h value is in
      rw (e, added, lookup-insert_self)
        (refl, (g, (refl, is')), new, (rank-bounds value).0, (rank-bounds value).1)
