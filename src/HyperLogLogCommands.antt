-- ===== src/HyperLogLogCommands.antt =====
-- internal/storage/hyperloglog.go. Each method of the server holds `Mu` to its end. A `*HyperLogLog` is the
-- value of one key only, so that it stands in the store as what it points to.
pub mod Registers
pub mod Merging
use Prim.Native.Nat.{bit_and, bit_xor}
use tealis.Base.{
  ℕ, zero, suc, ◌+◌, ◌-◌, ◌*◌, ◌/◌, ◌%◌, ◌^◌, List, [], ◌∷◌, Option, none, some, Outcome, ok, panic,
  deadlock, ◌>>=◌, if◌then◌else◌, ltb, ◌==◌, ◌||◌, not, ◌⊎◌, inl, inr, get_elem?, set, replicate,
  length,
}
use tealis.Base.Int.{ℤ, pos}
use tealis.Base.Text.{Text, codes}
use tealis.Base.Dict.{lookup}
use tealis.Floats.{Arithmetic}
use tealis.Value.{Value, HyperLogLog, hll, nil_hll}
use tealis.Tealis.{Tealis, Action, put}

-- `hash/fnv`, New64a: the hash of the bytes, from the hash so far.
unfoldable pub fnv : ℕ → Text → ℕ
fnv hash [] = hash
fnv hash (c ∷ value) = fnv (bit_xor hash c * 1099511628211 % 2 ^ 64) value

unfoldable pub sum64 : Text → ℕ
sum64 value = fnv 14695981039346656037 value

-- `bits.Len32` and `bits.Len64`: the digits that a number of at most `n` of them needs.
unfoldable pub bit_length : ℕ → ℕ → ℕ
bit_length zero a = 0
bit_length (suc n) a = let rest = bit_length n (a / 2) in if a == 0 then 0 else suc rest

-- `registerIndex`
unfoldable pub register_index : ℕ → Text → ℕ
register_index m value = bit_and (sum64 value % 2 ^ 32) (m - 1)

-- `bits.LeadingZeros64(w) + 1`, for `w := x >> (64 - bits.Len32(hll.m))`
unfoldable pub rank : ℕ → Text → ℕ
rank m value = 64 - bit_length 64 (sum64 value / 2 ^ (64 - bit_length 32 m)) + 1

-- `Add`
unfoldable pub add : HyperLogLog → Text → Outcome HyperLogLog
add h value = elim (get_elem? h.registers (register_index h.m value)) [
  | none ↦ panic
  | some register ↦
      if ltb register (rank h.m value % 2 ^ 8)
      then ok (record h {
        registers = set h.registers (register_index h.m value) (rank h.m value % 2 ^ 8);
      })
      else ok h
]

-- The loop of `Merge`; a register that the other has not is an index out of range.
unfoldable pub merge_registers : List ℕ → List ℕ → Option (List ℕ)
merge_registers [] others = some []
merge_registers (a ∷ registers) [] = none
merge_registers (a ∷ registers) (b ∷ others) = elim (merge_registers registers others) [
  | none ↦ none
  | some rest ↦ some ((if ltb a b then b else a) ∷ rest)
]

-- `Merge`
unfoldable pub merge : HyperLogLog → HyperLogLog → Outcome HyperLogLog
merge h g = if not (h.m == g.m) then panic else elim (merge_registers h.registers g.registers) [
  | none ↦ panic
  | some merged ↦ ok (record h { registers = merged })
]

-- The result of a method: an error or a value.
abbrev pub Result : Type 0 → Type 0
Result A = Text ⊎ A

unfoldable pub wrong_type : Text
wrong_type = codes "WRONGTYPE Operation against a key holding the wrong kind of value"

module _ (arithmetic : Arithmetic) where
  -- `0.7213 / (1 + 1.079/float64(m)) * float64(m*m)`
  unfoldable pub alpha_mm_of : ℕ → ℕ
  alpha_mm_of m =
      arithmetic.mul
        (arithmetic.div 4604672112367721094 (
          arithmetic.add 4607182418800017408
            (arithmetic.div 4607538203170579677 (arithmetic.of_int (pos m)))))
        (arithmetic.of_int (pos (m * m % 2 ^ 32)))

  -- `NewHyperLogLog`
  unfoldable pub new_hyper_log_log : ℕ → Outcome HyperLogLog
  new_hyper_log_log precision =
      if ltb precision 4 || ltb 18 precision
      then panic
      else ok (record {
        registers = replicate (2 ^ precision) 0;
        m = 2 ^ precision;
        alpha_mm = alpha_mm_of (2 ^ precision);
      })

  -- `1.0 / math.Pow(2.0, float64(register))`, added up in the first loop of `Count`
  unfoldable pub sum_of : ℕ → List ℕ → ℕ
  sum_of sum [] = sum
  sum_of sum (register ∷ registers) =
      sum_of
        (arithmetic.add sum (
          arithmetic.div 4607182418800017408
            (arithmetic.pow 4611686018427387904 (arithmetic.of_int (pos register)))))
        registers

  -- The second loop of `Count`.
  unfoldable pub empty_registers : List ℕ → ℕ
  empty_registers [] = 0
  empty_registers (register ∷ registers) =
      (if register == 0 then 1 else 0) + empty_registers registers

  -- The correction for small ranges.
  unfoldable pub small_range : ℕ → ℕ → ℕ → ℕ
  small_range m empty estimate =
      if ltb 0 empty
      then arithmetic.mul (arithmetic.of_int (pos m)) (
          arithmetic.log
            (arithmetic.div (arithmetic.of_int (pos m)) (arithmetic.of_int (pos empty))))
      else estimate

  -- The correction for large ranges: above 2^32 / 30.
  unfoldable pub large_range : ℕ → ℕ
  large_range estimate =
      if arithmetic.below 4729079848714178833 estimate
      then arithmetic.neg (
          arithmetic.mul 4751297606875873280 (
            arithmetic.log
              (arithmetic.sub 4607182418800017408 (arithmetic.div estimate 4751297606875873280))))
      else estimate

  -- `Count`
  unfoldable pub count : HyperLogLog → ℤ
  count h = arithmetic.to_int64 (
      large_range (
        small_range h.m (empty_registers h.registers)
          (arithmetic.div h.alpha_mm (sum_of 0 h.registers))))

  -- What `PFAdd` stores.
  unfoldable pub store_hll : Text → Outcome HyperLogLog → Action (Option Text)
  store_hll key (ok h) s = (ok none, put key (hll h) s)
  store_hll key panic s = (panic, s)
  store_hll key deadlock s = (deadlock, s)

  -- A nil pointer cannot be read.
  unfoldable pub pfadd_at : Text → Text → Option Value → Action (Option Text)
  pfadd_at key value none s = store_hll key (new_hyper_log_log 14 >>= λ h. add h value) s
  pfadd_at key value (some (hll h)) s = store_hll key (add h value) s
  pfadd_at key value (some nil_hll) s = (panic, s)
  pfadd_at key value (some v) s = (ok (some wrong_type), s)

  -- `PFAdd`: the error, if there is one.
  unfoldable pub pfadd : Text → Text → Action (Option Text)
  pfadd key value s = pfadd_at key value (lookup key s.store) s

  unfoldable pub pfcount_of : Option Value → Outcome (Result ℤ)
  pfcount_of none = ok (inl (codes "key does not exist"))
  pfcount_of (some (hll h)) = ok (inr (count h))
  pfcount_of (some nil_hll) = panic
  pfcount_of (some v) = ok (inl wrong_type)

  -- `PFCount`
  unfoldable pub pfcount : Text → Tealis → Outcome (Result ℤ)
  pfcount key s = pfcount_of (lookup key s.store)

  -- One source: what has been merged, nil at first, with it.
  unfoldable pub merge_source : Option HyperLogLog → Option Value → Outcome (Result HyperLogLog)
  merge_source merged none = ok (inl (codes "source key does not exist"))
  merge_source none (some (hll h)) = new_hyper_log_log 14 >>= λ new. merge new h >>= λ g. ok (inr g)
  merge_source (some merged) (some (hll h)) = merge merged h >>= λ g. ok (inr g)
  merge_source merged (some nil_hll) = panic
  merge_source merged (some v) = ok (inl wrong_type)

  -- `for _, source := range sources`
  unfoldable pub merge_sources :
      Option HyperLogLog → List Text → Tealis → Outcome (Result (Option HyperLogLog))
  merge_sources merged [] s = ok (inr merged)
  merge_sources merged (source ∷ sources) s = elim (merge_source merged (lookup source s.store)) [
    | ok (inl e) ↦ ok (inl e)
    | ok (inr h) ↦ merge_sources (some h) sources s
    | panic ↦ panic
    | deadlock ↦ deadlock
  ]

  -- A `*HyperLogLog` as a stored value.
  unfoldable pub pointer : Option HyperLogLog → Value
  pointer none = nil_hll
  pointer (some h) = hll h

  unfoldable pub store_merged : Text → Outcome (Result (Option HyperLogLog)) → Action (Option Text)
  store_merged dest (ok (inl e)) s = (ok (some e), s)
  store_merged dest (ok (inr merged)) s = (ok none, put dest (pointer merged) s)
  store_merged dest panic s = (panic, s)
  store_merged dest deadlock s = (deadlock, s)

  -- `PFMerge`
  unfoldable pub pfmerge : Text → List Text → Action (Option Text)
  pfmerge dest sources s = store_merged dest (merge_sources none sources s) s
