-- ===== src/Prelude/Numerals/Reading.antt =====
-- What is read back of a number that was written.
use Prim.Native.Nat.{ℕ, zero, suc, ◌+◌, ◌/◌, ◌%◌, ◌<◌}
use Prim.Native.Char.{code}
use Prim.Native.String
use Prim.Native.String.append
use Prim.Native.String.{String}
use mathlib.Core.Path.{◌≡◌, refl, ap, sym, ◌∙◌}
use mathlib.Core.Logic.{inl, inr}
use mathlib.Core.Option.{some}
use mathlib.Core.Bool.{true, false}
use mathlib.Core.List.{List, [], ◌∷◌, ◌++◌, append-nil, append_assoc}
use native.Mathlib.Omega.{arith}
use policy_decision_service.Prelude.Int.{ℤ, pos, negsuc}
use policy_decision_service.Prelude.Text.{codes, is_space}
use policy_decision_service.Prelude.Tests.{ltb, Bool-cases}
use policy_decision_service.Prelude.Numerals.{
  digit, decimal_from, decimal, decimal_int, is_digit, scan_digits, starts_digit, scan_unsigned,
  scan_int, all_digits, read_unsigned, atoi,
}

pub codes-append : (s t : String) → codes (String.◌++◌ s t) ≡ codes s ++ codes t
codes-append String.[] t = ap codes (append.nil t)
codes-append (String.◌∷◌ c s) t =
    ap codes (append.cons c s t) ∙ ap (λ r. code c ∷ r) (codes-append s t)

codes-digit : (d : ℕ) → d < 10 → codes (digit d) ≡ (48 + d) ∷ []
unfolding digit
codes-digit zero h = refl
codes-digit (suc zero) h = refl
codes-digit (suc (suc zero)) h = refl
codes-digit (suc (suc (suc zero))) h = refl
codes-digit (suc (suc (suc (suc zero)))) h = refl
codes-digit (suc (suc (suc (suc (suc zero))))) h = refl
codes-digit (suc (suc (suc (suc (suc (suc zero)))))) h = refl
codes-digit (suc (suc (suc (suc (suc (suc (suc zero))))))) h = refl
codes-digit (suc (suc (suc (suc (suc (suc (suc (suc zero)))))))) h = refl
codes-digit (suc (suc (suc (suc (suc (suc (suc (suc (suc zero))))))))) h = refl
codes-digit (suc (suc (suc (suc (suc (suc (suc (suc (suc (suc (d))))))))))) h = absurd (omega arith)

-- One digit behind a text.
codes-snoc :
    (s : String) (d : ℕ) (tail : List ℕ)
    → d < 10
    → codes (String.◌++◌ s (digit d)) ++ tail ≡ codes s ++ (48 + d) ∷ tail
codes-snoc s d tail h =
    rw (codes-append s (digit d), codes-digit d h) (append_assoc (codes s) _ tail)

scan_digits-decimal_from :
    (fuel n : ℕ) (tail : List ℕ)
    → n < fuel
    → scan_digits 0 (codes (decimal_from fuel n) ++ tail) ≡ scan_digits n tail
unfolding decimal_from scan_digits is_digit
scan_digits-decimal_from zero n tail h = absurd (omega arith)
scan_digits-decimal_from (suc fuel) n tail h = elim (Bool-cases (ltb n 10)) [
  | inl small ↦ rw small (rw (codes-digit n (ground arith)) (ground arith))
  | inr large ↦
      let last : n % 10 < 10 = omega arith in
      rw large (
        rw (codes-snoc (decimal_from fuel (n / 10)) (n % 10) tail last) (
          scan_digits-decimal_from fuel (n / 10) ((48 + n % 10) ∷ tail) (ground arith)
          ∙ ground arith))
]

all_digits-concat :
    (xs : List ℕ) (d : ℕ) → all_digits xs ≡ true → d < 10 → all_digits (xs ++ (48 + d) ∷ []) ≡ true
unfolding all_digits is_digit
all_digits-concat [] d h k = ground arith
all_digits-concat (x ∷ xs) d h k = ground (arith, all_digits-concat xs d)

all_digits-decimal_from : (fuel n : ℕ) → all_digits (codes (decimal_from fuel n)) ≡ true
unfolding decimal_from all_digits is_digit
all_digits-decimal_from zero n = refl
all_digits-decimal_from (suc fuel) n = elim (Bool-cases (ltb n 10)) [
  | inl small ↦ rw small (rw (codes-digit n (ground arith)) (ground arith))
  | inr large ↦
      let last : n % 10 < 10 = omega arith in
      rw large (
        rw (codes-append (decimal_from fuel (n / 10)) (digit (n % 10)), codes-digit (n % 10) last)
          (all_digits-concat (codes (decimal_from fuel (n / 10))) (n % 10)
            (all_digits-decimal_from fuel (n / 10)) last))
]

-- The text of `n`: digits, one at least, whose value is `n`.
pub record IsNumeral (n : ℕ) (cs : List ℕ) : Type 0 where
  pub all : all_digits cs ≡ true
  pub value : scan_digits 0 cs ≡ n
  pub starts : starts_digit cs ≡ true

starts_digit-all :
    (n : ℕ) (cs : List ℕ) → all_digits cs ≡ true → scan_digits 0 cs ≡ suc n → starts_digit cs ≡ true
unfolding all_digits starts_digit scan_digits
starts_digit-all n [] h k = absurd (omega (arith, k))
starts_digit-all n (c ∷ cs) h k = ground arith

scan_digits-decimal : (n : ℕ) → scan_digits 0 (codes (decimal n)) ≡ n
unfolding decimal
scan_digits-decimal n =
    ap (scan_digits 0) (sym (append-nil (codes (decimal_from (suc n) n))))
    ∙ scan_digits-decimal_from (suc n) n [] (omega arith)
    ∙ unfold scan_digits in refl

starts_digit-decimal : (n : ℕ) → starts_digit (codes (decimal n)) ≡ true
starts_digit-decimal zero = unfold decimal decimal_from digit starts_digit is_digit in refl
starts_digit-decimal (suc n) =
    starts_digit-all n (codes (decimal (suc n)))
      (unfold decimal in all_digits-decimal_from (suc (suc n)) (suc n))
      (scan_digits-decimal (suc n))

decimal-IsNumeral : (n : ℕ) → IsNumeral n (codes (decimal n))
decimal-IsNumeral n = record {
  all = unfold decimal in all_digits-decimal_from (suc n) n;
  value = scan_digits-decimal n;
  starts = starts_digit-decimal n;
}

-- The values of an int64.
abbrev pub IsInt64 : ℤ → Type 0
IsInt64 (pos n) = n < 0x8000000000000000
IsInt64 (negsuc n) = n < 0x8000000000000000

scan_unsigned-pos :
    (n : ℕ) (cs : List ℕ)
    → IsNumeral n cs
    → n < 0x8000000000000000
    → scan_unsigned false cs ≡ some (pos n)
unfolding scan_unsigned
scan_unsigned-pos n cs h k = rw (h.value, h.starts) (ground arith)

scan_unsigned-negsuc :
    (n : ℕ) (cs : List ℕ)
    → IsNumeral (suc n) cs
    → n < 0x8000000000000000
    → scan_unsigned true cs ≡ some (negsuc n)
unfolding scan_unsigned
scan_unsigned-negsuc n cs h k = rw (h.value, h.starts) (ground arith)

scan_int-pos :
    (n : ℕ) (cs : List ℕ) → IsNumeral n cs → n < 0x8000000000000000 → scan_int cs ≡ some (pos n)
unfolding scan_int starts_digit is_digit is_space
scan_int-pos n [] h k = cc (h.starts)
scan_int-pos n (c ∷ cs) h k = ground (arith, h.starts, scan_unsigned-pos n (c ∷ cs) h k)

atoi-pos : (n : ℕ) (cs : List ℕ) → IsNumeral n cs → n < 0x8000000000000000 → atoi cs ≡ some (pos n)
unfolding atoi read_unsigned starts_digit is_digit
atoi-pos n [] h k = cc (h.starts)
atoi-pos n (c ∷ cs) h k = ground (arith, h.starts, h.all, scan_unsigned-pos n (c ∷ cs) h k)

codes-decimal_int : (n : ℕ) → codes (decimal_int (negsuc n)) ≡ b'-' ∷ codes (decimal (suc n))
unfolding decimal_int
codes-decimal_int n = codes-append "-" (decimal (suc n))

-- A number that fits an int64 is read back as it was written: by `Sscanf`,
pub scan_int-decimal_int : (z : ℤ) → IsInt64 z → scan_int (codes (decimal_int z)) ≡ some z
unfolding scan_int is_space
scan_int-decimal_int (pos n) h = unfold decimal_int in scan_int-pos n _ (decimal-IsNumeral n) h
scan_int-decimal_int (negsuc n) h =
    rw (codes-decimal_int n) (scan_unsigned-negsuc n _ (decimal-IsNumeral (suc n)) h)

-- and by `Atoi`.
pub atoi-decimal_int : (z : ℤ) → IsInt64 z → atoi (codes (decimal_int z)) ≡ some z
unfolding atoi read_unsigned
atoi-decimal_int (pos n) h = unfold decimal_int in atoi-pos n _ (decimal-IsNumeral n) h
atoi-decimal_int (negsuc n) h =
    rw (codes-decimal_int n, (decimal-IsNumeral (suc n)).all)
      (scan_unsigned-negsuc n _ (decimal-IsNumeral (suc n)) h)
