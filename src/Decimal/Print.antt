-- ===== src/Decimal/Print.antt =====
-- `std::to_string` and `operator<<` on an `int64_t`.
use native.Mathlib.Bridge.{le_prop}
use taobench.Prelude.{
  ℕ, suc, ◌+◌, ◌/◌, ◌%◌, ◌<◌, ℤ, pos, negsuc, Bytes, [], ◌∷◌, ◌++◌, arith, dite, dec_lt, Acc, lt_wf,
  dif_pos, dif_neg,
}

digits_acc : (n : ℕ) → Acc ◌<◌ n → Bytes
digits_acc n (Acc.intro _ smaller) =
    dite (dec_lt 9 n)
      (λ h. digits_acc (n / 10) (smaller (n / 10) (omega arith)) ++ (b'0' + n % 10) ∷ [])
      (λ _. (b'0' + n) ∷ [])

unfoldable pub digits : ℕ → Bytes
unfolding digits_acc lt_wf dec_lt
digits n = digits_acc n (lt_wf.apply n)

unfoldable pub to_string : ℤ → Bytes
to_string (pos n) = digits n
to_string (negsuc n) = b'-' ∷ digits (suc n)

module _ {ℓ} (P : ℕ → Bytes → Type ℓ) (one : (n : ℕ) → n < 10 → P n ((b'0' + n) ∷ []))
    (more : (n : ℕ) (s : Bytes) → 9 < n → P (n / 10) s → P n (s ++ (b'0' + n % 10) ∷ [])) where
  digits_acc_induction : (n : ℕ) (w : Acc ◌<◌ n) → P n (digits_acc n w)
  unfolding digits_acc
  digits_acc_induction n (Acc.intro _ smaller) = elim (dec_lt 9 n) [
    | yes h ↦
        rw (dif_pos _ le_prop h)
          (more n _ h (digits_acc_induction (n / 10) (smaller (n / 10) (omega arith))))
    | no h ↦ rw (dif_neg _ h) (one n (omega arith))
  ]

  -- An induction on the digits: a text is that of a digit, or that of a tenth and a digit.
  pub digits_induction : (n : ℕ) → P n (digits n)
  unfolding digits
  digits_induction n = digits_acc_induction n (lt_wf.apply n)
