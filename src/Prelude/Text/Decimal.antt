-- ===== src/Prelude/Text/Decimal.antt =====
-- Decimal digits: what `to_decimal` prints is a text of digits, and `big_int` reads it back.
use Prim.Native.Nat.{ℕ, zero, suc, ◌+◌, ◌-◌, ◌*◌, ◌/◌, ◌%◌, ◌≤◌, ◌<◌}
use Prim.Native.Char.{Char, code}
use Prim.Native.String.{String, [], ◌∷◌, ◌++◌}
use mathlib.Core.Path.{◌≡◌, refl}
use mathlib.Core.Logic.{inl, inr}
use mathlib.Core.Bool.{true, false}
use text.Mathlib.TextLemmas.{cons-append, nil-append}
use native.Mathlib.Omega.{arith}
use thesis_project_land_chai.Prelude.Equality.{leb, Bool-cases}
use thesis_project_land_chai.Prelude.Text.{
  char_of, digits_loop, to_decimal, is_digit, is_digits, scan, big_int,
}

abbrev hex_digits : String
hex_digits = "0123456789abcdef"

code-digit : (d : ℕ) → d < 10 → code (char_of d hex_digits) ≡ b'0' + d
unfolding char_of
code-digit zero h = refl
code-digit (suc zero) h = refl
code-digit (suc (suc zero)) h = refl
code-digit (suc (suc (suc zero))) h = refl
code-digit (suc (suc (suc (suc zero)))) h = refl
code-digit (suc (suc (suc (suc (suc zero))))) h = refl
code-digit (suc (suc (suc (suc (suc (suc zero)))))) h = refl
code-digit (suc (suc (suc (suc (suc (suc (suc zero))))))) h = refl
code-digit (suc (suc (suc (suc (suc (suc (suc (suc zero)))))))) h = refl
code-digit (suc (suc (suc (suc (suc (suc (suc (suc (suc zero))))))))) h = refl
code-digit (suc (suc (suc (suc (suc (suc (suc (suc (suc (suc d)))))))))) h = absurd (omega arith)

digits_loop_done :
    (fuel n : ℕ) (acc : String) → leb n 0 ≡ true → digits_loop 10 (suc fuel) n acc ≡ acc
unfolding digits_loop
digits_loop_done fuel n acc h = rw (h, digits_loop) refl

digits_loop_more :
    (fuel n : ℕ) (acc : String)
    → leb n 0 ≡ false
    → digits_loop 10 (suc fuel) n acc
      ≡ digits_loop 10 fuel (n / 10) (char_of (n % 10) hex_digits ∷ acc)
unfolding digits_loop
digits_loop_more fuel n acc h = rw (h, digits_loop) refl

scan-digits_loop :
    (fuel n : ℕ) (acc : String) → n ≤ fuel → scan 0 (digits_loop 10 fuel n acc) ≡ scan n acc
unfolding scan
scan-digits_loop zero n acc h = let e : n ≡ 0 = omega arith in rw e (unfold digits_loop in refl)
scan-digits_loop (suc fuel) n acc h = elim (Bool-cases (leb n 0)) [
  | inl none_left ↦
      let e : n ≡ 0 = ground arith in rw (digits_loop_done fuel n acc none_left, e) refl
  | inr more ↦
      let value : n / 10 * 10 + (code (char_of (n % 10) hex_digits) - b'0') ≡ n =
        omega (arith, code-digit (n % 10) (omega arith)) in
      rw (digits_loop_more fuel n acc more)
        (rw (scan-digits_loop fuel (n / 10) _ (ground arith)) (rw value refl))
]

pub big_int-to_decimal : (n : ℕ) → big_int (to_decimal n) ≡ n
unfolding big_int to_decimal scan
big_int-to_decimal n = elim (Bool-cases (leb n 0)) [
  | inl none_left ↦ let e : n ≡ 0 = ground arith in rw (none_left, e) refl
  | inr more ↦ rw more (scan-digits_loop n n "" (omega arith))
]

is_digits-cons :
    (c : Char) (s : String) → is_digit c ≡ true → is_digits s ≡ true → is_digits (c ∷ s) ≡ true
unfolding is_digits
is_digits-cons c [] h k = rw h refl
is_digits-cons c (d ∷ s) h k = rw (h, k) refl

is_digits-single : (c : Char) → is_digit c ≡ true → is_digits (c ∷ []) ≡ true
unfolding is_digits
is_digits-single c h = rw h refl

is_digit-digit : (d : ℕ) → d < 10 → is_digit (char_of d hex_digits) ≡ true
is_digit-digit d h = ground (arith, code-digit d h)

is_digits-digits_loop :
    (fuel n : ℕ) (acc : String)
    → is_digits acc ≡ true
    → is_digits (digits_loop 10 fuel n acc) ≡ true
is_digits-digits_loop zero n acc h = unfold digits_loop in h
is_digits-digits_loop (suc fuel) n acc h = elim (Bool-cases (leb n 0)) [
  | inl none_left ↦ rw (digits_loop_done fuel n acc none_left) h
  | inr more ↦ rw (digits_loop_more fuel n acc more) (
      is_digits-digits_loop fuel (n / 10) _
        (is_digits-cons _ acc (is_digit-digit (n % 10) (omega arith)) h))
]

is_digits-digits_loop_pos :
    (fuel n : ℕ) → n ≤ fuel → leb n 0 ≡ false → is_digits (digits_loop 10 fuel n "") ≡ true
is_digits-digits_loop_pos zero n h p = absurd (ground arith)
is_digits-digits_loop_pos (suc fuel) n h p = rw (digits_loop_more fuel n "" p) (
    is_digits-digits_loop fuel (n / 10) _
      (is_digits-single _ (is_digit-digit (n % 10) (omega arith))))

pub is_digits-to_decimal : (n : ℕ) → is_digits (to_decimal n) ≡ true
unfolding to_decimal
is_digits-to_decimal n = elim (Bool-cases (leb n 0)) [
  | inl none_left ↦ rw none_left (unfold is_digits in refl)
  | inr more ↦ rw more (is_digits-digits_loop_pos n n (omega arith) more)
]

-- A leading zero changes neither the test nor the number.
pub zero_padded :
    (s : String)
    → is_digits s ≡ true
    → (is_digits ("0" ++ s) ≡ true) × (big_int ("0" ++ s) ≡ big_int s)
unfolding big_int scan
zero_padded s h = rw (cons-append "0" "" s, nil-append s) (is_digits-cons "0" s refl h, refl)
