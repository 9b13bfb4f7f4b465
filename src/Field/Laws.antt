-- ===== src/Field/Laws.antt =====
-- Field elements: every text that the hashing helpers print is accepted by the guard on inputs,
-- and distinct texts may stand for one element.
use Prim.Native.String.{count}
use text.Mathlib.TextLemmas.{length-append}
use thesis_project_land_chai.Prelude.{ℕ, ◌%◌, ◌<◌, ◌<>◌, String, true, ◌≡◌, ◌≢◌, ap, arith}
use thesis_project_land_chai.Prelude.Text.{to_decimal, is_digits, big_int}
use thesis_project_land_chai.Prelude.Text.Decimal.{
  big_int-to_decimal, is_digits-to_decimal, zero_padded,
}
use thesis_project_land_chai.Errors.{ok}
use thesis_project_land_chai.Json.{str}
use thesis_project_land_chai.Externals.{Externals}
use thesis_project_land_chai.Field.{
  field_prime, is_field_text, is_field_element, to_field, buyer_bound_challenge,
}

is_field_text-to_decimal : (n : ℕ) → n < field_prime → is_field_text (to_decimal n) ≡ true
unfolding is_field_text
is_field_text-to_decimal n h = rw (is_digits-to_decimal n, big_int-to_decimal n) (ground arith)

reduced_is_field : (n : ℕ) → is_field_text (to_decimal (n % field_prime)) ≡ true
reduced_is_field n = is_field_text-to_decimal (n % field_prime) (unfold field_prime in omega arith)

module _ (x : Externals) where
  -- The field encoding of any text is a field element in the sense of the input guard.
  pub to_field-is_field_element :
      (input : String) → is_field_element (str (to_field x input)) ≡ true
  unfolding is_field_element to_field
  to_field-is_field_element input = reduced_is_field (x.keccak_id input)

  -- The nonce that is bound to a buyer, where it is made, is a field element in the sense of the
  -- input guard.
  pub buyer_bound_challenge-is_field_element :
      (wallet salt : String) {nonce : String}
      → buyer_bound_challenge x wallet salt ≡ ok nonce
      → is_field_element (str nonce) ≡ true
  unfolding is_field_element buyer_bound_challenge
  buyer_bound_challenge-is_field_element wallet salt h =
      ground (arith, reduced_is_field (x.packed_keccak (x.get_address wallet) salt))

-- A text that the input guard accepts is accepted again with a zero in front of it: another text
-- that denotes the same number.
pub zero_padded_is_field_text :
    (s : String)
    → is_field_text s ≡ true
    → (is_field_text ("0" <> s) ≡ true) × (big_int ("0" <> s) ≡ big_int s) × (("0" <> s) ≢ s)
unfolding is_field_text
zero_padded_is_field_text s h =
    let digits : is_digits s ≡ true = ground arith in
    let (accepted, same) = zero_padded s digits in
    (rw (accepted, same) (ground arith), same, λ e. omega (arith, length-append "0" s, ap count e))
