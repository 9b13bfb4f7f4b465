-- ===== src/Http/Body.antt =====
-- Values taken from a request's body, `String(value)` and `Number(value)`, and the validators of
-- apps/server/src/validators.
use Prim.Native.Char.{code}
use Prim.Native.String as Text
use thesis_project_land_chai.Prelude.{
  ℕ, ◌==◌, ◌<>◌, ◌&&◌, string_eq, String, Bool, true, false, Option, none, some, List, [], ◌∷◌,
  ◌++◌, ltb, leb, not, filter, if◌then◌else◌,
}
use thesis_project_land_chai.Prelude.Text.{to_decimal, is_digits, big_int, trim}
use thesis_project_land_chai.Errors.{plain, Result, ok, err}
use thesis_project_land_chai.Json.{
  Json, null, bool, num, str, arr, obj, Items, nil, cons, get_field, truthy,
}
use thesis_project_land_chai.Db.{
  ProofType, commitment_opening, registry_membership, challenge_response, area_range,
}
use thesis_project_land_chai.Land.{AreaNumber, not_finite, negative, nonneg}

-- In an array, `null` is the empty text.
abbrev item_text : Json → String → String
item_text null s = ""
item_text v s = s

unfoldable mutual
  -- `String(value)`
  pub js_string : Json → String
  js_string null = "null"
  js_string (bool true) = "true"
  js_string (bool false) = "false"
  js_string (num n) = to_decimal n
  js_string (str s) = s
  js_string (arr vs) = join_items vs
  js_string (obj fs) = "[object Object]"

  join_items : Items → String
  join_items nil = ""
  join_items (cons v nil) = item_text v (js_string v)
  join_items (cons v (cons w ws)) = item_text v (js_string v) <> "," <> join_items (cons w ws)

-- `String(req.body.key)`
unfoldable pub text_field : String → Json → String
unfolding js_string
text_field key body = elim (get_field key body) [ none ↦ "undefined" | some v ↦ js_string v ]

-- `req.body.key ? String(req.body.key) : undefined`
unfoldable pub optional_text : String → Json → Option String
unfolding js_string
optional_text key body = elim (get_field key body) [
  | none ↦ none
  | some v ↦ if truthy (some v) then some (js_string v) else none
]

-- `req.body.key` as it is; what it is compared with or parsed by treats `undefined` like `null`.
unfoldable pub raw_field : String → Json → Json
raw_field key body = elim (get_field key body) [ none ↦ null | some v ↦ v ]

-- The whole part and the fraction of a decimal numeral.
fraction : String → String → AreaNumber
fraction whole rest =
    if is_digits rest then nonneg (big_int whole) (not (leb (big_int rest) 0)) else not_finite

decimal_from : String → String → AreaNumber
unfolding fraction
decimal_from whole Text.[] = if is_digits whole then nonneg (big_int whole) false else not_finite
decimal_from whole (Text.◌∷◌ c s) =
    if leb b'.' (code c) && leb (code c) b'.'
    then (if is_digits whole then fraction whole s else not_finite)
    else decimal_from (whole <> Text.◌∷◌ c Text.[]) s

negated : AreaNumber → AreaNumber
negated (nonneg whole fraction_) = if leb whole 0 && not fraction_ then nonneg 0 false else negative
negated n = n

-- `Number(text)` of decimal numerals; hexadecimal ones, exponents and a point without digits on
-- both sides are read as no number.
number_of : String → AreaNumber
unfolding decimal_from negated
number_of Text.[] = nonneg 0 false
number_of (Text.◌∷◌ c s) =
    if leb b'-' (code c) && leb (code c) b'-'
    then negated (decimal_from "" s)
    else decimal_from "" (Text.◌∷◌ c s)

-- `Number(req.body.key)`
unfoldable pub number_field : String → Json → AreaNumber
unfolding number_of trim
number_field key body = elim (get_field key body) [
  | none ↦ not_finite
  | some v ↦ elim v [
    | null ↦ nonneg 0 false
    | bool b ↦ nonneg (if b then 1 else 0) false
    | num n ↦ nonneg n false
    | str s ↦ number_of (trim s)
    | arr vs ↦ number_of (trim (js_string (arr vs)))
    | obj fs ↦ not_finite
  ]
]

-- The cast of a text to an ObjectId, which is a number here, written in decimal.
unfoldable pub object_id : String → Result ℕ
object_id s =
    if is_digits s then ok (big_int s) else err (plain ("Cast to ObjectId failed for value " <> s))

unfoldable pub optional_id : Option String → Result (Option ℕ)
unfolding object_id
optional_id none = ok none
optional_id (some s) = elim (object_id s) [ err e ↦ err e | ok id ↦ ok (some id) ]

-- PROOF_TYPES
unfoldable pub proof_type_of : Json → Option ProofType
proof_type_of (str s) =
    if s == "COMMITMENT_OPENING"
    then some commitment_opening
    else if s == "REGISTRY_MEMBERSHIP"
    then some registry_membership
    else if s == "CHALLENGE_RESPONSE"
    then some challenge_response
    else if s == "AREA_RANGE"
    then some area_range
    else none
proof_type_of v = none

-- `keys.filter((key) => !body[key])`
unfoldable pub missing_keys : List String → Json → List String
missing_keys keys body = filter (λ key. not (truthy (get_field key body))) keys

-- A text that is not empty, and fails a test.
text_error : (String → Bool) → Option Json → String → List String
text_error fails (some (str s)) message = if not (s == "") && fails s then message ∷ [] else []
text_error fails v message = []

unfoldable pub validate_register : (String → Bool) → Json → List String
unfolding missing_keys text_error
validate_register is_address body =
    missing_keys ("name" ∷ "email" ∷ "password" ∷ "walletAddress" ∷ "nid" ∷ []) body
    ++ text_error (λ s. ltb (Text.count s) 8) (get_field "password" body)
        "password must be at least 8 characters"
    ++ text_error (λ s. not (is_address s)) (get_field "walletAddress" body)
        "walletAddress must be a valid 0x-prefixed Ethereum address"

abbrev pub validate_login : Json → List String
validate_login body = missing_keys ("email" ∷ "password" ∷ []) body

abbrev pub validate_challenge_creation : Json → List String
validate_challenge_creation body = missing_keys ("landId" ∷ []) body

abbrev pub validate_challenge_response : Json → List String
validate_challenge_response body = missing_keys ("proof" ∷ "publicSignals" ∷ []) body

abbrev pub validate_challenge_message : Json → List String
validate_challenge_message body = missing_keys ("body" ∷ []) body

abbrev pub validate_land_request : Json → List String
validate_land_request body =
    missing_keys
      ("landId" ∷ "plotNumber" ∷ "location" ∷ "areaSqm" ∷ "landCommitment" ∷ "areaCommitment" ∷ [])
      body

abbrev pub validate_sale_listing : Json → List String
validate_sale_listing body = missing_keys ("salePrice" ∷ []) body

is_challenge_response : Option ProofType → Bool
is_challenge_response (some challenge_response) = true
is_challenge_response t = false

named_type : Option ProofType → Bool
named_type none = false
named_type (some t) = true

unfoldable pub validate_proof_submission : Json → List String
unfolding missing_keys proof_type_of raw_field is_challenge_response named_type
validate_proof_submission body =
    let proof_type = proof_type_of (raw_field "proofType" body) in
    missing_keys ("landId" ∷ "proofType" ∷ "proof" ∷ "publicSignals" ∷ []) body
    ++ (if truthy (get_field "proofType" body) && not (named_type proof_type)
        then "proofType must be one of: COMMITMENT_OPENING, REGISTRY_MEMBERSHIP, CHALLENGE_RESPONSE, AREA_RANGE"
          ∷ []
        else [])
    ++ (if is_challenge_response proof_type && not (truthy (get_field "challengeId" body))
        then "challengeId" ∷ []
        else [])

abbrev pub validate_proof_verification : Json → List String
validate_proof_verification body = missing_keys ("proofId" ∷ []) body

abbrev pub validate_buy : Json → List String
validate_buy body = missing_keys ("landId" ∷ "newLandCommitment" ∷ "newAreaCommitment" ∷ []) body
