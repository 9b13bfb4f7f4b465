-- ===== src/Ipfs.antt =====
-- apps/server/src/services/ipfs.service.ts: storing and fetching deed documents. The uploads
-- directory is a collection of the state, by CID.
use Prim.Native.Char.{Char, code}
use Prim.Native.String.{slice, count}
use text.Mathlib.Text.{starts_with}
use thesis_project_land_chai.Prelude.{
  ℕ, String, Bool, true, false, ◌&&◌, ◌||◌, ◌==◌, ◌<>◌, string_eq, nat_eq, Option, none, some, List,
  [], ◌∷◌, find, leb, not, if◌then◌else◌, take, ◌≡◌, refl, arith, inl, inr,
}
use thesis_project_land_chai.Errors.{Result, ok, err, Result-cases}
use thesis_project_land_chai.Externals.{Externals}
use thesis_project_land_chai.Field.{sha256_hex}
use thesis_project_land_chai.DeedCrypto.{Buffer, equals, encrypt_deed, decrypt_deed}
use thesis_project_land_chai.Db.{Db, Upload}
use thesis_project_land_chai.Action.{Action, lift, modify, pure, ◌>>=◌, ◌>>◌}

-- `Express.Multer.File`
pub record DeedFile : Type 0 where
  pub buffer : Buffer
  pub originalname : String
  pub mimetype : String
  pub size : ℕ

pub record DeedRef : Type 0 where
  pub cid : String
  pub deed_hash : String

pub record DeedDocument : Type 0 where
  pub content : Buffer
  pub filename : String
  pub mimetype : String

-- [A-Za-z0-9]
is_alphanumeric : Char → Bool
is_alphanumeric c =
    leb b'A' (code c) && leb (code c) b'Z'
    || leb b'a' (code c) && leb (code c) b'z'
    || leb b'0' (code c) && leb (code c) b'9'

-- [A-Za-z0-9._-]
is_cid_char : Char → Bool
unfolding is_alphanumeric
is_cid_char c = is_alphanumeric c || code c == b'.' || code c == b'_' || code c == b'-'

all_cid_chars : String → Bool
unfolding is_cid_char
all_cid_chars String.[] = true
all_cid_chars (String.◌∷◌ c s) = is_cid_char c && all_cid_chars s

cid_pattern : String → Bool
unfolding all_cid_chars is_alphanumeric
cid_pattern String.[] = false
cid_pattern (String.◌∷◌ c s) =
    is_alphanumeric c && all_cid_chars s && leb 3 (count s) && leb (count s) 128

-- `s.includes("..")`
includes_dots : String → Bool
includes_dots String.[] = false
includes_dots (String.◌∷◌ c String.[]) = false
includes_dots (String.◌∷◌ c (String.◌∷◌ d s)) =
    code c == b'.' && code d == b'.' || includes_dots (String.◌∷◌ d s)

-- A CID is used as a file name.
unfoldable pub is_safe_cid : String → Bool
unfolding cid_pattern includes_dots
is_safe_cid cid = cid_pattern cid && not (includes_dots cid)

-- `value || fallback`
or_text : String → String → String
or_text value fallback = if value == "" then fallback else value

unfoldable pub put_upload : Upload → List Upload → List Upload
put_upload u [] = u ∷ []
put_upload u (v ∷ vs) = if v.cid == u.cid then u ∷ vs else v ∷ put_upload u vs

unfoldable pub find_upload : String → Db → Option Upload
find_upload cid db = find (λ (u : Upload). u.cid == cid) db.uploads

unfoldable pub persist_locally : String → Buffer → DeedFile → Action (Unit {0})
unfolding put_upload or_text
persist_locally cid ciphertext file = modify λ db. record db {
  uploads =
      put_upload
        (record {
          cid = cid;
          ciphertext = ciphertext;
          filename = or_text file.originalname "deed";
          mimetype = or_text file.mimetype "application/octet-stream";
          size = file.size;
        })
        db.uploads;
}

module _ (x : Externals) where
  unfoldable pub empty_deed_cid : String
  unfolding sha256_hex
  empty_deed_cid = "local-" <> slice (sha256_hex x []) 2 18

  abbrev is_set : Option String → Bool
  is_set none = false
  is_set (some s) = not (s == "")

  store_deed : DeedFile → String → Buffer → Action DeedRef
  unfolding persist_locally
  store_deed file deed_hash ciphertext =
      if is_set x.pinata_jwt
      then (do
        cid ← lift (x.pin_file ciphertext)
        persist_locally cid ciphertext file
        pure (record { cid = cid; deed_hash = deed_hash }))
      else (do
        let cid = "local-" <> slice deed_hash 2 18
        persist_locally cid ciphertext file
        pure (record { cid = cid; deed_hash = deed_hash }))

  -- The hash is that of the original document; what is stored is the ciphertext.
  unfoldable pub upload_deed_to_ipfs : Option DeedFile → Action DeedRef
  unfolding store_deed sha256_hex empty_deed_cid
  upload_deed_to_ipfs none = pure (record { cid = empty_deed_cid; deed_hash = sha256_hex x [] })
  upload_deed_to_ipfs (some file) = do
    ciphertext ← lift (encrypt_deed x file.buffer)
    store_deed file (sha256_hex x file.buffer) ciphertext

  store_deed-lands :
      (file : DeedFile) (deed_hash : String) (ciphertext : Buffer) (db : Db)
      → (store_deed file deed_hash ciphertext db).1.lands ≡ db.lands
  unfolding store_deed ◌>>=◌ persist_locally
  store_deed-lands file deed_hash ciphertext db = elim (Result-cases (x.pin_file ciphertext)) [
    | inl (cid, e) ↦ ground (arith, e)
    | inr (failure, e) ↦ ground (arith, e)
  ]

  -- Storing a deed writes no land.
  pub upload_deed_to_ipfs-lands :
      (file : Option DeedFile) (db : Db) → (upload_deed_to_ipfs file db).1.lands ≡ db.lands
  unfolding upload_deed_to_ipfs ◌>>=◌
  upload_deed_to_ipfs-lands none db = refl
  upload_deed_to_ipfs-lands (some file) db = elim (Result-cases (encrypt_deed x file.buffer)) [
    | inl (ciphertext, e) ↦ rw e (store_deed-lands file (sha256_hex x file.buffer) ciphertext db)
    | inr (failure, e) ↦ ground (arith, e)
  ]

  local_document : Upload → Result Buffer → Result (Option DeedDocument)
  local_document u (err e) = err e
  local_document u (ok content) =
      ok (some (record { content = content; filename = u.filename; mimetype = u.mimetype }))

  -- "%PDF-"
  pdf_magic : Buffer
  pdf_magic = b'%' ∷ b'P' ∷ b'D' ∷ b'F' ∷ b'-' ∷ []

  gateway_document : Result Buffer → Option DeedDocument
  unfolding pdf_magic
  gateway_document (err e) = none
  gateway_document (ok content) = some (record {
    content = content;
    filename = "deed";
    mimetype =
        if equals (take 5 content) pdf_magic then "application/pdf" else "application/octet-stream";
  })

  from_gateway : Result (Option Buffer) → Option DeedDocument
  unfolding gateway_document
  from_gateway (err e) = none
  from_gateway (ok none) = none
  from_gateway (ok (some stored)) = gateway_document (decrypt_deed x stored)

  -- Local store first, then the gateway, for a CID that is no local one.
  unfoldable pub get_deed_document : String → Db → Result (Option DeedDocument)
  unfolding local_document from_gateway
  get_deed_document cid db =
      if not (is_safe_cid cid) || cid == empty_deed_cid
      then ok none
      else elim (find_upload cid db) [
        | some u ↦ local_document u (decrypt_deed x u.ciphertext)
        | none ↦
            if not (starts_with cid "local-") && is_set x.gateway
            then ok (from_gateway (x.fetch_deed cid))
            else ok none
      ]
