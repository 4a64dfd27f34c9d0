-- ===== src/Storage.antt =====
-- packages/storage/src/memory.ts and options.ts: the object storage held in the process. Bytes and
-- names are lists of codes.
pub mod Objects
use btravstack.Common.{
  ℕ, ◌≡◌, String, Bool, true, false, not, ◌&&◌, ◌||◌, Option, none, some, List, [], ◌∷◌, map,
  Result, ok, fail, ◌>>=◌, ◌>>◌, guard, get, set, delete, has, all, elem, length, leb,
  if◌then◌else◌, string_eq, nat_eq, ◌==◌,
}

abbrev pub Bytes : Type 0
Bytes = List ℕ

pub record StoredObject : Type 0 where
  pub bytes : Bytes
  pub content_type : String
  pub metadata : List (Bytes × String)

pub record WriteOptions : Type 0 where
  pub content_type : String
  pub sha256 : Option Bytes
  pub metadata : List (Bytes × String)

pub data StorageError : Type 0 where
  invalid_sha256 invalid_metadata_key checksum_mismatch object_exists object_not_found
        presign_not_supported :
      String → StorageError

pub record ObjectHead : Type 0 where
  pub head_metadata : List (Bytes × String)
  pub size : ℕ
  pub head_content_type : String
  pub head_sha256 : Bytes

abbrev pub bytes_beq : Bytes → Bytes → Bool
bytes_beq [] [] = true
bytes_beq (a ∷ xs) (b ∷ ys) = (a == b) && bytes_beq xs ys
bytes_beq _ _ = false

abbrev between : ℕ → ℕ → ℕ → Bool
between low high c = leb low c && leb c high

-- `/^[a-f0-9]{64}$/`.
abbrev pub is_sha256 : Bytes → Bool
is_sha256 text = (length text == 64) && all (λ c. between 97 102 c || between 48 57 c) text

-- The characters of `/^[!#$%&'*+\-.^_`|~0-9a-z]+$/`.
abbrev is_token_char : ℕ → Bool
is_token_char c =
    between 48 57 c
    || (between 94 122 c
        || elem c (33 ∷ 35 ∷ 36 ∷ 37 ∷ 38 ∷ 39 ∷ 42 ∷ 43 ∷ 45 ∷ 46 ∷ 124 ∷ 126 ∷ []))

abbrev pub is_token : Bytes → Bool
is_token [] = false
is_token (c ∷ name) = all is_token_char (c ∷ name)

abbrev sha256_is_valid : Option Bytes → Bool
sha256_is_valid none = true
sha256_is_valid (some text) = is_sha256 text

unfoldable pub validate_options :
    String → Option Bytes → List (Bytes × String) → Result StorageError (Unit {0})
validate_options key sha256 metadata = do
  guard (sha256_is_valid sha256) (invalid_sha256 key)
  guard (all {A = Bytes × String} (λ x. is_token x.0) metadata) (invalid_metadata_key key)
  ok tt

abbrev pub Objects : Type 0
Objects = List (String × StoredObject)

-- `digest` is the SHA-256 of the platform, in lower-case hex.
module _ (digest : Bytes → Bytes) where
  abbrev pub checksum_matches : Bytes → Option Bytes → Bool
  checksum_matches bytes none = true
  checksum_matches bytes (some expected) = bytes_beq (digest bytes) expected

  unfoldable pub verify : String → Bytes → WriteOptions → Result StorageError (Unit {0})
  verify key bytes options = do
    validate_options key options.sha256 options.metadata
    guard (checksum_matches bytes options.sha256) (checksum_mismatch key)
    ok tt

  abbrev pub object_of : Bytes → WriteOptions → StoredObject
  object_of bytes options = record {
    bytes = bytes;
    content_type = options.content_type;
    metadata = options.metadata;
  }

  abbrev pub store : String → Bytes → WriteOptions → Objects → Objects
  store key bytes options objects = set key (object_of bytes options) objects

  pub put : String → Bytes → WriteOptions → Objects → Result StorageError Objects
  put key bytes options objects = do verify key bytes options; ok (store key bytes options objects)

  pub put_if_absent : String → Bytes → WriteOptions → Objects → Result StorageError Objects
  put_if_absent key bytes options objects = do
    verify key bytes options
    guard (not (has key objects)) (object_exists key)
    ok (store key bytes options objects)

  pub copy : (from to : String) → WriteOptions → Objects → Result StorageError Objects
  copy from to options objects = do
    validate_options to none options.metadata
    elim (get from objects) [
      | none ↦ fail (object_not_found from)
      | some object ↦ ok (set to (object_of object.bytes options) objects)
    ]

  pub head : String → Objects → Result StorageError ObjectHead
  head key objects = elim (get key objects) [
    | none ↦ fail (object_not_found key)
    | some object ↦ ok (record {
      head_metadata = object.metadata;
      size = length object.bytes;
      head_content_type = object.content_type;
      head_sha256 = digest object.bytes;
    })
  ]

  pub read : String → Objects → Result StorageError (String × Bytes)
  read key objects = elim (get key objects) [
    | none ↦ fail (object_not_found key)
    | some object ↦ ok (object.content_type, object.bytes)
  ]

  pub remove : String → Objects → Objects
  remove key objects = delete key objects
