-- ===== src/Storage/Objects.antt =====
-- What a write to the in-process storage is read back as.
use btravstack.Common.{
  Bool, false, guard, ◌>>◌, >>=-eq-ok, ok-inj, Result, subst, beq_of_ne, List, [], ◌∷◌, true,
  Option, none, some, all, length, ◌==◌, eq_of_beq, beq_refl, and-true, nat_eq, sym, ◌≡◌, ◌≢◌, refl,
  String, ok, fail, set, has, get-set, get-delete, string_eq, if◌then◌else◌, arith, Bool-cases, inl,
  inr, ◌⊎◌,
}
use btravstack.Storage.{
  invalid_sha256, invalid_metadata_key, checksum_mismatch, bytes_beq, is_token, is_sha256,
  validate_options, head, Bytes, WriteOptions, StorageError, object_exists, object_not_found,
  Objects, verify, put, put_if_absent, read, remove, object_of,
}

bytes_beq-eq : (first second : Bytes) → bytes_beq first second ≡ true → first ≡ second
bytes_beq-eq [] [] e = refl
bytes_beq-eq [] (b ∷ second) e = absurd (cc)
bytes_beq-eq (a ∷ first) [] e = absurd (cc)
bytes_beq-eq (a ∷ first) (b ∷ second) e =
    let (here, later) = and-true (a == b) (bytes_beq first second) e in
    cc (eq_of_beq a b here, bytes_beq-eq first second later)

bytes_beq_refl : (bytes : Bytes) → bytes_beq bytes bytes ≡ true
bytes_beq_refl [] = refl
bytes_beq_refl (b ∷ bytes) = rw (beq_refl b, bytes_beq_refl bytes) refl

-- Where a chain of checks passes, its last one does.
last_passed :
    (first second third : Bool) (x y z : StorageError)
    → ◌≡◌ {A = Result StorageError (Unit {0})}
        ((guard first x >> (guard second y >> ok tt)) >> (guard third z >> ok tt))
        (ok tt)
    → third ≡ true
last_passed true true true x y z e = refl
last_passed false second third x y z e = absurd (cc)
last_passed true false third x y z e = absurd (cc)
last_passed true true false x y z e = absurd (cc)

module _ (digest : Bytes → Bytes) where
  verify-digest :
      (key : String) (bytes : Bytes) (content_type : String) (sha256 : Option Bytes)
      (metadata : List (Bytes × String)) (sum : Bytes)
      → verify digest key bytes
          (record { content_type = content_type; sha256 = sha256; metadata = metadata })
        ≡ ok tt
      → sha256 ≡ some sum
      → sum ≡ digest bytes
  unfolding verify validate_options
  verify-digest key bytes content_type none metadata sum e named = absurd (cc)
  verify-digest key bytes content_type (some expected) metadata sum e named = cc (
    bytes_beq-eq (digest bytes) expected (
        last_passed (is_sha256 expected) (all {A = Bytes × String} (λ x. is_token x.0) metadata)
          (bytes_beq (digest bytes) expected) (invalid_sha256 key) (invalid_metadata_key key)
          (checksum_mismatch key) e),
    named,
  )

  -- What a put leaves behind: the checksum that came with it is that of the bytes; the object is read
  -- back, and its head tells its size and digest; other objects are as they were; and once it is
  -- removed it is not found.
  pub record IsPut (key : String) (bytes : Bytes) (options : WriteOptions) (objects after : Objects)
      : Type 0 where
    pub checked : (sum : Bytes) → options.sha256 ≡ some sum → sum ≡ digest bytes
    pub reads : read digest key after ≡ ok (options.content_type, bytes)
    pub heads :
        head digest key after
        ≡ ok (record {
          head_metadata = options.metadata;
          size = length bytes;
          head_content_type = options.content_type;
          head_sha256 = digest bytes;
        })
    pub keeps :
        (other : String)
        → other ≢ key
        → (read digest other after ≡ read digest other objects)
          × (head digest other after ≡ head digest other objects)
    pub removes : read digest key (remove digest key after) ≡ fail (object_not_found key)

  verify-fine :
      (key : String) (bytes : Bytes) (content_type : String) (sha256 : Option Bytes)
      (metadata : List (Bytes × String))
      → all {A = Bytes × String} (λ x. is_token x.0) metadata ≡ true
      → (sha256 ≡ none) ⊎ ((sha256 ≡ some (digest bytes)) × (is_sha256 (digest bytes) ≡ true))
      → verify digest key bytes
          (record { content_type = content_type; sha256 = sha256; metadata = metadata })
        ≡ ok tt
  unfolding verify validate_options
  verify-fine key bytes content_type sha256 metadata tokens (inl absent) = rw (absent, tokens) refl
  verify-fine key bytes content_type sha256 metadata tokens (inr (named, hex)) =
      rw (named, hex, tokens, bytes_beq_refl (digest bytes)) refl

  put-fine :
      (key : String) (bytes : Bytes) (options : WriteOptions) (objects : Objects)
      → verify digest key bytes options ≡ ok tt
      → put digest key bytes options objects ≡ ok (set key (object_of digest bytes options) objects)
  unfolding put
  put-fine key bytes options objects fine = rw fine refl

  stored-IsPut :
      (key : String) (bytes : Bytes) (options : WriteOptions) (objects : Objects)
      → verify digest key bytes options ≡ ok tt
      → IsPut key bytes options objects (set key (object_of digest bytes options) objects)
  unfolding read head remove
  stored-IsPut key bytes options objects fine =
      let object = object_of digest bytes options in
      let stored = get-set key key object objects in
      let here = beq_refl key in
      record {
        checked = λ sum named.
            verify-digest key bytes options.content_type options.sha256 options.metadata sum fine
              named;
        reads = ground (arith, stored, here);
        heads = ground (arith, stored, here);
        keeps = λ other differs.
            let apart = beq_of_ne key other (λ e. differs (sym e)) in
            (
              ground (arith, get-set key other object objects, apart),
              ground (arith, get-set key other object objects, apart),
            );
        removes = ground (arith, get-delete key key (set key object objects), here);
      }

  put-IsPut :
      (key : String) (bytes : Bytes) (options : WriteOptions) (objects after : Objects)
      → put digest key bytes options objects ≡ ok after
      → IsPut key bytes options objects after
  unfolding put
  put-IsPut key bytes options objects after e =
      let (u, fine, same) =
        >>=-eq-ok (verify digest key bytes options)
          (λ _. ok (set key (object_of digest bytes options) objects)) e in
      subst (IsPut key bytes options objects) (ok-inj same)
        (stored-IsPut key bytes options objects fine)

  -- A put that succeeds was given the checksum of its bytes or none, and its object is read back, with
  -- its size and digest in its head, until it is removed, while other objects stay as they were. It
  -- does succeed where the names of the metadata are tokens, and there is no checksum or it is the one
  -- of the bytes in lower-case hex.
  pub put-read :
      (key : String) (bytes : Bytes) (options : WriteOptions) (objects : Objects)
      → ((after : Objects)
          → put digest key bytes options objects ≡ ok after
          → IsPut key bytes options objects after)
        × (all {A = Bytes × String} (λ x. is_token x.0) options.metadata ≡ true
            → (options.sha256 ≡ none)
              ⊎ ((options.sha256 ≡ some (digest bytes)) × (is_sha256 (digest bytes) ≡ true))
            → (after : Objects) × (put digest key bytes options objects ≡ ok after))
  put-read key bytes options objects = (
    λ after e. put-IsPut key bytes options objects after e,
    λ tokens summed. (
      set key (object_of digest bytes options) objects,
      put-fine key bytes options objects (
          verify-fine key bytes options.content_type options.sha256 options.metadata tokens summed),
    ),
  )

-- A put of an absent key does what a put does, and one of a key that is there stores nothing.
pub put_if_absent-eq :
    (digest : Bytes → Bytes) (key : String) (bytes : Bytes) (options : WriteOptions)
    (objects : Objects)
    → verify digest key bytes options ≡ ok tt
    → put_if_absent digest key bytes options objects
      ≡ (if has key objects then fail (object_exists key) else put digest key bytes options objects)
unfolding put put_if_absent
put_if_absent-eq digest key bytes options objects fine = elim (Bool-cases (has key objects)) [
  | inl there ↦ rw (fine, there, put_if_absent) refl
  | inr absent ↦ rw (fine, absent, put_if_absent, put) refl
]
