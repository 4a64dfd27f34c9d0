-- ===== src/Keys.antt =====
-- packages/keys/src/derive.ts: a key for one purpose, from a root key. HKDF is a parameter. A version
-- is a natural number; the code refuses all other numbers as it refuses 0.
use btravstack.Common.{
  ◌≡◌, refl, sym, ap, ◌∙◌, ℕ, Bool, true, not, ◌&&◌, ◌||◌, Option, some, [], ◌∷◌, ◌++◌, all, leb,
  is_nil, if◌then◌else◌, nat_eq, ◌==◌, Text, print_number, read_digits, read_digits-print_number,
  Result, ok, fail, and-true, if_passes-ok, arith,
}
use btravstack.HttpServer.Cookies.{cut}
use btravstack.HttpServer.Cookies.Laws.{lacks, cut-append}

pub record KeyPurpose : Type 0 where
  pub namespace : Text
  pub purpose : Text
  pub version : ℕ

-- `/^[A-Za-z0-9._-]+$/`.
unfoldable pub is_segment_unit : ℕ → Bool
is_segment_unit c =
    (leb 65 c && leb c 90)
    || (leb 97 c && leb c 122)
    || (leb 48 c && leb c 57)
    || c == 46
    || c == 95
    || c == 45

unfoldable pub is_segment : Text → Bool
is_segment cs = not (is_nil cs) && all is_segment_unit cs

unfoldable pub is_version : ℕ → Bool
is_version n = leb n 9007199254740991 && leb 1 n

unfoldable pub is_purpose : KeyPurpose → Bool
is_purpose given =
    (is_segment given.namespace && is_segment given.purpose) && is_version given.version

-- `<namespace>/<purpose>/v<version>`.
unfoldable pub info_of : KeyPurpose → Text
info_of given = given.namespace ++ (47 ∷ (given.purpose ++ (47 ∷ 118 ∷ print_number given.version)))

unfoldable pub derive_key :
    {Root Key : Type 0} → (Root → Text → Key) → Root → KeyPurpose → Result KeyPurpose Key
derive_key hkdf root given = if is_purpose given then ok (hkdf root (info_of given)) else fail given

unit-no_slash : (c : ℕ) → is_segment_unit c ≡ true → not (c == 47) ≡ true
unfolding is_segment_unit
unit-no_slash c h = ground (arith, h)

segment-lacks : (cs : Text) → all is_segment_unit cs ≡ true → lacks 47 cs ≡ true
segment-lacks [] h = refl
segment-lacks (c ∷ cs) h =
    let (here, later) = and-true (is_segment_unit c) (all is_segment_unit cs) h in
    rw (unit-no_slash c here, segment-lacks cs later) refl

is_segment-lacks : (cs : Text) → is_segment cs ≡ true → lacks 47 cs ≡ true
unfolding is_segment
is_segment-lacks cs h = segment-lacks cs (and-true (not (is_nil cs)) (all is_segment_unit cs) h).1

pair-inj :
    {a b c d : Text}
    → ◌≡◌ {A = Option (Text × Text)} (some (a, b)) (some (c, d))
    → (a ≡ c) × (b ≡ d)
pair-inj e = (cc, cc)

-- Two segments before a slash each are told apart by the text.
segments-inj :
    (a b c d : Text)
    → is_segment a ≡ true
    → is_segment c ≡ true
    → a ++ (47 ∷ b) ≡ c ++ (47 ∷ d)
    → (a ≡ c) × (b ≡ d)
segments-inj a b c d first second same = pair-inj (
    sym (cut-append 47 a b (is_segment-lacks a first))
    ∙ (ap (cut 47) same ∙ cut-append 47 c d (is_segment-lacks c second)))

-- What two purposes share of their texts.
pub record IsSamePurpose (first second : KeyPurpose) : Type 0 where
  pub namespace_eq : first.namespace ≡ second.namespace
  pub purpose_eq : first.purpose ≡ second.purpose
  pub version_eq : first.version ≡ second.version

tail-inj : {m n : Text} → ◌≡◌ {A = Text} (118 ∷ m) (118 ∷ n) → m ≡ n
tail-inj e = cc

info_of-inj :
    (first second : KeyPurpose)
    → is_purpose first ≡ true
    → is_purpose second ≡ true
    → info_of first ≡ info_of second
    → IsSamePurpose first second
unfolding info_of is_purpose
info_of-inj first second valid also same =
    let (segments, version) =
      and-true (is_segment first.namespace && is_segment first.purpose) (is_version first.version)
        valid in
    let (names, purposes) =
      and-true (is_segment first.namespace) (is_segment first.purpose) segments in
    let (segments_also, version_also) =
      and-true (is_segment second.namespace && is_segment second.purpose)
        (is_version second.version) also in
    let (names_also, purposes_also) =
      and-true (is_segment second.namespace) (is_segment second.purpose) segments_also in
    let (namespace_eq, rest) =
      segments-inj first.namespace (first.purpose ++ (47 ∷ 118 ∷ print_number first.version))
        second.namespace (second.purpose ++ (47 ∷ 118 ∷ print_number second.version)) names
        names_also same in
    let (purpose_eq, tails) =
      segments-inj first.purpose (118 ∷ print_number first.version) second.purpose
        (118 ∷ print_number second.version) purposes purposes_also rest in
    record {
      namespace_eq = namespace_eq;
      purpose_eq = purpose_eq;
      version_eq =
          sym (read_digits-print_number first.version)
          ∙ (ap (read_digits 0) (tail-inj tails) ∙ read_digits-print_number second.version);
    }

-- Two purposes for which one root derives one key agree in namespace, purpose and version, as long as
-- HKDF derives different keys for different texts.
pub derive_key-inj :
    {Root Key : Type 0} (hkdf : Root → Text → Key) (root : Root) (first second : KeyPurpose)
    (key : Key)
    → ((one other : Text) → hkdf root one ≡ hkdf root other → one ≡ other)
    → derive_key hkdf root first ≡ ok key
    → derive_key hkdf root second ≡ ok key
    → IsSamePurpose first second
unfolding derive_key
derive_key-inj hkdf root first second key apart derived also =
    let (valid, is_key) =
      if_passes-ok (is_purpose first) first (hkdf root (info_of first)) derived in
    let (valid_also, is_key_also) =
      if_passes-ok (is_purpose second) second (hkdf root (info_of second)) also in
    info_of-inj first second valid valid_also
      (apart (info_of first) (info_of second) (is_key ∙ sym is_key_also))
