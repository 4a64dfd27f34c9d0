-- ===== src/HttpClient/Ranges.antt =====
-- packages/http-client/src/address.ts and private-origins.ts: which addresses a request may reach. An
-- address is its number, of 32 bits or of 128; the platform's `isIP` and `BlockList` read a text so.
-- A private IPv6 address is one whose first group the code's expression takes.
pub mod Private
use btravstack.Common.{
  ◌≡◌, refl, sym, ap, subst, ◌∙◌, ℕ, suc, ◌+◌, ◌-◌, ◌*◌, ◌/◌, ◌%◌, ◌^◌, ◌≤◌, ◌<◌, Bool, true, false,
  not, ◌&&◌, ◌||◌, List, [], ◌∷◌, any, all, leb, ltb, nat_eq, ◌==◌, Bool-cases, inl, inr, ◌⊎◌,
  arith, if◌then◌else◌, eq_of_beq, and-true,
}

pub data Address : Type 0 where
  v4 v6 : ℕ → Address

-- `reserved`, its IPv4 networks: the first address and the length of the prefix.
abbrev pub reserved_v4 : List (ℕ × ℕ)
reserved_v4 =
    (0, 8)
    ∷ (167772160, 8)
    ∷ (1681915904, 10)
    ∷ (2130706432, 8)
    ∷ (2851995648, 16)
    ∷ (2886729728, 12)
    ∷ (3221225472, 24)
    ∷ (3221225984, 24)
    ∷ (3223307264, 24)
    ∷ (3224682752, 24)
    ∷ (3227017984, 24)
    ∷ (3232235520, 16)
    ∷ (3232706560, 24)
    ∷ (3323068416, 15)
    ∷ (3325256704, 24)
    ∷ (3405803776, 24)
    ∷ (3758096384, 4)
    ∷ (4026531840, 4)
    ∷ []

-- `reserved`, its IPv6 networks.
abbrev pub reserved_v6 : List (ℕ × ℕ)
reserved_v6 =
    (42540488161975842760550356425300246528, 23)
    ∷ (42540766411282592856903984951653826560, 32)
    ∷ (50676823637938837538472482859932188672, 48)
    ∷ (42545680458834377588178886921629466624, 16)
    ∷ (85065399433376081038215121361612832768, 20)
    ∷ []

-- `globalV6`.
abbrev pub global_v6 : List (ℕ × ℕ)
global_v6 =
    (42540528726795050063891204319802818560, 23)
    ∷ (42540569291614257367232052214305390592, 23)
    ∷ (42540609856433464670572900108807962624, 23)
    ∷ (42540650421252671973913748003310534656, 22)
    ∷ (42540731550891086580595443792315678720, 23)
    ∷ (42540772115710293883936291686818250752, 23)
    ∷ (42540853245348708490617987475823394816, 23)
    ∷ (42540893810167915793958835370325966848, 22)
    ∷ (42540974939806330400640531159331110912, 23)
    ∷ (42541015504625537703981379053833682944, 23)
    ∷ (42541056069444745007322226948336254976, 22)
    ∷ (42541137199083159614003922737341399040, 19)
    ∷ (42541786236190476467457489049382551552, 23)
    ∷ (42541826801009683770798336943885123584, 23)
    ∷ (42541867365828891074139184838387695616, 23)
    ∷ (42541907930648098377480032732890267648, 23)
    ∷ (42541948495467305680820880627392839680, 23)
    ∷ (42541989060286512984161728521895411712, 23)
    ∷ (42542029625105720287502576416397983744, 23)
    ∷ (42542110754744134894184272205403127808, 20)
    ∷ (42543084310405110174364621673464856576, 19)
    ∷ (42543733347512427027818187985506009088, 20)
    ∷ (42544057866066085454544971141526585344, 20)
    ∷ (42550872755692912415807417417958686720, 18)
    ∷ (47852207848256971424537054170092404736, 12)
    ∷ (47935284597993528666593542111359926272, 12)
    ∷ (50510663839826803170344668290653093888, 12)
    ∷ (50593740589563360412401156231920615424, 23)
    ∷ (50676817339299917654457644173188136960, 23)
    ∷ (50759894089036474896514132114455658496, 12)
    ∷ (53169119831396634916152282411213783040, 12)
    ∷ (55827575822966466661959896531774472192, 12)
    ∷ (55910652572703023904016384473041993728, 12)
    ∷ (58486031814536298407767510652335161344, 12)
    ∷ []

-- `BlockList.check`: the address has the network's first bits.
unfoldable pub in_network : ℕ → ℕ → ℕ × ℕ → Bool
in_network width n (base, prefix) = n / 2 ^ (width - prefix) == base / 2 ^ (width - prefix)

unfoldable pub in_any : ℕ → ℕ → List (ℕ × ℕ) → Bool
in_any width n networks = any (in_network width n) networks

unfoldable pub public_address : Address → Bool
public_address (v4 n) = not (in_any 32 n reserved_v4)
public_address (v6 n) = in_any 128 n global_v6 && not (in_any 128 n reserved_v6)

-- The first two octets, and the first group of an IPv6 address: `/^f[cd][\da-f]{2}:/i`.
unfoldable pub private_range : Address → ℕ → Bool
private_range (v6 n) prefix = leb 7 prefix && (leb 64512 (n / 2 ^ 112) && leb (n / 2 ^ 112) 65023)
private_range (v4 n) prefix =
    let first = n / 16777216 in
    let second = n / 65536 % 256 in
    (first == 10 && leb 8 prefix)
    || (first == 172 && leb 16 second && leb second 31 && leb 12 prefix)
    || (first == 192 && second == 168 && leb 16 prefix)

abbrev pub width_of : Address → ℕ
width_of (v4 n) = 32
width_of (v6 n) = 128

unfoldable pub allowed_address : Address → (Address → Bool) → Bool
allowed_address address approved =
    public_address address || (private_range address (width_of address) && approved address)

-- A CIDR that an approval may list: a private network, whose prefix fits its family.
unfoldable pub is_approvable : Address → ℕ → Bool
is_approvable base prefix = leb prefix (width_of base) && private_range base prefix

-- The block list of one CIDR. What the platform says of an IPv4-mapped address is left out: such an
-- address is neither public nor private, and so never allowed.
unfoldable pub in_cidr : Address → ℕ → Address → Bool
in_cidr (v4 base) prefix (v4 n) = in_network 32 n (base, prefix)
in_cidr (v6 base) prefix (v6 n) = in_network 128 n (base, prefix)
in_cidr (v4 base) prefix (v6 n) = false
in_cidr (v6 base) prefix (v4 n) = false
