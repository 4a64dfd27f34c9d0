-- ===== src/Tests/Listings.antt =====
-- packages/contract: a listing of three rows, and cursors under a stand-in for the platform's
-- percent-encoding, which writes a code point in unary.
use btravstack.Common.{
  ℕ, zero, suc, ◌+◌, ◌≡◌, ◌≢◌, ◌≤◌, ◌<◌, refl, ap, ◌∙◌, ◌⊎◌, true, false, Option, none, some, List,
  [], ◌∷◌, map, reverse, length, take, ok, fail, elem, nat_eq, ltb, is_some, if◌then◌else◌, ◌==◌,
  arith,
}
use btravstack.Contract.Pagination.{Text, PageRequest, Sort, asc, desc, Keyset, fold_page}
use btravstack.Contract.Pagination.Cursors.{
  Uri, mint, sorted_keyset, sorted_over, sort_mismatch, sorted_keyset-mint,
}
use btravstack.Contract.Pagination.Windows.{fold_page-IsWindow}
use btravstack.Contract.Pagination.Walk.{walk, walk-eq}

abbrev row_cursor : ℕ → Text
row_cursor row = row ∷ []

abbrev rows : List ℕ
rows = 3 ∷ 5 ∷ 9 ∷ []

walk-eq_example : walk row_cursor suc rows 2 4 none ≡ some (map suc rows)
walk-eq_example = walk-eq row_cursor suc rows 1 ((refl, (refl, tt)), ((refl, tt), (tt, tt)))

abbrev backward_keys : Keyset Text
backward_keys = record { limit = 2; backward = true; cursor = some (9 ∷ []); encode = λ c. c }

fold_page-IsWindow_example :
    ((fold_page backward_keys rows row_cursor suc).items ≡ map suc (reverse (take 2 rows)))
    × (length (fold_page backward_keys rows row_cursor suc).items ≤ 2)
    × (0 < 2
        → is_some (fold_page backward_keys rows row_cursor suc).previous_cursor
          ≡ ltb 2 (length rows))
fold_page-IsWindow_example = fold_page-IsWindow backward_keys rows row_cursor suc

abbrev unary : ℕ → Text → Text
unary zero rest = 48 ∷ rest
unary (suc n) rest = 49 ∷ unary n rest

abbrev encode : Text → Text
encode [] = []
encode (c ∷ text) = unary c (encode text)

abbrev push : ℕ → Option Text → Option Text
push c none = none
push c (some text) = some (c ∷ text)

abbrev decode_from : ℕ → Text → Option Text
decode_from n [] = some []
decode_from n (x ∷ text) =
    let more = decode_from (suc n) text in
    let rest = decode_from 0 text in if x == 49 then more else push n rest

decode_from-unary :
    (n c : ℕ) (rest : Text) → decode_from n (unary c rest) ≡ push (n + c) (decode_from 0 rest)
decode_from-unary n zero rest = ap (λ m. push m (decode_from 0 rest)) (omega arith)
decode_from-unary n (suc c) rest =
    decode_from-unary (suc n) c rest ∙ ap (λ m. push m (decode_from 0 rest)) (omega arith)

decode_from-encode : (text : Text) → decode_from 0 (encode text) ≡ some text
decode_from-encode [] = refl
decode_from-encode (c ∷ text) =
    decode_from-unary 0 c (encode text)
    ∙ ap (push (0 + c)) (decode_from-encode text)
    ∙ ap (λ m. some (m ∷ text)) (omega arith)

unary-plain :
    (c : ℕ) (rest : Text)
    → (elem 124 rest ≡ false) × (elem 58 rest ≡ false)
    → (elem 124 (unary c rest) ≡ false) × (elem 58 (unary c rest) ≡ false)
unary-plain zero rest h = h
unary-plain (suc c) rest h = unary-plain c rest h

encode_plain : (text : Text) → (elem 124 (encode text) ≡ false) × (elem 58 (encode text) ≡ false)
encode_plain [] = (refl, refl)
encode_plain (c ∷ text) = unary-plain c (encode text) (encode_plain text)

abbrev uri : Uri
uri = record {
  encode = encode;
  decode = decode_from 0;
  decode-encode = decode_from-encode;
  encode-plain = encode_plain;
}

abbrev by_name : Sort
by_name = record { field = 2 ∷ []; direction = asc }

abbrev by_name_down : Sort
by_name_down = record { field = 2 ∷ []; direction = desc }

abbrev replayed : PageRequest
replayed = record {
  limit = 2;
  after = some (mint uri by_name (4 ∷ [], 1 ∷ []));
  before = none;
  sort = some by_name_down;
}

sorted_keyset-mint_example :
    ((by_name ≡ by_name_down)
      × (sorted_keyset uri replayed by_name_down
          ≡ ok (sorted_over uri replayed by_name_down (some (4 ∷ [], 1 ∷ [])))))
    ⊎ ((by_name ≢ by_name_down)
        × (sorted_keyset uri replayed by_name_down
            ≡ fail (record {
              refused_cursor = mint uri by_name (4 ∷ [], 1 ∷ []);
              reason = sort_mismatch;
            })))
sorted_keyset-mint_example =
    sorted_keyset-mint uri replayed by_name by_name_down (4 ∷ []) (1 ∷ []) refl
