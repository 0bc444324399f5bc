-- ===== src/Examples/Codec.antt =====
-- Encodings that invert: code points for UTF-8, tallies for base64 and for times, a marked text for
-- the JSON of a cursor.
use Prim.Native.String.{[], ◌∷◌}
use Prim.Native.Char.{IsLt, char}
use Prim.Native.Nat.{Ordering, compare}
use mathlib.Core.List.{List}
use webhook_relay_api.Prelude.{
  ℕ, zero, suc, String, Char, code, ◌≡◌, refl, ap, true, Option, none, some, eqb, truthy,
  if◌then◌else◌,
}
use webhook_relay_api.Datetime.{Datetime, naive, aware}
use webhook_relay_api.Platform.{Loaded, loaded, malformed}
use webhook_relay_api.Json.{Json, str, obj, end, field, null}
use webhook_relay_api.Routes.Cursor.{cursor_payload}

-- Code points.
abbrev Below : Ordering → Ordering → Type 0
Below Ordering.lt o = IsLt o
Below Ordering.eq o = ⊥
Below Ordering.gt o = ⊥

abbrev Scalar : Ordering → Ordering → Ordering → Type 0
Scalar Ordering.lt o q = Unit
Scalar Ordering.eq o q = Below o q
Scalar Ordering.gt o q = Below o q

abbrev lt? : (o : Ordering) → Option (IsLt o)
lt? Ordering.lt = some tt
lt? Ordering.eq = none
lt? Ordering.gt = none

abbrev below? : (o q : Ordering) → Option (Below o q)
below? Ordering.lt q = lt? q
below? Ordering.eq q = none
below? Ordering.gt q = none

abbrev scalar? : (o q r : Ordering) → Option (Scalar o q r)
scalar? Ordering.lt q r = some tt
scalar? Ordering.eq q r = below? q r
scalar? Ordering.gt q r = below? q r

lt?-eq : (o : Ordering) (h : IsLt o) → lt? o ≡ some h
lt?-eq Ordering.lt tt = refl
lt?-eq Ordering.eq h = absurd h
lt?-eq Ordering.gt h = absurd h

below?-eq : (o q : Ordering) (h : Below o q) → below? o q ≡ some h
below?-eq Ordering.lt q h = lt?-eq q h
below?-eq Ordering.eq q h = absurd h
below?-eq Ordering.gt q h = absurd h

scalar?-eq : (o q r : Ordering) (h : Scalar o q r) → scalar? o q r ≡ some h
scalar?-eq Ordering.lt q r tt = refl
scalar?-eq Ordering.eq q r h = below?-eq q r h
scalar?-eq Ordering.gt q r h = below?-eq q r h

abbrev char? : ℕ → Option Char
char? n = elim (scalar? (compare n 55296) (compare 57343 n) (compare n 1114112)) [
  | none ↦ none
  | some h ↦ some (char n h)
]

char?-code : (c : Char) → char? (code c) ≡ some c
char?-code (char n h) =
    ap (λ found. elim found [ none ↦ none | some k ↦ some (char n k) ])
      (scalar?-eq (compare n 55296) (compare 57343 n) (compare n 1114112) h)

abbrev pub encode_utf8 : String → List ℕ
encode_utf8 [] = List.[]
encode_utf8 (c ∷ s) = List.◌∷◌ (code c) (encode_utf8 s)

abbrev prefix : Option Char → Option String → Option String
prefix none s = none
prefix (some c) none = none
prefix (some c) (some s) = some (c ∷ s)

abbrev pub decode_utf8 : List ℕ → Option String
decode_utf8 List.[] = some []
decode_utf8 (List.◌∷◌ n raw) = prefix (char? n) (decode_utf8 raw)

pub decode_utf8-encode_utf8 : (text : String) → decode_utf8 (encode_utf8 text) ≡ some text
decode_utf8-encode_utf8 [] = refl
decode_utf8-encode_utf8 (c ∷ s) = rw (char?-code c) (rw (decode_utf8-encode_utf8 s) refl)

-- A number as a tally that ends with `b`, before a text; a sequence of numbers as their tallies.
unfoldable pub tally : ℕ → String → String
tally zero s = char 98 tt ∷ s
tally (suc n) s = char 97 tt ∷ tally n s

unfoldable pub b64encode : List ℕ → String
unfolding tally
b64encode List.[] = []
b64encode (List.◌∷◌ n raw) = tally n (b64encode raw)

abbrev bump : Option (List ℕ) → Option (List ℕ)
bump none = none
bump (some List.[]) = none
bump (some (List.◌∷◌ n raw)) = some (List.◌∷◌ (suc n) raw)

abbrev start : Option (List ℕ) → Option (List ℕ)
start none = none
start (some raw) = some (List.◌∷◌ zero raw)

unfoldable pub b64decode : String → Option (List ℕ)
b64decode [] = some List.[]
b64decode (c ∷ s) = let rest = b64decode s in if eqb (code c) 98 then start rest else bump rest

b64decode-tally :
    (n : ℕ) (s : String) (raw : List ℕ)
    → b64decode s ≡ some raw
    → b64decode (tally n s) ≡ some (List.◌∷◌ n raw)
unfolding b64decode tally
b64decode-tally zero s raw h = rw h refl
b64decode-tally (suc n) s raw h = rw (b64decode-tally n s raw h) refl

pub b64decode-b64encode : (raw : List ℕ) → b64decode (b64encode raw) ≡ some raw
unfolding b64encode b64decode
b64decode-b64encode List.[] = refl
b64decode-b64encode (List.◌∷◌ n raw) =
    b64decode-tally n (b64encode raw) raw (b64decode-b64encode raw)

-- Times.
abbrev pub isoformat : Datetime → String
isoformat (naive wall) = tally wall []
isoformat (aware i offset) = tally i []

unfoldable pub tallied : String → ℕ
tallied [] = 0
tallied (c ∷ s) = let rest = tallied s in if eqb (code c) 98 then 0 else suc rest

pub tallied-tally : (n : ℕ) → tallied (tally n []) ≡ n
unfolding tallied tally
tallied-tally zero = refl
tallied-tally (suc n) = ap suc (tallied-tally n)

-- The JSON of a cursor: `c` before each character of the time, `e` before the id. A text that
-- begins with a brace stands for the empty object, any other for `null`.
unfoldable pub pack : String → String → String
pack [] id = char 101 tt ∷ id
pack (c ∷ ts) id = char 99 tt ∷ c ∷ pack ts id

abbrev pub json_dumps : Json → String
json_dumps (obj (field k (str ts) (field j (str id) end))) = pack ts id
json_dumps _ = []

abbrev first : Char → Option (String × String) → Option (String × String)
first c none = none
first c (some (ts, id)) = some (c ∷ ts, id)

unfoldable pub unpack : String → Option (String × String)
unpack [] = none
unpack (d ∷ []) = if eqb (code d) 101 then some ([], []) else none
unpack (d ∷ c ∷ s) =
    let rest = unpack s in if eqb (code d) 101 then some ([], c ∷ s) else first c rest

unpack-pack : (ts id : String) → unpack (pack ts id) ≡ some (ts, id)
unfolding unpack pack
unpack-pack [] [] = refl
unpack-pack [] (c ∷ s) = refl
unpack-pack (c ∷ ts) id = rw (unpack-pack ts id) refl

abbrev cursor_of : Option (String × String) → Json
cursor_of none = null
cursor_of (some (ts, id)) = cursor_payload ts id

unfoldable pub json_loads : String → Loaded
unfolding unpack
json_loads [] = malformed
json_loads (c ∷ s) =
    let packed = cursor_of (unpack (c ∷ s)) in
    if eqb (code c) 123 then loaded (obj end) else loaded packed

pub json_loads-pack : (ts id : String) → json_loads (pack ts id) ≡ loaded (cursor_payload ts id)
unfolding json_loads pack
json_loads-pack [] id = ap (λ r. loaded (cursor_of r)) (unpack-pack [] id)
json_loads-pack (c ∷ ts) id = ap (λ r. loaded (cursor_of r)) (unpack-pack (c ∷ ts) id)

-- The text of a cursor is not empty.
pub truthy-cursor : (ts id : String) → truthy (b64encode (encode_utf8 (pack ts id))) ≡ true
unfolding b64encode tally pack
truthy-cursor [] id = refl
truthy-cursor (c ∷ ts) id = refl
