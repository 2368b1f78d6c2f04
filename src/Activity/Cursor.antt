-- ===== src/Activity/Cursor.antt =====
-- apps/api/app/activity_pagination.py: the cursor of an audit event, which is its UUID's 16 bytes in
-- base64. A UUID is a number below 2 ^ 128, a text is the list of its code points, and what the code
-- uses of Python's `base64` and `UUID.bytes` is written out.
pub mod RoundTrip
use axit_project.Prelude.{
  ℕ, zero, suc, ◌+◌, ◌-◌, ◌*◌, ◌/◌, ◌%◌, ◌≤◌, ◌≡◌, Bool, true, false, ◌&&◌, List, [], ◌∷◌, ◌++◌,
  Option, none, some, ltb, leb, nat_eqb, length, if◌then◌else◌, Result, ok, err, ◌>>=◌,
}
use axit_project.Errors.{Error, invalid_cursor_error}

abbrev pub Chars : Type 0
Chars = List ℕ

-- `UUID.bytes`: the bytes of a number, the highest first, before those that are given
unfoldable pub to_bytes : ℕ → ℕ → List ℕ → List ℕ
to_bytes zero n later = later
to_bytes (suc count) n later = to_bytes count (n / 256) (n % 256 ∷ later)

-- `UUID(bytes=…)`
unfoldable pub from_bytes : ℕ → List ℕ → ℕ
from_bytes high [] = high
from_bytes high (b ∷ bs) = from_bytes (high * 256 + b) bs

-- The alphabet with `-` and `_`.
unfoldable pub sextet_char : ℕ → ℕ
sextet_char n =
    if ltb n 26
    then 65 + n
    else if ltb n 52
    then 71 + n
    else if ltb n 62
    then n - 4
    else if nat_eqb n 62
    then 45
    else 95

-- `urlsafe_b64encode`
unfoldable pub urlsafe_b64encode : List ℕ → Chars
unfolding sextet_char
urlsafe_b64encode [] = []
urlsafe_b64encode (a ∷ []) = sextet_char (a / 4) ∷ sextet_char (a % 4 * 16) ∷ 61 ∷ 61 ∷ []
urlsafe_b64encode (a ∷ b ∷ []) =
    sextet_char (a / 4) ∷ sextet_char (a % 4 * 16 + b / 16) ∷ sextet_char (b % 16 * 4) ∷ 61 ∷ []
urlsafe_b64encode (a ∷ b ∷ c ∷ rest) =
    sextet_char (a / 4)
    ∷ sextet_char (a % 4 * 16 + b / 16)
    ∷ sextet_char (b % 16 * 4 + c / 64)
    ∷ sextet_char (c % 64)
    ∷ urlsafe_b64encode rest

-- One character before a text without trailing `=`.
abbrev pub keep_char : ℕ → Chars → Chars
keep_char c [] = if nat_eqb c 61 then [] else c ∷ []
keep_char c (d ∷ rest) = c ∷ d ∷ rest

-- `rstrip(b"=")`
unfoldable pub strip_padding : Chars → Chars
strip_padding [] = []
strip_padding (c ∷ rest) = keep_char c (strip_padding rest)

-- `cursor + "=" * (-len(cursor) % 4)`
unfoldable pub pad_to_four : Chars → Chars
pad_to_four cursor =
    let missing = length cursor % 4 in
    if nat_eqb missing 0
    then cursor
    else if nat_eqb missing 1
    then cursor ++ 61 ∷ 61 ∷ 61 ∷ []
    else if nat_eqb missing 2
    then cursor ++ 61 ∷ 61 ∷ []
    else cursor ++ 61 ∷ []

-- With `altchars=b"-_"`, `-` and `_` stand for `+` and `/`, which are still read.
unfoldable pub char_sextet : ℕ → Option ℕ
char_sextet c =
    if leb 65 c && leb c 90
    then some (c - 65)
    else if leb 97 c && leb c 122
    then some (c - 71)
    else if leb 48 c && leb c 57
    then some (c + 4)
    else if nat_eqb c 45
    then some 62
    else if nat_eqb c 43
    then some 62
    else if nat_eqb c 95
    then some 63
    else if nat_eqb c 47
    then some 63
    else none

abbrev pub sextet : ℕ → Result Error ℕ
sextet c = elim (char_sextet c) [ none ↦ err invalid_cursor_error | some n ↦ ok n ]

-- The last four characters, which may be padded, or four before others.
unfoldable pub decode_quad : ℕ → ℕ → ℕ → ℕ → Bool → Result Error (List ℕ)
unfolding char_sextet
decode_quad w x y z last = do
  p ← sextet w
  q ← sextet x
  if last && nat_eqb y 61 && nat_eqb z 61 then ok ((p * 4 + q / 16) ∷ []) else (do
    r ← sextet y
    if last && nat_eqb z 61 then ok ((p * 4 + q / 16) ∷ (q % 16 * 16 + r / 4) ∷ []) else (do
      s ← sextet z
      ok ((p * 4 + q / 16) ∷ (q % 16 * 16 + r / 4) ∷ (r % 4 * 64 + s) ∷ [])))

abbrev pub is_last : Chars → Bool
is_last [] = true
is_last (_ ∷ _) = false

-- `b64decode(…, validate=True)`: what is not in the alphabet, and padding that is not at the end,
-- is refused.
unfoldable pub b64decode : Chars → Result Error (List ℕ)
unfolding decode_quad
b64decode [] = ok []
b64decode (w ∷ x ∷ y ∷ z ∷ rest) = do
  front ← decode_quad w x y z (is_last rest)
  later ← b64decode rest
  ok (front ++ later)
b64decode _ = err invalid_cursor_error

unfoldable pub encode_event_cursor : ℕ → Chars
unfolding to_bytes urlsafe_b64encode strip_padding
encode_event_cursor event_id = strip_padding (urlsafe_b64encode (to_bytes 16 event_id []))

unfoldable pub decode_event_cursor : Chars → Result Error ℕ
unfolding pad_to_four b64decode from_bytes
decode_event_cursor cursor = do
  raw ← b64decode (pad_to_four cursor)
  if nat_eqb (length raw) 16 then ok (from_bytes 0 raw) else err invalid_cursor_error
