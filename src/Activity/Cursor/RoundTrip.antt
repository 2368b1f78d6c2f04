-- ===== src/Activity/Cursor/RoundTrip.antt =====
-- A cursor that `encode_event_cursor` gives is read back, and is safe in a URL.
use axit_project.Prelude.{
  ℕ, zero, suc, ◌+◌, ◌*◌, ◌/◌, ◌%◌, ◌<◌, ◌≡◌, refl, ap, ◌∙◌, Bool, true, false, ◌&&◌, ◌||◌, List,
  [], ◌∷◌, some, leb, nat_eqb, length, All, ok, arith,
}
use axit_project.Activity.Cursor.{
  Chars, to_bytes, from_bytes, sextet_char, urlsafe_b64encode, keep_char, strip_padding,
  pad_to_four, char_sextet, sextet, decode_quad, is_last, b64decode, encode_event_cursor,
  decode_event_cursor,
}

-- A letter, a digit, `-` or `_`.
abbrev pub is_url_safe : ℕ → Bool
is_url_safe c =
    (leb 65 c && leb c 90)
    || (leb 97 c && leb c 122)
    || (leb 48 c && leb c 57)
    || nat_eqb c 45
    || nat_eqb c 95

sextet_char-safe : (n : ℕ) → n < 64 → is_url_safe (sextet_char n) ≡ true
unfolding sextet_char
sextet_char-safe n h = ground arith

char_sextet-sextet_char : (n : ℕ) → n < 64 → char_sextet (sextet_char n) ≡ some n
unfolding sextet_char char_sextet
char_sextet-sextet_char n h = ground arith

sextet_char-not_pad : (n : ℕ) → n < 64 → nat_eqb (sextet_char n) 61 ≡ false
unfolding sextet_char
sextet_char-not_pad n h = ground arith

abbrev IsByte : ℕ → Type 0
IsByte b = b < 256

-- The sextets of three bytes, and the bytes back.
sextets_below :
    (a b c : ℕ)
    → a < 256
    → b < 256
    → c < 256
    → (a / 4 < 64) × (a % 4 * 16 + b / 16 < 64) × (b % 16 * 4 + c / 64 < 64) × (c % 64 < 64)
sextets_below a b c h k l = (omega arith, omega arith, omega arith, omega arith)

-- What the steps do to a text whose characters are not `=`.
keep_char-kept : (c : ℕ) (s : Chars) → nat_eqb c 61 ≡ false → keep_char c s ≡ c ∷ s
keep_char-kept c [] h = ground arith
keep_char-kept c (d ∷ s) h = refl

pad_to_four-four :
    (w x y z : ℕ) (s : Chars) → pad_to_four (w ∷ x ∷ y ∷ z ∷ s) ≡ w ∷ x ∷ y ∷ z ∷ pad_to_four s
unfolding pad_to_four
pad_to_four-four w x y z s = ground arith

read_back : (n : ℕ) → n < 64 → sextet (sextet_char n) ≡ ok n
read_back n h = rw (sextet, char_sextet-sextet_char n h) refl

-- Four characters that stand for three bytes.
decode_quad-three :
    (a b c : ℕ) (last : Bool)
    → a < 256
    → b < 256
    → c < 256
    → decode_quad
        (sextet_char (a / 4))
        (sextet_char (a % 4 * 16 + b / 16))
        (sextet_char (b % 16 * 4 + c / 64))
        (sextet_char (c % 64))
        last
      ≡ ok (a ∷ b ∷ c ∷ [])
unfolding decode_quad
decode_quad-three a b c last h k l =
    let (p, q, r, s) = sextets_below a b c h k l in
    ground (
      arith,
      read_back (a / 4) p,
      read_back (a % 4 * 16 + b / 16) q,
      read_back (b % 16 * 4 + c / 64) r,
      read_back (c % 64) s,
      sextet_char-not_pad (b % 16 * 4 + c / 64) r,
      sextet_char-not_pad (c % 64) s,
    )

abbrev stripped : List ℕ → Chars
stripped bytes = strip_padding (urlsafe_b64encode bytes)

stripped-three :
    (a b c : ℕ) (rest : List ℕ)
    → a < 256
    → b < 256
    → c < 256
    → stripped (a ∷ b ∷ c ∷ rest)
      ≡ sextet_char (a / 4)
        ∷ sextet_char (a % 4 * 16 + b / 16)
        ∷ sextet_char (b % 16 * 4 + c / 64)
        ∷ sextet_char (c % 64)
        ∷ stripped rest
unfolding strip_padding urlsafe_b64encode
stripped-three a b c rest h k l =
    rw
      (keep_char-kept (sextet_char (c % 64)) (stripped rest)
        (sextet_char-not_pad (c % 64) (omega arith)))
      refl

stripped-one :
    (a : ℕ) → a < 256 → stripped (a ∷ []) ≡ sextet_char (a / 4) ∷ sextet_char (a % 4 * 16) ∷ []
unfolding strip_padding urlsafe_b64encode
stripped-one a h = ground (
  arith,
  sextet_char-not_pad (a / 4) (omega arith),
  sextet_char-not_pad (a % 4 * 16) (omega arith),
)

stripped-two :
    (a b : ℕ)
    → a < 256
    → b < 256
    → stripped (a ∷ b ∷ [])
      ≡ sextet_char (a / 4) ∷ sextet_char (a % 4 * 16 + b / 16) ∷ sextet_char (b % 16 * 4) ∷ []
unfolding strip_padding urlsafe_b64encode
stripped-two a b h k = ground (
  arith,
  sextet_char-not_pad (a / 4) (omega arith),
  sextet_char-not_pad (a % 4 * 16 + b / 16) (omega arith),
  sextet_char-not_pad (b % 16 * 4) (omega arith),
)

-- Any bytes are read back.
b64decode-stripped :
    (bytes : List ℕ) → All IsByte bytes → b64decode (pad_to_four (stripped bytes)) ≡ ok bytes
unfolding b64decode
b64decode-stripped [] h = unfold pad_to_four strip_padding urlsafe_b64encode in refl
b64decode-stripped (a ∷ []) h = rw (stripped-one a h.0) (
    unfold pad_to_four decode_quad in
    ground
      (arith, read_back (a / 4) (omega (arith, h.0)), read_back (a % 4 * 16) (omega arith), h.0))
b64decode-stripped (a ∷ b ∷ []) h = rw (stripped-two a b h.0 h.1.0) (
    unfold pad_to_four decode_quad in
    ground (
      arith,
      read_back (a / 4) (omega (arith, h.0)),
      read_back (a % 4 * 16 + b / 16) (omega (arith, h.1.0)),
      read_back (b % 16 * 4) (omega arith),
      sextet_char-not_pad (b % 16 * 4) (omega arith),
      h.0,
      h.1.0,
    ))
b64decode-stripped (a ∷ b ∷ c ∷ rest) h =
    rw
      (
        stripped-three a b c rest h.0 h.1.0 h.1.1.0,
        pad_to_four-four (sextet_char (a / 4)) (sextet_char (a % 4 * 16 + b / 16))
            (sextet_char (b % 16 * 4 + c / 64)) (sextet_char (c % 64)) (stripped rest),
        decode_quad-three a b c (is_last (pad_to_four (stripped rest))) h.0 h.1.0 h.1.1.0,
        b64decode-stripped rest h.1.1.1,
      )
      refl

-- The bytes of a UUID.
to_bytes-IsByte :
    (count n : ℕ) (later : List ℕ) → All IsByte later → All IsByte (to_bytes count n later)
unfolding to_bytes
to_bytes-IsByte zero n later h = h
to_bytes-IsByte (suc count) n later h =
    to_bytes-IsByte count (n / 256) (n % 256 ∷ later) (omega arith, h)

abbrev byte_bound : ℕ → ℕ
byte_bound zero = 1
byte_bound (suc count) = byte_bound count * 256

from_bytes-to_bytes :
    (count n : ℕ) (later : List ℕ)
    → n < byte_bound count
    → from_bytes 0 (to_bytes count n later) ≡ from_bytes n later
unfolding to_bytes from_bytes
from_bytes-to_bytes zero n later h = ap (λ m. from_bytes m later) (omega arith)
from_bytes-to_bytes (suc count) n later h =
    from_bytes-to_bytes count (n / 256) (n % 256 ∷ later) (omega (arith, h))
    ∙ ap (λ m. from_bytes m later) (omega arith)

length-to_bytes :
    (count n : ℕ) (later : List ℕ) → length (to_bytes count n later) ≡ count + length later
unfolding to_bytes
length-to_bytes zero n later = omega arith
length-to_bytes (suc count) n later =
    omega (arith, length-to_bytes count (n / 256) (n % 256 ∷ later))

All-safe-stripped :
    (bytes : List ℕ) → All IsByte bytes → All (λ c. is_url_safe c ≡ true) (stripped bytes)
All-safe-stripped [] h = unfold strip_padding urlsafe_b64encode in tt
All-safe-stripped (a ∷ []) h = rw (stripped-one a h.0) (
  sextet_char-safe (a / 4) (omega (arith, h.0)),
  (sextet_char-safe (a % 4 * 16) (omega arith), tt),
)
All-safe-stripped (a ∷ b ∷ []) h = rw (stripped-two a b h.0 h.1.0) (
  sextet_char-safe (a / 4) (omega (arith, h.0)),
  (
    sextet_char-safe (a % 4 * 16 + b / 16) (omega (arith, h.1.0)),
    (sextet_char-safe (b % 16 * 4) (omega arith), tt),
  ),
)
All-safe-stripped (a ∷ b ∷ c ∷ rest) h =
    let (p, q, r, s) = sextets_below a b c h.0 h.1.0 h.1.1.0 in
    let later = All-safe-stripped rest h.1.1.1 in
    rw (stripped-three a b c rest h.0 h.1.0 h.1.1.0) (
      sextet_char-safe (a / 4) p,
      (
        sextet_char-safe (a % 4 * 16 + b / 16) q,
        (sextet_char-safe (b % 16 * 4 + c / 64) r, (sextet_char-safe (c % 64) s, later)),
      ),
    )

-- Sixteen bytes take 22 characters.
length-stripped :
    (bytes : List ℕ) → All IsByte bytes → length (stripped bytes) ≡ (length bytes * 4 + 2) / 3
length-stripped [] h = unfold strip_padding urlsafe_b64encode in refl
length-stripped (a ∷ []) h = rw (stripped-one a h.0) refl
length-stripped (a ∷ b ∷ []) h = rw (stripped-two a b h.0 h.1.0) refl
length-stripped (a ∷ b ∷ c ∷ rest) h =
    rw (stripped-three a b c rest h.0 h.1.0 h.1.1.0) (omega (arith, length-stripped rest h.1.1.1))

decoded :
    (cursor : Chars) (raw : List ℕ)
    → b64decode (pad_to_four cursor) ≡ ok raw
    → length raw ≡ 16
    → decode_event_cursor cursor ≡ ok (from_bytes 0 raw)
unfolding decode_event_cursor
decoded cursor raw h k = ground (arith, h, k)

-- The cursor of a UUID is 22 characters that need no escape in a URL, and it is read back as the
-- same UUID.
pub decode_event_cursor-encode_event_cursor :
    (event_id : ℕ)
    → event_id < 0x1_0000_0000_0000_0000_0000_0000_0000_0000
    → (decode_event_cursor (encode_event_cursor event_id) ≡ ok event_id)
      × (length (encode_event_cursor event_id) ≡ 22)
      × All (λ c. is_url_safe c ≡ true) (encode_event_cursor event_id)
unfolding encode_event_cursor from_bytes
decode_event_cursor-encode_event_cursor event_id h =
    let bytes = to_bytes 16 event_id [] in
    let fits = to_bytes-IsByte 16 event_id [] tt in
    let sixteen = length-to_bytes 16 event_id [] in
    (
      decoded (stripped bytes) bytes (b64decode-stripped bytes fits) sixteen
          ∙ ap ok (from_bytes-to_bytes 16 event_id [] h),
      omega (arith, length-stripped bytes fits, sixteen),
      All-safe-stripped bytes fits,
    )
