-- ===== src/Panel/Lua/Quote.antt =====
-- `luaQuote` of panel/smartdist_lua.go against the short string literals of Lua.
use dnsdist_edge.Prelude.{
  ℕ, suc, ◌/◌, ◌%◌, ◌+◌, ◌*◌, ◌-◌, ◌<◌, ◌≡◌, refl, ◌∙◌, Bool, true, ◌&&◌, ◌||◌, Option, none, some,
  [], ◌∷◌, ◌++◌, ◌==◌, nat_eq, ltb, lt→ltb, leb, if◌then◌else◌, arith, Bool-cases, zero, false, ap,
  Option-cases, inl, inr,
}
use mathlib.Core.List.{append_assoc}
use dnsdist_edge.Text.{Text}
use dnsdist_edge.Panel.Lua.{
  quote_byte, quote_bytes, tail_length, lua_quote, quote, backslash, digit,
}

-- A number of a decimal escape.
unfoldable pub is_digit : ℕ → Bool
is_digit c = leb 48 c && leb c 57

-- The byte of an escape that is not decimal.
unfoldable pub escape_byte : ℕ → Option ℕ
escape_byte e =
    if e == backslash || e == quote
    then some e
    else if e == b'n'
    then some 10
    else if e == b'r'
    then some 13
    else none

unfoldable pub prepend : ℕ → Option (Text × Text) → Option (Text × Text)
prepend c none = none
prepend c (some (s, rest)) = some (c ∷ s, rest)

-- A decimal escape stands for one byte.
unfoldable pub prepend_byte : ℕ → Option (Text × Text) → Option (Text × Text)
prepend_byte v read = if ltb v 256 then prepend v read else none

-- Where a reader of a literal is: after a whole byte, after a backslash, or after so many digits of a
-- number.
pub data Reading : Type 0 where
  plain escape : Reading
  number : ℕ → ℕ → Reading

-- A byte outside an escape; a raw line break is an error.
unfoldable pub read_plain :
    ℕ → Text → Option (Text × Text) → Option (Text × Text) → Option (Text × Text)
read_plain c s on escaped =
    if c == quote
    then some ([], s)
    else if c == 10 || c == 13
    then none
    else if c == backslash
    then escaped
    else prepend c on

-- The value of the literal and what follows its closing quote.
unfoldable pub read_literal : Reading → Text → Option (Text × Text)
read_literal reading [] = none
read_literal plain (c ∷ s) = read_plain c s (read_literal plain s) (read_literal escape s)
read_literal escape (c ∷ s) =
    let on = read_literal plain s in
    let numbered = read_literal (number 1 (c - 48)) s in
    if is_digit c then numbered else elim (escape_byte c) [ none ↦ none | some v ↦ prepend v on ]
read_literal (number n v) (c ∷ s) =
    let more = read_literal (number (suc n) (v * 10 + (c - 48))) s in
    let done = read_plain c s (read_literal plain s) (read_literal escape s) in
    if is_digit c && ltb n 3 then more else prepend_byte v done

unfoldable pub unquote : Text → Option (Text × Text)
unquote [] = none
unquote (c ∷ s) = if c == quote then read_literal plain s else none

read_literal-three :
    (v : ℕ) (t : Text) → read_literal (number 3 v) t ≡ prepend_byte v (read_literal plain t)
unfolding read_literal prepend_byte prepend
read_literal-three v [] = ground arith
read_literal-three v (c ∷ s) = ground arith

prepend_byte-small :
    (v : ℕ) (read : Option (Text × Text)) → v < 256 → prepend_byte v read ≡ prepend v read
unfolding prepend_byte
prepend_byte-small v read h = rw (lt→ltb v 256 h) refl

is_digit-digit : (n : ℕ) → n < 10 → is_digit (digit n) ≡ true
unfolding is_digit
is_digit-digit n h = ground arith

-- A control byte is read back from its three digits.
read_literal-control :
    (c : ℕ) (t : Text)
    → c < 128
    → read_literal escape (digit (c / 100) ∷ digit ((c / 10) % 10) ∷ digit (c % 10) ∷ t)
      ≡ prepend c (read_literal plain t)
unfolding read_literal
read_literal-control c t h =
    let value : ((digit (c / 100) - 48) * 10 + (digit ((c / 10) % 10) - 48)) * 10
          + (digit (c % 10) - 48)
        ≡ c =
      omega arith in
    rw
      (
        is_digit-digit (c / 100) (omega arith),
        is_digit-digit ((c / 10) % 10) (omega arith),
        is_digit-digit (c % 10) (omega arith),
        value,
      )
      (read_literal-three c t ∙ prepend_byte-small c (read_literal plain t) (omega arith))

read_literal-quote_byte :
    (c : ℕ) (t : Text) → read_literal plain (quote_byte c ++ t) ≡ prepend c (read_literal plain t)
unfolding quote_byte read_literal read_plain is_digit escape_byte
read_literal-quote_byte c t = elim (Bool-cases (c == backslash)) [
  | inl b ↦ rw b (ground arith)
  | inr not_b ↦ elim (Bool-cases (c == quote)) [
    | inl q ↦ rw (not_b, q) (ground arith)
    | inr not_q ↦ elim (Bool-cases (c == 10)) [
      | inl n ↦ rw (not_b, not_q, n) (ground arith)
      | inr not_n ↦ elim (Bool-cases (c == 13)) [
        | inl r ↦ rw (not_b, not_q, not_n, r) (ground arith)
        | inr not_r ↦ elim (Bool-cases (ltb c 32 || c == 127)) [
          | inl control ↦
              rw (not_b, not_q, not_n, not_r, control) (read_literal-control c t (ground arith))
          | inr printed ↦ rw (not_b, not_q, not_n, not_r, printed) (ground arith)
        ]
      ]
    ]
  ]
]

-- The text is UTF-8 after so many bytes that are left of a rune, which are all above ASCII.
unfoldable pub is_utf8 : ℕ → Text → Bool
is_utf8 left [] = true
is_utf8 (suc left) (c ∷ s) = leb 128 c && is_utf8 left s
is_utf8 zero (c ∷ s) = elim (tail_length (c ∷ s)) [ none ↦ false | some n ↦ is_utf8 n s ]

read_literal-tail :
    (c : ℕ) (t : Text)
    → leb 128 c ≡ true
    → read_literal plain (c ∷ t) ≡ prepend c (read_literal plain t)
unfolding read_literal read_plain
read_literal-tail c t h = ground arith

read_literal-quote_bytes :
    (left : ℕ) (s t : Text)
    → is_utf8 left s ≡ true
    → read_literal plain (quote_bytes left s ++ t) ≡ some (s, t)
unfolding quote_bytes read_literal read_plain prepend is_utf8
read_literal-quote_bytes zero [] t h = refl
read_literal-quote_bytes (suc left) [] t h = refl
read_literal-quote_bytes (suc left) (c ∷ s) t h =
    read_literal-tail c (quote_bytes left s ++ t) (ground arith)
    ∙ ap (prepend c) (read_literal-quote_bytes left s t (ground arith))
read_literal-quote_bytes zero (c ∷ s) t h = elim (Option-cases (tail_length (c ∷ s))) [
  | inl bad ↦ absurd (ground arith)
  | inr (n, rune) ↦
      rw (rune, quote_bytes)
        (ap (read_literal plain) (append_assoc (quote_byte c) (quote_bytes n s) t)
          ∙ read_literal-quote_byte c (quote_bytes n s ++ t)
          ∙ ap (prepend c) (read_literal-quote_bytes n s t (ground arith)))
]

-- Lua reads a quoted text back as it was, if it is UTF-8, and the literal ends where the quoted text ends.
pub unquote-lua_quote : (s t : Text) → is_utf8 0 s ≡ true → unquote (lua_quote s ++ t) ≡ some (s, t)
unfolding unquote lua_quote
unquote-lua_quote s t h = read_literal-quote_bytes 0 s t h
