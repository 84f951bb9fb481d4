-- ===== src/Panel/Lua/Runes.antt =====
-- The runes that a range over a string of panel/smartdist_lua.go gives.
use dnsdist_edge.Prelude.{
  ℕ, Bool, ◌&&◌, Option, none, some, [], ◌∷◌, ◌==◌, nat_eq, ltb, leb, if◌then◌else◌,
}
use dnsdist_edge.Text.{Text}

-- A byte after the first of a rune.
unfoldable pub is_tail : ℕ → Bool
is_tail c = leb 128 c && leb c 191

-- Whether a byte may be the second of a rune that begins with `c`.
unfoldable pub is_second : ℕ → ℕ → Bool
is_second c d =
    if c == 224
    then leb 160 d && leb d 191
    else if c == 237
    then leb 128 d && leb d 159
    else if c == 240
    then leb 144 d && leb d 191
    else if c == 244
    then leb 128 d && leb d 143
    else is_tail d

-- How many bytes after the first the rune at the front of a text has, as a range over a string decodes it;
-- none where the bytes are no rune of UTF-8.
unfoldable pub tail_length : Text → Option ℕ
tail_length [] = none
tail_length (c ∷ []) = if ltb c 128 then some 0 else none
tail_length (c ∷ d ∷ []) =
    if ltb c 128 then some 0 else if leb 194 c && leb c 223 && is_second c d then some 1 else none
tail_length (c ∷ d ∷ e ∷ []) =
    if ltb c 128
    then some 0
    else if leb 194 c && leb c 223 && is_second c d
    then some 1
    else if leb 224 c && leb c 239 && is_second c d && is_tail e
    then some 2
    else none
tail_length (c ∷ d ∷ e ∷ f ∷ s) =
    if ltb c 128
    then some 0
    else if leb 194 c && leb c 223 && is_second c d
    then some 1
    else if leb 224 c && leb c 239 && is_second c d && is_tail e
    then some 2
    else if leb 240 c && leb c 244 && is_second c d && is_tail e && is_tail f
    then some 3
    else none

-- U+FFFD, which a range gives for a byte that begins no rune.
abbrev pub rune_error : Text
rune_error = 239 ∷ 191 ∷ 189 ∷ []
