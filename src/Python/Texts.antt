-- ===== src/Python/Texts.antt =====
-- Python texts. An f-string is the list of its parts: a literal or a formatted `str`, a value put
-- through `repr` (`{x!r}`), a number, or a float of seconds. `not s.strip()` is `is_blank`.
use Prim.Native.Char.{code}
use mellivor_kernel.Prelude.{
  ℕ, suc, ℤ, pos, negsuc, String, ◌≡◌, ◌⊎◌, refl, Bool, true, false, ◌&&◌, ◌||◌, Option, none, some,
  List, [], ◌∷◌, arith, leb, nat_eq, ◌==◌, eq_iff, if◌then◌else◌,
}

-- `str.isspace` of one code point, which is what `str.strip` removes
unfoldable pub is_space : ℕ → Bool
is_space c =
    leb 9 c && leb c 13
    || leb 28 c && leb c 32
    || nat_eq c 133
    || nat_eq c 160
    || nat_eq c 5760
    || leb 8192 c && leb c 8202
    || leb 8232 c && leb c 8233
    || nat_eq c 8239
    || nat_eq c 8287
    || nat_eq c 12288

-- not s.strip()
unfoldable pub is_blank : String → Bool
unfolding is_space
is_blank String.[] = true
is_blank (String.◌∷◌ c s) = is_space (code c) && is_blank s

pub data Piece : Type 0 where
  lit quoted : String → Piece
  num : ℕ → Piece
  seconds : ℤ → Piece

abbrev pub Text : Type 0
Text = List Piece

-- An int
abbrev pub number_pieces : ℤ → Text
number_pieces (pos n) = num n ∷ []
number_pieces (negsuc n) = lit "-" ∷ num (suc n) ∷ []

-- `repr` of a text has its quotes, so it is never blank; nor is a number.
unfoldable pub is_blank_piece : Piece → Bool
unfolding is_blank
is_blank_piece (lit s) = is_blank s
is_blank_piece _ = false

-- not text.strip()
unfoldable pub is_blank_text : Text → Bool
unfolding is_blank_piece
is_blank_text [] = true
is_blank_text (p ∷ ps) = is_blank_piece p && is_blank_text ps

unfoldable pub is_empty_piece : Piece → Bool
is_empty_piece (lit s) = s == ""
is_empty_piece _ = false

-- not text
unfoldable pub is_empty_text : Text → Bool
unfolding is_empty_piece
is_empty_text [] = true
is_empty_text (p ∷ ps) = is_empty_piece p && is_empty_text ps

-- error or default, for an optional text
unfoldable pub text_or : Option Text → Text → Text
unfolding is_empty_text
text_or none default = default
text_or (some t) default = if is_empty_text t then default else t

-- The test `text and text.strip()` of the constructors: there is a text, and it is not blank.
unfoldable pub has_text : Option Text → Bool
unfolding is_blank_text
has_text none = false
has_text (some t) = if is_blank_text t then false else true

-- ", ".join(values)
unfoldable pub join_comma : List String → Text
join_comma [] = []
join_comma (s ∷ []) = lit s ∷ []
join_comma (s ∷ t ∷ rest) = lit s ∷ lit ", " ∷ join_comma (t ∷ rest)

is_blank-empty : is_blank "" ≡ true
unfolding is_blank
is_blank-empty = refl

is_blank-word : is_blank " \t a" ≡ false
unfolding is_blank
is_blank-word = refl

-- An empty piece is blank, so a text that is not blank is not empty.
is_blank_piece_of_empty : (p : Piece) → is_empty_piece p ≡ true → is_blank_piece p ≡ true
unfolding is_empty_piece is_blank_piece
is_blank_piece_of_empty (lit s) h = rw ((eq_iff s "").0 h)
is_blank_piece_of_empty _ h = h

is_blank_text_of_empty : (t : Text) → is_empty_text t ≡ true → is_blank_text t ≡ true
unfolding is_empty_text is_blank_text
is_blank_text_of_empty [] h = refl
is_blank_text_of_empty (p ∷ ps) h =
    ground (arith, is_blank_piece_of_empty p, is_blank_text_of_empty ps)

-- A word that is not blank is not empty.
pub is_empty_text_of_word : (s : String) → is_blank s ≡ false → is_empty_text (lit s ∷ []) ≡ false
unfolding is_empty_text is_empty_piece
is_empty_text_of_word s h = ground (arith, eq_iff s "", is_blank-empty)

-- `error or default` is `error` where that is a text which is not blank.
pub text_or-some :
    (t : Option Text) (default : Text) → has_text t ≡ true → t ≡ some (text_or t default)
unfolding text_or has_text
text_or-some none default h = cc
text_or-some (some t) default h = ground (arith, is_blank_text_of_empty t)

-- `error or default` is not blank, where the error is absent or not blank, nor the default.
pub text_or_not_blank :
    (t : Option Text) (default : Text)
    → (t ≡ none) ⊎ (has_text t ≡ true)
    → is_blank_text default ≡ false
    → is_blank_text (text_or t default) ≡ false
unfolding text_or has_text
text_or_not_blank none default h d = d
text_or_not_blank (some t) default h d = ground (arith, is_blank_text_of_empty t)
