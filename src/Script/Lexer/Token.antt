-- ===== src/Script/Lexer/Token.antt =====
-- `TokenKind` and `Token` of script/include/homeworldz/script/lexer.h, the character classes of the
-- C locale, and the keywords.
use homeworldz.Common.{ℕ, Bool, ◌&&◌, ◌||◌, ◌==◌, leb, if◌then◌else◌}
use homeworldz.Common.Bytes.{Bytes, bytes_eq, codes}

pub data TokenKind : Type 0 where
  end identifier int_literal string_literal kw_default kw_integer kw_string kw_while : TokenKind
  kw_if kw_else l_paren r_paren l_brace r_brace semicolon comma plus minus star less : TokenKind
  greater assign equal_equal : TokenKind

-- The value of the enumerator.
abbrev pub kind_code : TokenKind → ℕ
kind_code TokenKind.end = 0
kind_code TokenKind.identifier = 1
kind_code TokenKind.int_literal = 2
kind_code TokenKind.string_literal = 3
kind_code TokenKind.kw_default = 4
kind_code TokenKind.kw_integer = 5
kind_code TokenKind.kw_string = 6
kind_code TokenKind.kw_while = 7
kind_code TokenKind.kw_if = 8
kind_code TokenKind.kw_else = 9
kind_code TokenKind.l_paren = 10
kind_code TokenKind.r_paren = 11
kind_code TokenKind.l_brace = 12
kind_code TokenKind.r_brace = 13
kind_code TokenKind.semicolon = 14
kind_code TokenKind.comma = 15
kind_code TokenKind.plus = 16
kind_code TokenKind.minus = 17
kind_code TokenKind.star = 18
kind_code TokenKind.less = 19
kind_code TokenKind.greater = 20
kind_code TokenKind.assign = 21
kind_code TokenKind.equal_equal = 22

abbrev pub kind_eq : TokenKind → TokenKind → Bool
kind_eq a b = kind_code a == kind_code b

pub record Token : Type 0 where
  pub kind : TokenKind
  pub text : Bytes
  pub integer : ℕ
  pub line : ℕ

abbrev pub newline : ℕ
newline = 10

-- `std::isspace`, `std::isdigit` and `std::isalpha`.
unfoldable pub is_space : ℕ → Bool
is_space c = c == b' ' || (leb 9 c && leb c 13)

unfoldable pub is_digit : ℕ → Bool
is_digit c = leb b'0' c && leb c b'9'

unfoldable pub is_alpha : ℕ → Bool
is_alpha c = (leb b'a' c && leb c b'z') || (leb b'A' c && leb c b'Z')

unfoldable pub is_ident_start : ℕ → Bool
unfolding is_alpha
is_ident_start c = is_alpha c || c == b'_'

unfoldable pub is_ident_char : ℕ → Bool
unfolding is_alpha is_digit
is_ident_char c = (is_alpha c || is_digit c) || c == b'_'

unfoldable pub keyword_kind : Bytes → TokenKind
unfolding bytes_eq
keyword_kind word =
    if bytes_eq word (codes "default")
    then TokenKind.kw_default
    else if bytes_eq word (codes "integer")
    then TokenKind.kw_integer
    else if bytes_eq word (codes "string")
    then TokenKind.kw_string
    else if bytes_eq word (codes "while")
    then TokenKind.kw_while
    else if bytes_eq word (codes "if")
    then TokenKind.kw_if
    else if bytes_eq word (codes "else")
    then TokenKind.kw_else
    else TokenKind.identifier
