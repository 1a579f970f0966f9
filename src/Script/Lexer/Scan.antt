-- ===== src/Script/Lexer/Scan.antt =====
-- `tokenize` of script/src/lexer.cpp. The position `i` is the list of the characters that are left,
-- and `column` is `i - line_start + 1`.
use homeworldz.Common.{
  ℕ, zero, suc, ◌+◌, ◌-◌, ◌*◌, Bool, false, Option, none, some, List, [], ◌∷◌, ◌++◌, ◌&&◌, ltb,
  ◌==◌, if◌then◌else◌, length,
}
use homeworldz.Common.Bytes.{Bytes}
use homeworldz.Script.Lexer.Token.{
  TokenKind, Token, newline, is_space, is_digit, is_ident_start, is_ident_char, keyword_kind,
}

-- The messages of the `ScriptError`s, each with a line and a column.
pub data LexError : Type 0 where
  unterminated_comment integer_range unterminated_string : LexError
  unexpected_character : ℕ → LexError

-- What one round of the loop does: it skips, appends a token, or throws.
pub data Round : Type 0 where
  skipped : Bytes → ℕ → ℕ → Round
  scanned : Token → Bytes → ℕ → ℕ → Round
  threw : LexError → ℕ → ℕ → Round

-- `// …` up to the end of the line.
unfoldable pub skip_line : Bytes → ℕ → ℕ → Round
skip_line [] line column = skipped [] line column
skip_line (c ∷ cs) line column =
    if c == newline then skipped (c ∷ cs) line column else skip_line cs line (column + 1)

-- The rest of `/* … */` up to its end; `line₀` and `column₀` are where the comment began.
unfoldable pub skip_block : ℕ → ℕ → Bytes → ℕ → ℕ → Round
skip_block line₀ column₀ [] line column = threw LexError.unterminated_comment line₀ column₀
skip_block line₀ column₀ (a ∷ []) line column = threw LexError.unterminated_comment line₀ column₀
skip_block line₀ column₀ (a ∷ (b ∷ cs)) line column =
    let deeper =
      skip_block line₀ column₀ (b ∷ cs) (if a == newline then line + 1 else line)
        (if a == newline then 1 else column + 1) in
    if a == b'*' && b == b'/' then skipped cs line (column + 2) else deeper

-- The identifier's characters from the front of the source.
unfoldable pub ident_text : Bytes → Bytes
ident_text [] = []
ident_text (c ∷ cs) = if is_ident_char c then c ∷ ident_text cs else []

unfoldable pub after_ident : Bytes → Bytes
after_ident [] = []
after_ident (c ∷ cs) = if is_ident_char c then after_ident cs else c ∷ cs

unfoldable pub scan_ident : Bytes → ℕ → ℕ → Round
scan_ident cs line column =
    let text = ident_text cs in
    scanned (record { kind = keyword_kind text; text = text; integer = 0; line = line })
      (after_ident cs) line (column + length text)

-- The largest literal, 0x7fffffff.
abbrev pub max_literal : ℕ
max_literal = 0x7fff_ffff

abbrev pub int_token : ℕ → ℕ → Token
int_token value line = record {
  kind = TokenKind.int_literal;
  text = [];
  integer = value;
  line = line;
}

-- The digits' loop; `column₀` is the column of the first.
unfoldable pub scan_int : ℕ → ℕ → Bytes → ℕ → ℕ → Round
scan_int value column₀ [] line column = scanned (int_token value line) [] line column
scan_int value column₀ (c ∷ cs) line column =
    let value' = value * 10 + (c - b'0') in
    let deeper = scan_int value' column₀ cs line (column + 1) in
    if is_digit c
    then (if ltb max_literal value' then threw LexError.integer_range line column₀ else deeper)
    else scanned (int_token value line) (c ∷ cs) line column

-- The `switch` over the character behind a backslash.
abbrev pub unescape : ℕ → ℕ
unescape c = if c == b'n' then 10 else if c == b't' then 9 else c

abbrev pub string_token : Bytes → ℕ → Token
string_token text line = record {
  kind = TokenKind.string_literal;
  text = text;
  integer = 0;
  line = line;
}

-- The loop over a literal's characters, behind its opening quote. 92 is the backslash.
unfoldable pub scan_string : Bytes → ℕ → Bytes → ℕ → ℕ → Round
scan_string text column₀ [] line column = threw LexError.unterminated_string line column₀
scan_string text column₀ (c ∷ []) line column =
    if c == b'"'
    then scanned (string_token text line) [] line (column + 1)
    else threw LexError.unterminated_string line column₀
scan_string text column₀ (c ∷ (d ∷ cs)) line column =
    let escaped = scan_string (text ++ unescape d ∷ []) column₀ cs line (column + 2) in
    let plain = scan_string (text ++ c ∷ []) column₀ (d ∷ cs) line (column + 1) in
    if c == b'"'
    then scanned (string_token text line) (d ∷ cs) line (column + 1)
    else if c == 92
    then escaped
    else if c == newline
    then threw LexError.unterminated_string line column₀
    else plain

abbrev pub punct_kind : ℕ → Option TokenKind
punct_kind c =
    if c == b'('
    then some TokenKind.l_paren
    else if c == b')'
    then some TokenKind.r_paren
    else if c == b'{'
    then some TokenKind.l_brace
    else if c == b'}'
    then some TokenKind.r_brace
    else if c == b';'
    then some TokenKind.semicolon
    else if c == b','
    then some TokenKind.comma
    else if c == b'+'
    then some TokenKind.plus
    else if c == b'-'
    then some TokenKind.minus
    else if c == b'*'
    then some TokenKind.star
    else if c == b'<'
    then some TokenKind.less
    else if c == b'>'
    then some TokenKind.greater
    else none

abbrev pub plain_token : TokenKind → ℕ → Token
plain_token kind line = record { kind = kind; text = []; integer = 0; line = line }

abbrev pub next_is : ℕ → Bytes → Bool
next_is c [] = false
next_is c (d ∷ ds) = d == c

abbrev pub tail_of : Bytes → Bytes
tail_of [] = []
tail_of (d ∷ ds) = ds

unfoldable pub scan_kind : Option TokenKind → ℕ → Bytes → ℕ → ℕ → Round
scan_kind (some k) c cs line column = scanned (plain_token k line) cs line (column + 1)
scan_kind none c cs line column = threw (LexError.unexpected_character c) line column

-- The `switch` over punctuation and operators, on the character `c` before `cs`.
unfoldable pub scan_punct : ℕ → Bytes → ℕ → ℕ → Round
unfolding scan_kind
scan_punct c cs line column =
    if c == b'='
    then (if next_is b'=' cs
        then scanned (plain_token TokenKind.equal_equal line) (tail_of cs) line (column + 2)
        else scanned (plain_token TokenKind.assign line) cs line (column + 1))
    else scan_kind (punct_kind c) c cs line column

-- One round of the loop, on the character `c` before `cs`.
unfoldable pub scan_round : ℕ → Bytes → ℕ → ℕ → Round
scan_round c cs line column =
    if c == newline
    then skipped cs (line + 1) 1
    else if is_space c
    then skipped cs line (column + 1)
    else if c == b'/' && next_is b'/' cs
    then skip_line (tail_of cs) line (column + 2)
    else if c == b'/' && next_is b'*' cs
    then skip_block line column (tail_of cs) line (column + 2)
    else if is_ident_start c
    then scan_ident (c ∷ cs) line column
    else if is_digit c
    then scan_int 0 column (c ∷ cs) line column
    else if c == b'"'
    then scan_string [] column cs line (column + 1)
    else scan_punct c cs line column

-- `out_of_fuel` is no result of the program.
pub data Lexed : Type 0 where
  tokens : List Token → Lexed
  lex_error : LexError → ℕ → ℕ → Lexed
  out_of_fuel : Lexed

abbrev pub prepend : Token → Lexed → Lexed
prepend t (tokens ts) = tokens (t ∷ ts)
prepend t r = r

-- The loop of `tokenize`. The End token is appended behind it.
unfoldable pub scan_all : ℕ → Bytes → ℕ → ℕ → Lexed
scan_all zero cs line column = out_of_fuel
scan_all (suc fuel) [] line column = tokens (plain_token TokenKind.end line ∷ [])
scan_all (suc fuel) (c ∷ cs) line column = elim (scan_round c cs line column) [
  | skipped rest line' column' ↦ scan_all fuel rest line' column'
  | scanned t rest line' column' ↦ prepend t (scan_all fuel rest line' column')
  | threw e line' column' ↦ lex_error e line' column'
]

-- Each round takes a character at least, so one more round than there are characters is enough.
unfoldable pub tokenize : Bytes → Lexed
tokenize source = scan_all (suc (length source)) source 1 1
