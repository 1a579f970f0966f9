-- ===== src/Script/Lexer/Total.antt =====
-- The scanner ends on every source, and what it returns is fit for the parser.
use homeworldz.Common.{
  if_both, if◌then◌else◌, ℕ, zero, suc, ◌+◌, ◌-◌, ◌*◌, ◌≤◌, ◌<◌, ◌^◌, ◌≡◌, ◌≢◌, refl, true, Option,
  none, some, List, [], ◌∷◌, ◌++◌, arith, length, ◌&&◌, ◌==◌, ltb,
}
use homeworldz.Common.Bytes.{Bytes}
use homeworldz.Script.Lexer.Token.{
  newline, keyword_kind, TokenKind, Token, is_ident_start, is_ident_char, is_digit, is_space,
}
use homeworldz.Script.Lexer.Scan.{
  Round, skipped, scanned, threw, skip_line, skip_block, after_ident, scan_ident, scan_int,
  scan_string, scan_punct, scan_round, Lexed, tokens, lex_error, out_of_fuel, prepend, scan_all,
  tokenize, max_literal, scan_kind, tail_of, next_is, unescape, punct_kind,
}

-- A token whose number is an `int32_t` and that does not end the source.
abbrev pub IsInner : Token → Type 0
IsInner t = (t.integer < 2 ^ 31) × (t.kind ≢ TokenKind.end) × (0 < t.line)

-- A round leaves at most `n` characters, and what it appends is an inner token.
abbrev Leaves : ℕ → Round → Type 0
Leaves n (skipped rest line column) = (length rest ≤ n) × (0 < line)
Leaves n (scanned t rest line column) = (length rest ≤ n) × IsInner t × (0 < line)
Leaves n (threw e line column) = Unit {0}

Leaves-mono : {m n : ℕ} (r : Round) → Leaves m r → m ≤ n → Leaves n r
Leaves-mono (skipped rest line column) h k = omega arith
Leaves-mono (scanned t rest line column) h k = (omega arith, h.1, h.2)
Leaves-mono (threw e line column) h k = tt

skip_line-Leaves :
    (cs : Bytes) (line column : ℕ) → 0 < line → Leaves (length cs) (skip_line cs line column)
unfolding skip_line
skip_line-Leaves [] line column h = omega arith
skip_line-Leaves (c ∷ cs) line column h =
    if_both (Leaves (suc (length cs))) (c == newline) (λ _. omega arith)
      λ _.
        Leaves-mono (skip_line cs line (column + 1)) (skip_line-Leaves cs line (column + 1) h)
          (omega arith)

skip_block-Leaves :
    (l c : ℕ) (cs : Bytes) (line column : ℕ)
    → 0 < line
    → Leaves (length cs) (skip_block l c cs line column)
unfolding skip_block
skip_block-Leaves l c [] line column h = tt
skip_block-Leaves l c (a ∷ []) line column h = tt
skip_block-Leaves l c (a ∷ (b ∷ cs)) line column h =
    if_both (Leaves (suc (suc (length cs)))) (a == b'*' && b == b'/') (λ _. omega arith)
      λ _.
        Leaves-mono (skip_block l c (b ∷ cs) _ _)
          (skip_block-Leaves l c (b ∷ cs) (if a == newline then line + 1 else line)
            (if a == newline then 1 else column + 1) (ground arith))
          (omega arith)

length-after_ident : (cs : Bytes) → length (after_ident cs) ≤ length cs
unfolding after_ident
length-after_ident [] = omega arith
length-after_ident (c ∷ cs) = ground (arith, length-after_ident cs)

-- A word is a keyword or an identifier, never the end.
keyword_inner : (word : Bytes) → keyword_kind word ≢ TokenKind.end
unfolding keyword_kind
keyword_inner word = λ e. ground arith

scan_ident-Leaves :
    (c : ℕ) (cs : Bytes) (line column : ℕ)
    → 0 < line
    → is_ident_start c ≡ true
    → Leaves (length cs) (scan_ident (c ∷ cs) line column)
unfolding scan_ident after_ident is_ident_char is_ident_start
scan_ident-Leaves c cs line column h start =
    (ground (arith, length-after_ident cs), (omega arith, keyword_inner _, h), h)

scan_int-Leaves :
    (v l : ℕ) (cs : Bytes) (line column : ℕ)
    → 0 < line
    → v < 2 ^ 31
    → Leaves (length cs) (scan_int v l cs line column)
unfolding scan_int
scan_int-Leaves v l [] line column h k = (omega arith, (omega arith, λ e. cc, h), h)
scan_int-Leaves v l (c ∷ cs) line column h k =
    let v' : ℕ = v * 10 + (c - b'0') in
    if_both (Leaves (suc (length cs))) (is_digit c)
      (λ _.
        if_both (Leaves (suc (length cs))) (ltb max_literal v') (λ _. tt)
          λ small.
            Leaves-mono (scan_int v' l cs line (column + 1))
              (scan_int-Leaves v' l cs line (column + 1) h (ground arith)) (omega arith))
      λ _. (omega arith, (omega arith, λ e. cc, h), h)

-- A literal takes its first digit.
scan_digit-Leaves :
    (c : ℕ) (cs : Bytes) (line column : ℕ)
    → 0 < line
    → is_digit c ≡ true
    → Leaves (length cs) (scan_int 0 column (c ∷ cs) line column)
unfolding scan_int
scan_digit-Leaves c cs line column h digit =
    let v' : ℕ = 0 * 10 + (c - b'0') in
    rw digit (
      if_both (Leaves (length cs)) (ltb max_literal v') (λ _. tt)
        λ small. scan_int-Leaves v' column cs line (column + 1) h (ground arith))

scan_string-Leaves :
    (cs text : Bytes) (l line column : ℕ)
    → 0 < line
    → Leaves (length cs) (scan_string text l cs line column)
unfolding scan_string
scan_string-Leaves [] text l line column h = tt
scan_string-Leaves (c ∷ []) text l line column h =
    if_both (Leaves 1) (c == b'"') (λ _. (omega arith, (omega arith, λ e. cc, h), h)) λ _. tt
scan_string-Leaves (c ∷ (d ∷ cs)) text l line column h =
    if_both (Leaves (suc (suc (length cs)))) (c == b'"')
      (λ _. (omega arith, (omega arith, λ e. cc, h), h))
      λ _.
        if_both (Leaves (suc (suc (length cs)))) (c == 92)
          (λ _.
            Leaves-mono (scan_string (text ++ unescape d ∷ []) l cs line (column + 2))
              (scan_string-Leaves cs (text ++ unescape d ∷ []) l line (column + 2) h) (omega arith))
          λ _.
            if_both (Leaves (suc (suc (length cs)))) (c == newline) (λ _. tt)
              λ _.
                Leaves-mono (scan_string (text ++ c ∷ []) l (d ∷ cs) line (column + 1))
                  (scan_string-Leaves (d ∷ cs) (text ++ c ∷ []) l line (column + 1) h) (omega arith)

punct_inner : (c : ℕ) (k : TokenKind) → punct_kind c ≡ some k → k ≢ TokenKind.end
punct_inner c k h = λ e. ground arith

scan_kind-Leaves :
    (o : Option TokenKind) (c : ℕ) (cs : Bytes) (line column : ℕ)
    → 0 < line
    → ((k : TokenKind) → o ≡ some k → k ≢ TokenKind.end)
    → Leaves (length cs) (scan_kind o c cs line column)
unfolding scan_kind
scan_kind-Leaves none c cs line column h inner = tt
scan_kind-Leaves (some k) c cs line column h inner =
    (omega arith, (omega arith, inner k refl, h), h)

length-tail_of : (cs : Bytes) → length (tail_of cs) ≤ length cs
length-tail_of [] = omega arith
length-tail_of (c ∷ cs) = omega arith

scan_punct-Leaves :
    (c : ℕ) (cs : Bytes) (line column : ℕ)
    → 0 < line
    → Leaves (length cs) (scan_punct c cs line column)
unfolding scan_punct
scan_punct-Leaves c cs line column h =
    if_both (Leaves (length cs)) (c == b'=')
      (λ _.
        if_both (Leaves (length cs)) (next_is b'=' cs)
          (λ _. (length-tail_of cs, (omega arith, λ e. cc, h), h))
          λ _. (omega arith, (omega arith, λ e. cc, h), h))
      λ _. scan_kind-Leaves (punct_kind c) c cs line column h (punct_inner c)

scan_round-Leaves :
    (c : ℕ) (cs : Bytes) (line column : ℕ)
    → 0 < line
    → Leaves (length cs) (scan_round c cs line column)
unfolding scan_round
scan_round-Leaves c cs line column h =
    if_both L (c == newline) (λ _. omega arith)
      λ _.
        if_both L (is_space c) (λ _. omega arith)
          λ _.
            if_both L (c == b'/' && next_is b'/' cs)
              (λ _.
                Leaves-mono (skip_line (tail_of cs) line (column + 2))
                  (skip_line-Leaves (tail_of cs) line (column + 2) h) (length-tail_of cs))
              λ _.
                if_both L (c == b'/' && next_is b'*' cs)
                  (λ _.
                    Leaves-mono (skip_block line column (tail_of cs) line (column + 2))
                      (skip_block-Leaves line column (tail_of cs) line (column + 2) h)
                      (length-tail_of cs))
                  λ _. if_both L (is_ident_start c) (scan_ident-Leaves c cs line column h) λ _.
                    if_both L (is_digit c) (scan_digit-Leaves c cs line column h) λ _.
                      if_both L (c == b'"')
                        (λ _. scan_string-Leaves cs [] column line (column + 1) h)
                        λ _. scan_punct-Leaves c cs line column h
  where
    L : Round → Type 0
    L = Leaves (length cs)

-- Inner tokens, then one token that ends the source.
abbrev pub IsStream : List Token → Type 0
IsStream [] = ⊥
IsStream (t ∷ []) = t.kind ≡ TokenKind.end
IsStream (t ∷ (u ∷ ts)) = IsInner t × IsStream (u ∷ ts)

-- The scanner came to an end: with a stream of tokens, or with an error.
abbrev pub Ended : Lexed → Type 0
Ended (tokens ts) = IsStream ts
Ended (lex_error e line column) = Unit {0}
Ended out_of_fuel = ⊥

prepend-Ended : (t : Token) (r : Lexed) → IsInner t → Ended r → Ended (prepend t r)
prepend-Ended t (tokens []) h e = absurd e
prepend-Ended t (tokens (u ∷ ts)) h e = (h, e)
prepend-Ended t (lex_error x line column) h e = tt
prepend-Ended t out_of_fuel h e = e

scan_all-Ended :
    (fuel : ℕ) (cs : Bytes) (line column : ℕ)
    → length cs < fuel
    → 0 < line
    → Ended (scan_all fuel cs line column)
unfolding scan_all
scan_all-Ended zero cs line column f h = absurd (omega arith)
scan_all-Ended (suc fuel) [] line column f h = refl
scan_all-Ended (suc fuel) (c ∷ cs) line column f h =
    go (scan_round c cs line column) (scan_round-Leaves c cs line column h)
      (λ rest l k small pos_line. scan_all-Ended fuel rest l k (omega arith) pos_line)
  where
    go :
        (r : Round)
        → Leaves (length cs) r
        → ((rest : Bytes) (l k : ℕ)
            → length rest ≤ length cs
            → 0 < l
            → Ended (scan_all fuel rest l k))
        → Ended (elim r [
          | skipped rest line' column' ↦ scan_all fuel rest line' column'
          | scanned t rest line' column' ↦ prepend t (scan_all fuel rest line' column')
          | threw e line' column' ↦ lex_error e line' column'
        ])
    go (skipped rest l k) s next = next rest l k s.0 s.1
    go (scanned t rest l k) s next =
        prepend-Ended t (scan_all fuel rest l k) s.1 (next rest l k s.0 s.2)
    go (threw e l k) s next = tt

-- On every source the scanner ends, within one round more than there are characters: with a located
-- error, or with tokens of which the last and only the last is the end token, every number is below
-- 2 ^ 31 and every line of another token is counted from 1.
pub tokenize-Ended : (source : Bytes) → Ended (tokenize source)
unfolding tokenize
tokenize-Ended source = scan_all-Ended (suc (length source)) source 1 1 (omega arith) (omega arith)
