-- ===== src/Llsd/Scalars.antt =====
-- Numbers, texts and identifiers of the binary form: what is written is read.
use homeworldz.Common.{
  ℕ, zero, suc, ◌+◌, ◌*◌, ◌/◌, ◌%◌, ◌≤◌, ◌<◌, ◌^◌, ◌≡◌, refl, ap, sym, ◌∙◌, false, none, some, [],
  ◌∷◌, ◌++◌, ◌||◌, arith, length, ◌==◌, if_both, length-append, drop-append, take-append,
}
use homeworldz.Common.Bytes.{Bytes}
use homeworldz.Viewer.Wire.{append_be_u32, be-IsWire}
use homeworldz.Llsd.Write.{append_counted, digit_of, cons_byte, or_nil, uuid_bytes, append_uuid}
use homeworldz.Llsd.Parse.{
  take_byte, take_u32, take_u64, take_bytes, parse_counted, expect, take_count, digit_char,
  uuid_text, maximum_elements,
}
use homeworldz.Llsd.Sound.{AllBytes, IsUuid}

pub take_u32-append :
    (v : ℕ) (rest : Bytes) → v < 2 ^ 32 → take_u32 (append_be_u32 v rest) ≡ some (v, rest)
unfolding take_u32
take_u32-append v rest h = ground (arith, be-IsWire.reads v rest h)

pub take_u64-append :
    (v : ℕ) (rest : Bytes)
    → v < 2 ^ 64
    → take_u64 (append_be_u32 (v / 2 ^ 32) (append_be_u32 (v % 2 ^ 32) rest)) ≡ some (v, rest)
unfolding take_u64
take_u64-append v rest h =
    rw
      (
        take_u32-append (v / 2 ^ 32) (append_be_u32 (v % 2 ^ 32) rest) (omega arith),
        take_u32-append (v % 2 ^ 32) rest (omega arith),
      )
      (ap (λ w. some (w, rest)) (omega arith))

pub take_bytes-append : (xs rest : Bytes) → take_bytes (length xs) (xs ++ rest) ≡ some (xs, rest)
unfolding take_bytes
take_bytes-append xs rest =
    ground (arith, length-append xs rest, take-append xs rest, drop-append xs rest)

pub parse_counted-append :
    (bytes rest : Bytes)
    → length bytes < 2 ^ 32
    → parse_counted (append_counted bytes rest) ≡ some (bytes, rest)
unfolding parse_counted
parse_counted-append bytes rest h =
    rw (take_u32-append (length bytes) (bytes ++ rest) h) (take_bytes-append bytes rest)

pub take_count-append :
    (count : ℕ) (rest : Bytes)
    → count ≤ maximum_elements
    → take_count (append_be_u32 count rest) ≡ some (count, rest)
unfolding take_count
take_count-append count rest h = rw (take_u32-append count rest (omega arith)) (ground (arith, h))

pub expect_lem : (byte : ℕ) (rest : Bytes) → expect byte (byte ∷ rest) ≡ some (byte, rest)
unfolding expect take_byte
expect_lem byte rest = ground arith

digit_of-digit_char : (d : ℕ) → d < 16 → digit_of (digit_char d) ≡ some d
unfolding digit_char
digit_of-digit_char d h = ground arith

digit_char_plain : (d : ℕ) → (digit_char d == 45) ≡ false
unfolding digit_char
digit_char_plain d = ground arith

read_high :
    (left c digit : ℕ) (cs : Bytes)
    → (c == 45) ≡ false
    → digit_of c ≡ some digit
    → uuid_bytes (suc left) none (c ∷ cs) ≡ uuid_bytes (suc left) (some digit) cs
unfolding uuid_bytes
read_high left c digit cs p q = rw (uuid_bytes, p, q) refl

read_low :
    (left high c digit : ℕ) (cs : Bytes)
    → (c == 45) ≡ false
    → digit_of c ≡ some digit
    → uuid_bytes (suc left) (some high) (c ∷ cs)
      ≡ cons_byte (high * 16 + digit) (uuid_bytes left none cs)
unfolding uuid_bytes
read_low left high c digit cs p q = rw (uuid_bytes, p, q) refl

-- Two digits are read as their byte.
two_digits :
    (left b : ℕ) (cs : Bytes)
    → b < 256
    → uuid_bytes (suc left) none (digit_char (b / 16 % 16) ∷ digit_char (b % 16) ∷ cs)
      ≡ cons_byte b (uuid_bytes left none cs)
two_digits left b cs h =
    let high = b / 16 % 16 in
    let low = b % 16 in
    read_high left (digit_char high) high (digit_char low ∷ cs) (digit_char_plain high)
      (digit_of-digit_char high (omega arith))
    ∙ read_low left high (digit_char low) low cs (digit_char_plain low)
        (digit_of-digit_char low (omega arith))
    ∙ ap (λ byte. cons_byte byte (uuid_bytes left none cs)) (omega arith)

hyphen : (left : ℕ) (cs : Bytes) → uuid_bytes left none (45 ∷ cs) ≡ uuid_bytes left none cs
unfolding uuid_bytes
hyphen zero cs = refl
hyphen (suc left) cs = refl

uuid_bytes-uuid_text :
    (index : ℕ) (bs : Bytes)
    → AllBytes bs
    → uuid_bytes (length bs) none (uuid_text index bs) ≡ some bs
unfolding uuid_text
uuid_bytes-uuid_text index [] h = unfold uuid_bytes in refl
uuid_bytes-uuid_text index (b ∷ bs) (h, hs) =
    let others = digit_char (b / 16 % 16) ∷ digit_char (b % 16) ∷ uuid_text (index + 1) bs in
    let digits =
      two_digits (length bs) b (uuid_text (index + 1) bs) h
      ∙ ap (cons_byte b) (uuid_bytes-uuid_text (index + 1) bs hs) in
    if_both (λ cs. uuid_bytes (suc (length bs)) none cs ≡ some (b ∷ bs))
      (index == 4 || ((index == 6) || ((index == 8) || (index == 10))))
      (λ q. hyphen (suc (length bs)) others ∙ digits) (λ q. digits)

pub append_uuid_lem : (t rest : Bytes) (h : IsUuid t) → append_uuid t rest ≡ h.bytes ++ rest
unfolding append_uuid
append_uuid_lem t rest h =
    ap (λ o. or_nil o ++ rest)
      (ap (uuid_bytes 16 none) h.written
        ∙ ap (λ n. uuid_bytes n none (uuid_text 0 h.bytes)) (sym h.sixteen)
        ∙ uuid_bytes-uuid_text 0 h.bytes h.all_bytes)
