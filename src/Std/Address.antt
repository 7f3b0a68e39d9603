-- ===== src/Std/Address.antt =====
-- `str::parse` for `Ipv4Addr` and `SocketAddr`, with the grammar of `core::net::parser`. An IPv4
-- address is its 32-bit number.
use nsproxy_rs.Base.{
  arith, Option-cases, inl, inr, ◌≤◌, ◌<◌, ◌≡◌, ℕ, zero, suc, ◌+◌, ◌-◌, ◌*◌, ◌^◌, Bool, true, false,
  ◌&&◌, ◌||◌, List, [], ◌∷◌, Option, none, some, Bytes, length, leb, ltb, ◌==◌, if◌then◌else◌,
}
use nsproxy_rs.Base.Text.{split}
use nsproxy_rs.Std.Number.{is_digit, parse_digits, parse_digits_le, u8_max, u16_max, u32_max}

-- An octet: one to three digits, no leading zero, at most 255.
unfoldable pub parse_octet : Bytes → Option ℕ
unfolding parse_digits
parse_octet [] = none
parse_octet (b ∷ []) = parse_digits u8_max 0 (b ∷ [])
parse_octet (b ∷ c ∷ bs) =
    if b == b'0' || ltb 1 (length bs) then none else parse_digits u8_max 0 (b ∷ c ∷ bs)

abbrev from_octets : List Bytes → Option ℕ
from_octets (a ∷ b ∷ c ∷ d ∷ []) = elim (parse_octet a) [
  | none ↦ none
  | some a ↦ elim (parse_octet b) [
    | none ↦ none
    | some b ↦ elim (parse_octet c) [
      | none ↦ none
      | some c ↦ elim (parse_octet d) [
        | none ↦ none
        | some d ↦ some (a * 2 ^ 24 + b * 2 ^ 16 + c * 2 ^ 8 + d)
      ]
    ]
  ]
]
from_octets _ = none

-- `s.parse::<Ipv4Addr>()`.
unfoldable pub parse_ipv4 : Bytes → Option ℕ
unfolding parse_octet split
parse_ipv4 s = from_octets (split b'.' s)

-- A parser that moves over a prefix of its input and leaves the rest.
abbrev Reader : Type 0
Reader = Bytes → Option Bytes

read_char : ℕ → Reader
read_char c [] = none
read_char c (b ∷ bs) = if b == c then some bs else none

abbrev then_read : Option Bytes → Reader → Option Bytes
then_read none r = none
then_read (some bs) r = r bs

-- The digits in front, at most `limit` of them and up to `most` in value, and what follows them.
span_digits : Bytes → Bytes × Bytes
span_digits [] = ([], [])
span_digits (b ∷ bs) =
    let (ds, rest) = span_digits bs in if is_digit b then (b ∷ ds, rest) else ([], b ∷ bs)

-- `read_number` in base 10 with leading zeros and no limit on the digits.
read_decimal : ℕ → Reader
unfolding span_digits
read_decimal most bs =
    let (ds, rest) = span_digits bs in
    elim ds [
      | [] ↦ none
      | d ∷ more ↦ elim (parse_digits most 0 (d ∷ more)) [ none ↦ none | some _ ↦ some rest ]
    ]

-- `read_number` for an octet of an embedded IPv4 address.
read_octet : Reader
unfolding span_digits
read_octet bs =
    let (ds, rest) = span_digits bs in elim (parse_octet ds) [ none ↦ none | some _ ↦ some rest ]

read_ipv4 : Reader
unfolding read_octet read_char
read_ipv4 bs =
    then_read
      (then_read
        (then_read
          (then_read (then_read (then_read (read_octet bs) (read_char b'.')) read_octet)
            (read_char b'.'))
          read_octet)
        (read_char b'.'))
      read_octet

is_hex : ℕ → Bool
is_hex b = is_digit b || leb b'a' b && leb b b'f' || leb b'A' b && leb b b'F'

-- Up to `limit` hexadecimal digits in front.
skip_hex : ℕ → Bytes → ℕ × Bytes
skip_hex zero bs = (0, bs)
skip_hex (suc limit) [] = (0, [])
skip_hex (suc limit) (b ∷ bs) =
    let (n, rest) = skip_hex limit bs in if is_hex b then (suc n, rest) else (0, b ∷ bs)

-- A group of an IPv6 address. `read_number` fails on a fifth digit.
read_group : Reader
unfolding skip_hex is_hex
read_group bs = let (n, rest) = skip_hex 5 bs in if n == 0 || n == 5 then none else some rest

-- `read_separator`: a colon in front of every group but the first.
abbrev after_colon : Bool → Reader → Reader
after_colon first r bs = if first then r bs else then_read (read_char b':' bs) r

-- `read_groups` for at most `limit` groups: how many were read, whether the last two are an
-- embedded IPv4 address, and the rest.
read_groups : ℕ → Bool → Bytes → ℕ × Bool × Bytes
read_groups zero first bs = (0, false, bs)
read_groups (suc limit) first bs =
    let grouped : ℕ × Bool × Bytes = elim (after_colon first read_group bs) [
      | none ↦ (0, false, bs)
      | some rest ↦ let (n, v4, out) = read_groups limit false rest in (suc n, v4, out)
    ] in
    if limit == 0
    then grouped
    else elim (after_colon first read_ipv4 bs) [ none ↦ grouped | some rest ↦ (2, true, rest) ]

-- `read_ipv6_addr`.
read_ipv6 : Reader
unfolding read_groups read_ipv4 read_group read_char
read_ipv6 bs =
    let (n, v4, rest) = read_groups 8 true bs in
    if n == 8
    then some rest
    else if v4
    then none
    else elim (then_read (read_char b':' rest) (read_char b':')) [
      | none ↦ none
      | some tail ↦ let (m, w4, out) = read_groups (7 - n) true tail in some out
    ]

-- `read_scope_id`, where there is one.
read_scope : Reader
read_scope bs = elim (then_read (read_char b'%' bs) (read_decimal u32_max)) [
  | none ↦ some bs
  | some rest ↦ some rest
]

abbrev at_end : Option Bytes → Bool
at_end (some []) = true
at_end _ = false

abbrev read_port : Reader
read_port bs = then_read (read_char b':' bs) (read_decimal u16_max)

-- `s.parse::<SocketAddr>().is_ok()`.
unfoldable pub is_socket_addr : Bytes → Bool
unfolding read_ipv4 read_ipv6 read_scope read_char read_decimal
is_socket_addr s =
    at_end (then_read (read_ipv4 s) read_port)
    || at_end (
        then_read
          (then_read (then_read (then_read (read_char b'[' s) read_ipv6) read_scope)
            (read_char b']'))
          read_port)

parse_octet_le : (s : Bytes) (n : ℕ) → parse_octet s ≡ some n → n ≤ 255
unfolding parse_octet
parse_octet_le [] n h = cc
parse_octet_le (b ∷ []) n h = parse_digits_le u8_max 0 (b ∷ []) n (omega arith) h
parse_octet_le (b ∷ c ∷ bs) n h = ground (arith, parse_digits_le u8_max 0 (b ∷ c ∷ bs) n)

from_octets_lt : (ps : List Bytes) (n : ℕ) → from_octets ps ≡ some n → n < 2 ^ 32
from_octets_lt (a ∷ b ∷ c ∷ d ∷ []) n h = elim (Option-cases (parse_octet a)) [
  | inl e ↦ ground arith
  | inr (x, e) ↦ elim (Option-cases (parse_octet b)) [
    | inl f ↦ ground arith
    | inr (y, f) ↦ elim (Option-cases (parse_octet c)) [
      | inl g ↦ ground arith
      | inr (z, g) ↦ elim (Option-cases (parse_octet d)) [
        | inl k ↦ ground arith
        | inr (w, k) ↦ ground (
          arith,
          parse_octet_le a x e,
          parse_octet_le b y f,
          parse_octet_le c z g,
          parse_octet_le d w k,
        )
      ]
    ]
  ]
]
from_octets_lt _ n h = cc

-- A parsed address has 32 bits.
pub parse_ipv4_lt : (s : Bytes) (n : ℕ) → parse_ipv4 s ≡ some n → n < 2 ^ 32
unfolding parse_ipv4
parse_ipv4_lt s n h = from_octets_lt (split b'.' s) n h
