-- ===== src/Std/Number.antt =====
-- `str::parse` for unsigned integers, and the decimal text of a number.
use nsproxy_rs.Base.{
  ℕ, zero, suc, ◌+◌, ◌-◌, ◌*◌, ◌/◌, ◌%◌, ◌≤◌, ◌≡◌, Bool, ◌&&◌, [], ◌∷◌, Option, none, some, Bytes,
  arith, leb, ◌==◌, if◌then◌else◌,
}

abbrev pub is_digit : ℕ → Bool
is_digit b = leb b'0' b && leb b b'9'

-- The digits from left to right; a value above `max` is an overflow.
unfoldable pub parse_digits : ℕ → ℕ → Bytes → Option ℕ
parse_digits max acc [] = some acc
parse_digits max acc (b ∷ bs) =
    let next = acc * 10 + (b - b'0') in
    let rest = parse_digits max next bs in if is_digit b && leb next max then rest else none

-- `s.parse()` into an unsigned integer: an optional `+`, and at least one digit.
unfoldable pub parse_uint : ℕ → Bytes → Option ℕ
unfolding parse_digits
parse_uint max [] = none
parse_uint max (b ∷ []) = parse_digits max 0 (b ∷ [])
parse_uint max (b ∷ c ∷ bs) =
    if b == b'+' then parse_digits max 0 (c ∷ bs) else parse_digits max 0 (b ∷ c ∷ bs)

abbrev pub u8_max : ℕ
u8_max = 255

abbrev pub u16_max : ℕ
u16_max = 65535

abbrev pub u32_max : ℕ
u32_max = 4294967295

pub parse_digits_le :
    (max acc : ℕ) (bs : Bytes) (n : ℕ) → acc ≤ max → parse_digits max acc bs ≡ some n → n ≤ max
unfolding parse_digits
parse_digits_le max acc [] n h e = ground arith
parse_digits_le max acc (b ∷ bs) n h e =
    ground (arith, parse_digits_le max (acc * 10 + (b - b'0')) bs n)

-- A parsed number is within the type's range.
pub parse_uint_le : (max : ℕ) (bs : Bytes) (n : ℕ) → parse_uint max bs ≡ some n → n ≤ max
unfolding parse_uint
parse_uint_le max [] n e = ground arith
parse_uint_le max (b ∷ []) n e = parse_digits_le max 0 (b ∷ []) n (omega arith) e
parse_uint_le max (b ∷ c ∷ bs) n e = ground (
  arith,
  parse_digits_le max 0 (b ∷ c ∷ bs) n (omega arith),
  parse_digits_le max 0 (c ∷ bs) n (omega arith),
)

-- The decimal text of a number, most significant digit first.
pub digits_onto : ℕ → ℕ → Bytes → Bytes
digits_onto zero n rest = rest
digits_onto (suc fuel) n rest =
    let more = digits_onto fuel (n / 10) ((b'0' + n % 10) ∷ rest) in
    if n / 10 == 0 then (b'0' + n % 10) ∷ rest else more

-- The `Display` of an unsigned integer; a number has no more digits than its size plus one.
unfoldable pub decimal : ℕ → Bytes
unfolding digits_onto
decimal n = digits_onto (suc n) n []
