-- ===== src/DnsPacket.antt =====
-- src/fake_dns.rs: the packet helpers `parse_query`, `build_a_response`, `build_empty_response` and
-- `encode_name`. A datagram is a list of bytes and a `String` its UTF-8 bytes.
pub mod Safety
pub mod RoundTrip
pub mod Names
pub mod Queries
pub mod Responses
use nsproxy_rs.Base.{
  ℕ, zero, suc, ◌+◌, ◌-◌, ◌*◌, ◌/◌, ◌%◌, ◌^◌, Bool, true, false, ◌||◌, List, [], ◌∷◌, ◌++◌, Option,
  none, some, Bytes, Exec, ret, panic, out_of_fuel, length, take, drop, get_elem?, ltb, leb, ◌==◌,
  if◌then◌else◌,
}
use nsproxy_rs.Base.Text.{is_utf8, join, split}

-- `u16::from_be_bytes` and `to_be_bytes`.
abbrev pub be16 : ℕ → ℕ → ℕ
be16 a b = a * 256 + b

abbrev pub to_be16 : ℕ → Bytes
to_be16 n = n / 256 % 256 ∷ n % 256 ∷ []

abbrev pub to_be32 : ℕ → Bytes
to_be32 n = n / 2 ^ 24 % 256 ∷ n / 2 ^ 16 % 256 ∷ n / 256 % 256 ∷ n % 256 ∷ []

-- `x & (1 << k) != 0`.
abbrev pub test_bit : ℕ → ℕ → Bool
test_bit x k = x / 2 ^ k % 2 == 1

-- Code that indexes (and panics out of range) and leaves by `return None`.
abbrev pub Parse : Type 0 → Type 0
Parse A = Exec (Option A)

infixl 5 ◌>>=◌ ◌>>◌
abbrev pub ◌>>=◌ : {A B : Type 0} → Parse A → (A → Parse B) → Parse B
ret (some a) >>= f = f a
ret none >>= f = ret none
panic >>= f = panic
out_of_fuel >>= f = out_of_fuel

abbrev pub ◌>>◌ : {B : Type 0} → Parse (Unit {0}) → Parse B → Parse B
m >> k = m >>= λ _. k

abbrev pub return : {A : Type 0} → A → Parse A
return a = ret (some a)

abbrev pub return_none : {A : Type 0} → Parse A
return_none = ret none

-- `if b { return None; }`
abbrev pub none_if : Bool → Parse (Unit {0})
none_if true = return_none
none_if false = return tt

-- `data[i]`
unfoldable pub at : Bytes → ℕ → Parse ℕ
at bytes i = elim (get_elem? bytes i) [ none ↦ panic | some b ↦ return b ]

-- `&data[from..end]`
unfoldable pub slice : Bytes → ℕ → ℕ → Parse Bytes
slice bytes from end =
    if ltb end from || ltb (length bytes) end
    then panic
    else return (take (end - from) (drop from bytes))

-- `std::str::from_utf8(bytes).ok()?`
abbrev pub utf8 : Bytes → Parse Bytes
utf8 bytes = if is_utf8 bytes then return bytes else return_none

-- The loop over the labels, from `pos`: the labels read and the position behind them.
unfoldable pub read_labels : ℕ → Bytes → ℕ → List Bytes → Parse (List Bytes × ℕ)
read_labels zero bytes pos labels = out_of_fuel
read_labels (suc fuel) bytes pos labels = do
  none_if (leb (length bytes) pos)
  label_len ← at bytes pos
  elim (label_len == 0) [
    | true ↦ return (labels, pos + 1)
    | false ↦ do
      none_if (test_bit label_len 7 || test_bit label_len 6)
      none_if (ltb (length bytes) (pos + 1 + label_len))
      label ← slice bytes (pos + 1) (pos + 1 + label_len)
      label ← utf8 label
      read_labels fuel bytes (pos + 1 + label_len) (labels ++ label ∷ [])
  ]

-- One round for each byte is more than enough, since each round moves `pos` forward.
unfoldable pub parse_query : Bytes → Parse (ℕ × Bytes × ℕ)
parse_query bytes = do
  none_if (ltb (length bytes) 12)
  let id = be16 (← at bytes 0) (← at bytes 1)
  let flags = be16 (← at bytes 2) (← at bytes 3)
  none_if (test_bit flags 15)
  let qdcount = be16 (← at bytes 4) (← at bytes 5)
  none_if (qdcount == 0)
  (labels, pos) ← read_labels (suc (length bytes)) bytes 12 []
  none_if (ltb (length bytes) (pos + 4))
  let qtype = be16 (← at bytes pos) (← at bytes (pos + 1))
  return (id, join b'.' labels, qtype)

encode_labels : List Bytes → Bytes
encode_labels [] = []
encode_labels (label ∷ labels) = length label % 256 ∷ (label ++ encode_labels labels)

-- What `encode_name` appends to the packet.
unfoldable pub encode_name : Bytes → Bytes
unfolding encode_labels
encode_name [] = 0 ∷ []
encode_name (c ∷ cs) = encode_labels (split b'.' (c ∷ cs)) ++ 0 ∷ []

-- The twelve bytes of a header with the given flags and number of answers.
abbrev header : ℕ → ℕ → Bytes
header id ancount =
    to_be16 id ++ to_be16 0x8180 ++ to_be16 1 ++ to_be16 ancount ++ to_be16 0 ++ to_be16 0

unfoldable pub build_a_response : ℕ → Bytes → ℕ → Bytes
build_a_response id domain ip =
    header id 1
    ++ (encode_name domain ++ (to_be16 1 ++ to_be16 1))
    ++ (to_be16 0xC00C ++ to_be16 1 ++ to_be16 1 ++ to_be32 300 ++ to_be16 4 ++ to_be32 ip)

unfoldable pub build_empty_response : ℕ → Bytes → ℕ → Bytes
build_empty_response id domain qtype =
    header id 0 ++ (encode_name domain ++ (to_be16 qtype ++ to_be16 1))
