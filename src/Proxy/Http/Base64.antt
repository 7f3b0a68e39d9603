-- ===== src/Proxy/Http/Base64.antt =====
-- The base64 encoder against a decoder that reads the alphabet of RFC 4648 by its ranges.
use nsproxy_rs.Base.{
  ℕ, zero, suc, ◌+◌, ◌-◌, ◌*◌, ◌/◌, ◌%◌, ◌^◌, ◌<◌, ◌≡◌, refl, ap, inl, inr, Bool, true, false, not,
  ◌&&◌, [], ◌∷◌, Bytes, leb, ◌==◌, if◌then◌else◌, arith, IsBytes, Bool-cases,
}
use nsproxy_rs.Proxy.Http.{symbol, base64_encode}

-- The value of a symbol: `A` to `Z`, `a` to `z`, `0` to `9`, `+` and `/`.
abbrev pub value : ℕ → ℕ
value c =
    if leb b'A' c && leb c b'Z'
    then c - b'A'
    else if leb b'a' c && leb c b'z'
    then c - b'a' + 26
    else if leb b'0' c && leb c b'9'
    then c - b'0' + 52
    else if c == b'+'
    then 62
    else 63

-- Four symbols give three bytes; two padding symbols leave one byte and one leaves two.
abbrev pub decode : Bytes → Bytes
decode (p ∷ q ∷ r ∷ s ∷ rest) =
    let bits = value p * 2 ^ 18 + value q * 2 ^ 12 + value r * 2 ^ 6 + value s in
    let first = (value p * 2 ^ 18 + value q * 2 ^ 12) / 2 ^ 16 in
    let more = decode rest in
    if r == b'='
    then first ∷ []
    else if s == b'='
    then bits / 2 ^ 16 ∷ bits / 2 ^ 8 % 256 ∷ []
    else bits / 2 ^ 16 ∷ bits / 2 ^ 8 % 256 ∷ bits % 256 ∷ more
decode _ = []

-- A test that holds at every number below a bound.
abbrev below : ℕ → (ℕ → Bool) → Bool
below zero test = true
below (suc n) test = test n && below n test

below-true : (n : ℕ) (test : ℕ → Bool) (i : ℕ) → below n test ≡ true → i < n → test i ≡ true
below-true zero test i h k = absurd (omega arith)
below-true (suc n) test i h k = elim (Bool-cases (i == n)) [
  | inl e ↦ (let same : i ≡ n = ground arith in rw same (ground arith))
  | inr e ↦ below-true n test i (ground arith) (ground arith)
]

round_trips : ℕ → Bool
unfolding symbol
round_trips i = value (symbol i) == i && not (symbol i == b'=')

symbols : below 64 round_trips ≡ true
unfolding round_trips symbol
symbols = refl

symbol-facts : (i : ℕ) → i < 64 → (value (symbol i) ≡ i) × ((symbol i == b'=') ≡ false)
symbol-facts i h =
    let holds : round_trips i ≡ true = below-true 64 round_trips i symbols h in
    unfold round_trips in (ground arith, ground arith)

cons-eq : {x y : ℕ} {xs ys : Bytes} → x ≡ y → xs ≡ ys → x ∷ xs ≡ y ∷ ys
cons-eq e f = rw (e, f) refl

value-symbol : (i : ℕ) → value (symbol (i % 64)) ≡ i % 64
value-symbol i = (symbol-facts (i % 64) (omega arith)).0

not_padding : (i : ℕ) → (symbol (i % 64) == b'=') ≡ false
not_padding i = (symbol-facts (i % 64) (omega arith)).1

-- Decoding what the encoder gives returns the bytes, for every length.
pub decode-base64_encode : (bs : Bytes) → IsBytes bs → decode (base64_encode bs) ≡ bs
unfolding base64_encode
decode-base64_encode [] h = refl
decode-base64_encode (a ∷ []) h =
    let w : ℕ = a * 2 ^ 16 in
    rw (value-symbol (w / 2 ^ 18), value-symbol (w / 2 ^ 12))
      (ap (λ x. x ∷ []) (omega (arith, h.0)))
decode-base64_encode (a ∷ b ∷ []) h =
    let w : ℕ = a * 2 ^ 16 + b * 2 ^ 8 in
    rw
      (
        not_padding (w / 2 ^ 6),
        value-symbol (w / 2 ^ 18),
        value-symbol (w / 2 ^ 12),
        value-symbol (w / 2 ^ 6),
      )
      (cons-eq (omega (arith, h.0, h.1.0)) (cons-eq (omega (arith, h.0, h.1.0)) refl))
decode-base64_encode (a ∷ b ∷ c ∷ bs) h =
    let w : ℕ = a * 2 ^ 16 + b * 2 ^ 8 + c in
    rw
      (
        not_padding (w / 2 ^ 6),
        not_padding w,
        value-symbol (w / 2 ^ 18),
        value-symbol (w / 2 ^ 12),
        value-symbol (w / 2 ^ 6),
        value-symbol w,
      )
      (cons-eq (omega (arith, h.0, h.1.0, h.1.1.0)) (
        cons-eq (omega (arith, h.0, h.1.0, h.1.1.0))
          (cons-eq (omega (arith, h.0, h.1.0, h.1.1.0)) (decode-base64_encode bs h.1.1.1))))
