-- ===== src/DnsPacket/Safety.antt =====
-- No datagram makes `parse_query` index out of range, and its loop ends.
use nsproxy_rs.Base.{
  ℕ, zero, suc, ◌+◌, ◌-◌, ◌≤◌, ◌<◌, ◌≡◌, refl, inl, inr, Bool, true, false, ◌||◌, List, [], ◌∷◌,
  ◌++◌, Option, none, some, Bytes, ret, length, take, drop, get_elem?-lt, arith, ltb, leb, ◌==◌,
  Bool-cases,
}
use nsproxy_rs.Base.Text.{is_utf8}
use nsproxy_rs.DnsPacket.{
  be16, Parse, ◌>>=◌, ◌>>◌, none_if, test_bit, at, slice, utf8, read_labels, parse_query,
}

-- The run returns, and a value that it returns satisfies `P`.
pub data Returns {A : Type 0} (P : A → Type 0) : Parse A → Type 0 where
  no_value : Returns P (ret none)
  value : {a : A} → P a → Returns P (ret (some a))

module _ {B : Type 0} {Q : B → Type 0} where
  pub Returns-bind :
      {A : Type 0} (P : A → Type 0) {m : Parse A} (f : A → Parse B)
      → Returns P m
      → ((a : A) → P a → Returns Q (f a))
      → Returns Q (m >>= f)
  Returns-bind P f no_value k = no_value
  Returns-bind P f (value {a} h) k = k a h

  pub Returns-none_if :
      (b : Bool) (k : Parse B) → (b ≡ false → Returns Q k) → Returns Q (none_if b >> k)
  Returns-none_if true k h = no_value
  Returns-none_if false k h = h refl

  pub Returns-at :
      (bytes : Bytes) (i : ℕ) (f : ℕ → Parse B)
      → i < length bytes
      → ((b : ℕ) → Returns Q (f b))
      → Returns Q (at bytes i >>= f)
  unfolding at
  Returns-at bytes i f h k = let (b, e) = get_elem?-lt bytes i h in rw (e, at) (k b)

  Returns-slice :
      (bytes : Bytes) (from end : ℕ) (f : Bytes → Parse B)
      → from ≤ end
      → end ≤ length bytes
      → ((b : Bytes) → Returns Q (f b))
      → Returns Q (slice bytes from end >>= f)
  unfolding slice
  Returns-slice bytes from end f h k later =
      ground (arith, later (take (end - from) (drop from bytes)))

  Returns-utf8 :
      (bytes : Bytes) (f : Bytes → Parse B)
      → ((b : Bytes) → Returns Q (f b))
      → Returns Q (utf8 bytes >>= f)
  Returns-utf8 bytes f later = elim (Bool-cases (is_utf8 bytes)) [
    | inl e ↦ rw e (later bytes)
    | inr e ↦ rw e no_value
  ]

abbrev Ends : Bytes → List Bytes × ℕ → Type 0
Ends bytes r = r.1 ≤ length bytes

-- The part of a round behind the test for the end of the name.
Returns-round :
    (bytes : Bytes) (pos label_len : ℕ) (labels : List Bytes)
    (next : List Bytes → Parse (List Bytes × ℕ))
    → (pos + 1 + label_len ≤ length bytes → (ls : List Bytes) → Returns (Ends bytes) (next ls))
    → Returns (Ends bytes) (do
      none_if (test_bit label_len 7 || test_bit label_len 6)
      none_if (ltb (length bytes) (pos + 1 + label_len))
      label ← slice bytes (pos + 1) (pos + 1 + label_len)
      label ← utf8 label
      next (labels ++ label ∷ []))
Returns-round bytes pos label_len labels next later =
    Returns-none_if (test_bit label_len 7 || test_bit label_len 6) _ λ _.
      Returns-none_if (ltb (length bytes) (pos + 1 + label_len)) _ λ fits.
        let within : pos + 1 + label_len ≤ length bytes = ground arith in
        Returns-slice bytes (pos + 1) (pos + 1 + label_len) _ (omega arith) within
          λ label. Returns-utf8 label _ λ label. later within _

Returns-read_labels :
    (fuel : ℕ) (bytes : Bytes) (pos : ℕ) (labels : List Bytes)
    → length bytes < pos + fuel
    → pos ≤ length bytes
    → Returns (Ends bytes) (read_labels fuel bytes pos labels)
unfolding read_labels
Returns-read_labels zero bytes pos labels h k = absurd (omega arith)
Returns-read_labels (suc fuel) bytes pos labels h k =
    Returns-none_if (leb (length bytes) pos) _ λ inside.
      Returns-at bytes pos _ (ground arith) λ label_len. elim (Bool-cases (label_len == 0)) [
        | inl end ↦ rw end (value (ground arith))
        | inr more ↦ rw more (
            Returns-round bytes pos label_len labels _
              λ fits ls. Returns-read_labels fuel bytes (pos + 1 + label_len) ls (omega arith) fits)
      ]

pub Returns-total :
    {A : Type 0} {P : A → Type 0} {m : Parse A} → Returns P m → (r : Option A) × (m ≡ ret r)
Returns-total no_value = (none, refl)
Returns-total (value {a} h) = (some a, refl)

-- On every datagram `parse_query` returns: it never indexes out of range, and its loop ends.
pub parse_query_total : (bytes : Bytes) → (r : Option (ℕ × Bytes × ℕ)) × (parse_query bytes ≡ ret r)
unfolding parse_query
parse_query_total bytes = Returns-total {P = λ _. Unit {0}} {m = parse_query bytes} (
    Returns-none_if (ltb (length bytes) 12) _ λ long. Returns-at bytes 0 _ (ground arith) λ a.
      Returns-at bytes 1 _ (ground arith) λ b. Returns-at bytes 2 _ (ground arith) λ c.
        Returns-at bytes 3 _ (ground arith) λ d. Returns-none_if (test_bit (be16 c d) 15) _ λ query.
          Returns-at bytes 4 _ (ground arith) λ e. Returns-at bytes 5 _ (ground arith) λ f.
            Returns-none_if (be16 e f == 0) _ λ some_question.
              Returns-bind (Ends bytes) _
                (Returns-read_labels (suc (length bytes)) bytes 12 [] (ground arith) (ground arith))
                λ r ends. Returns-none_if (ltb (length bytes) (r.1 + 4)) _ λ fits.
                  Returns-at bytes r.1 _ (ground arith)
                    λ g. Returns-at bytes (r.1 + 1) _ (ground arith) λ h. value tt)
