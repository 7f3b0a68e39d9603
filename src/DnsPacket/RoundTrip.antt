-- ===== src/DnsPacket/RoundTrip.antt =====
-- `parse_query` and `encode_name` against the wire format of names.
use nsproxy_rs.Base.{
  ℕ, zero, suc, ◌+◌, ◌-◌, ◌≤◌, ◌<◌, ◌≡◌, sym, true, false, ◌||◌, List, [], ◌∷◌, ◌++◌, Bytes, length,
  take, drop, arith, All, ltb, leb, ◌==◌, length-append, append_assoc, append-nil, get_elem?-append,
  take-length-append, drop-length-append,
}
use nsproxy_rs.Base.Text.{is_utf8, contains}
use nsproxy_rs.DnsPacket.{◌>>=◌, return, test_bit, at, slice, read_labels}

-- What RFC 1035 allows in a label, with no dot inside.
pub record IsLabel (l : Bytes) : Type 0 where
  pub ne_nil : 1 ≤ length l
  pub short : length l ≤ 63
  pub text : is_utf8 l ≡ true
  pub no_dot : contains b'.' l ≡ false

-- The wire format of a name: each label behind its length, and an empty label.
abbrev pub wire_name : List Bytes → Bytes
wire_name [] = 0 ∷ []
wire_name (l ∷ ls) = length l ∷ (l ++ wire_name ls)

slice_lem :
    (bytes : Bytes) (from n : ℕ)
    → from + n ≤ length bytes
    → slice bytes from (from + n) ≡ return (take n (drop from bytes))
unfolding slice
slice_lem bytes from n h =
    let inside : (ltb (from + n) from || ltb (length bytes) (from + n)) ≡ false = ground arith in
    let size : from + n - from ≡ n = omega arith in rw (inside, size)

slice-append :
    (xs l rest : Bytes) → slice (xs ++ (l ++ rest)) (length xs) (length xs + length l) ≡ return l
slice-append xs l rest =
    rw
      (slice_lem (xs ++ (l ++ rest)) (length xs) (length l)
        (omega (arith, length-append xs (l ++ rest), length-append l rest)))
      (rw (drop-length-append xs (l ++ rest), take-length-append l rest))

pub at-append : (xs : Bytes) (b : ℕ) (rest : Bytes) → at (xs ++ b ∷ rest) (length xs) ≡ return b
unfolding at
at-append xs b rest = rw (get_elem?-append xs b rest, at)

module _ (xs l rest : Bytes) (h : IsLabel l) where
  abbrev around : Bytes
  around = xs ++ length l ∷ (l ++ rest)

  regroup : around ≡ (xs ++ length l ∷ []) ++ (l ++ rest)
  regroup = sym (append_assoc xs (length l ∷ []) (l ++ rest))

  length-around : length around ≡ length xs + 1 + length l + length rest
  length-around = omega (arith, length-append xs (length l ∷ (l ++ rest)), length-append l rest)

  slice-around : slice around (length xs + 1) (length xs + 1 + length l) ≡ return l
  slice-around =
      let n : length (xs ++ length l ∷ []) ≡ length xs + 1 =
        omega (arith, length-append xs (length l ∷ [])) in
      rw (regroup, ← n) (slice-append (xs ++ length l ∷ []) l rest)

  read_labels-round :
      (fuel : ℕ) (labels : List Bytes)
      → read_labels (suc fuel) around (length xs) labels
        ≡ read_labels fuel around (length xs + 1 + length l) (labels ++ l ∷ [])
  unfolding read_labels
  read_labels-round fuel labels =
      let inside : leb (length around) (length xs) ≡ false = ground (arith, length-around) in
      let more : (length l == 0) ≡ false = ground (arith, h.ne_nil) in
      let plain : (test_bit (length l) 7 || test_bit (length l) 6) ≡ false =
        ground (arith, h.short) in
      let fits : ltb (length around) (length xs + 1 + length l) ≡ false =
        ground (arith, length-around) in
      rw (inside, at-append xs (length l) (l ++ rest))
        (rw (more, ◌>>=◌) (rw (plain, fits, slice-around, ◌>>=◌) (rw (h.text, ◌>>=◌))))

read_labels_end :
    (xs rest : Bytes) (fuel : ℕ) (labels : List Bytes)
    → read_labels (suc fuel) (xs ++ 0 ∷ rest) (length xs) labels ≡ return (labels, length xs + 1)
unfolding read_labels
read_labels_end xs rest fuel labels =
    let inside : leb (length (xs ++ 0 ∷ rest)) (length xs) ≡ false =
      ground (arith, length-append xs (0 ∷ rest)) in
    rw (inside, at-append xs 0 rest)

-- The loop reads back every label of a name, whatever stands around it.
pub read_labels-wire_name :
    (ls : List Bytes) (xs rest : Bytes) (fuel : ℕ) (labels : List Bytes)
    → All IsLabel ls
    → length ls < fuel
    → read_labels fuel (xs ++ (wire_name ls ++ rest)) (length xs) labels
      ≡ return (labels ++ ls, length xs + length (wire_name ls))
read_labels-wire_name [] xs rest (suc fuel) labels h f =
    rw (append-nil labels) (read_labels_end xs rest fuel labels)
read_labels-wire_name (l ∷ ls) xs rest (suc fuel) labels h f =
    let ys = xs ++ length l ∷ l in
    let bytes : xs ++ (wire_name (l ∷ ls) ++ rest)
        ≡ xs ++ length l ∷ (l ++ (wire_name ls ++ rest)) =
      simp append_assoc in
    let later : xs ++ length l ∷ (l ++ (wire_name ls ++ rest)) ≡ ys ++ (wire_name ls ++ rest) =
      simp append_assoc in
    let n : length ys ≡ length xs + 1 + length l = omega (arith, length-append xs (length l ∷ l)) in
    let ends : length ys + length (wire_name ls) ≡ length xs + length (wire_name (l ∷ ls)) =
      omega (arith, length-append xs (length l ∷ l), length-append l (wire_name ls)) in
    cc (
      bytes,
      later,
      n,
      ends,
      read_labels-round xs l (wire_name ls ++ rest) h.0 fuel labels,
      read_labels-wire_name ls ys rest fuel (labels ++ l ∷ []) h.1 (omega arith),
      append_assoc labels (l ∷ []) ls,
    )
read_labels-wire_name _ xs rest zero labels h f = absurd (omega arith)
