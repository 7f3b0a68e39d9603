-- ===== src/Base/Text.antt =====
-- Text as bytes: literals, UTF-8, and the functions of `str` that the program uses.
pub mod Pieces
use Prim.Native.Nat.{ℕ, zero, suc}
use Prim.Native.Char.{code}
use Prim.Native.String.{String}
use mathlib.Core.Path.{◌≡◌, refl, ap, ◌∙◌}
use mathlib.Core.Logic.{inl, inr}
use mathlib.Core.Bool.{Bool, false, ◌&&◌, ◌||◌}
use mathlib.Core.List.{List, [], ◌∷◌, ◌++◌}
use mathlib.Core.Option.{Option, none, some}
use native.Mathlib.Omega.{arith}
use nsproxy_rs.Base.Tests.{ltb, leb, ◌==◌, if◌then◌else◌, Option-cases}
use nsproxy_rs.Base.Lists.{Bytes, All}

-- The bytes of an ASCII literal.
abbrev pub codes : String → Bytes
codes String.[] = []
codes (String.◌∷◌ c s) = code c ∷ codes s

-- What a lead byte of UTF-8 asks for: the number of bytes behind it, and the range of the first.
abbrev utf8_lead : ℕ → Option (ℕ × ℕ × ℕ)
utf8_lead b =
    if ltb b 0x80
    then some (0, 0, 0)
    else if ltb b 0xC2
    then none
    else if ltb b 0xE0
    then some (1, 0x80, 0xBF)
    else if b == 0xE0
    then some (2, 0xA0, 0xBF)
    else if b == 0xED
    then some (2, 0x80, 0x9F)
    else if ltb b 0xF0
    then some (2, 0x80, 0xBF)
    else if b == 0xF0
    then some (3, 0x90, 0xBF)
    else if ltb b 0xF4
    then some (3, 0x80, 0xBF)
    else if b == 0xF4
    then some (3, 0x80, 0x8F)
    else none

utf8_from : ℕ → ℕ → ℕ → Bytes → Bool
utf8_from need lo hi [] = need == 0
utf8_from zero lo hi (b ∷ bs) = elim (utf8_lead b) [
  | none ↦ false
  | some (n, l, h) ↦ utf8_from n l h bs
]
utf8_from (suc n) lo hi (b ∷ bs) =
    let rest = utf8_from n 0x80 0xBF bs in if leb lo b && leb b hi then rest else false

-- `str::from_utf8` succeeds.
unfoldable pub is_utf8 : Bytes → Bool
unfolding utf8_from
is_utf8 = utf8_from 0 0 0

-- The first byte is put in front of the first piece.
abbrev pub onto_first : ℕ → List Bytes → List Bytes
onto_first c [] = (c ∷ []) ∷ []
onto_first c (p ∷ ps) = (c ∷ p) ∷ ps

-- `s.split(c)`: the pieces between the occurrences of `c`, at least one.
unfoldable pub split : ℕ → Bytes → List Bytes
split c [] = [] ∷ []
split c (b ∷ bs) = if b == c then [] ∷ split c bs else onto_first b (split c bs)

-- `pieces.join(c)`.
unfoldable pub join : ℕ → List Bytes → Bytes
join c [] = []
join c (p ∷ []) = p
join c (p ∷ q ∷ ps) = p ++ c ∷ join c (q ∷ ps)

-- `s.split_once(c)`: around the first occurrence.
unfoldable pub split_once : ℕ → Bytes → Option (Bytes × Bytes)
split_once c [] = none
split_once c (b ∷ bs) =
    if b == c
    then some ([], bs)
    else elim (split_once c bs) [ none ↦ none | some (x, y) ↦ some (b ∷ x, y) ]

-- `s.rsplit_once(c)`: around the last occurrence.
unfoldable pub rsplit_once : ℕ → Bytes → Option (Bytes × Bytes)
rsplit_once c [] = none
rsplit_once c (b ∷ bs) = elim (rsplit_once c bs) [
  | none ↦ if b == c then some ([], bs) else none
  | some (x, y) ↦ some (b ∷ x, y)
]

-- `s.strip_prefix(p)`.
unfoldable pub strip_prefix : Bytes → Bytes → Option Bytes
strip_prefix [] s = some s
strip_prefix (p ∷ ps) [] = none
strip_prefix (p ∷ ps) (b ∷ bs) = let rest = strip_prefix ps bs in if p == b then rest else none

-- `s.contains(c)`.
unfoldable pub contains : ℕ → Bytes → Bool
contains c [] = false
contains c (b ∷ bs) = b == c || contains c bs

pub split-append :
    (c : ℕ) (p s : Bytes) → contains c p ≡ false → split c (p ++ c ∷ s) ≡ p ∷ split c s
unfolding split contains
split-append c [] s h = ground arith
split-append c (b ∷ p) s h = ground (arith, split-append c p s)

pub split_whole : (c : ℕ) (p : Bytes) → contains c p ≡ false → split c p ≡ p ∷ []
unfolding split contains
split_whole c [] h = refl
split_whole c (b ∷ p) h = ground (arith, split_whole c p)

-- Pieces without the separator are found again.
pub split-join :
    (c : ℕ) (p : Bytes) (ps : List Bytes)
    → All (λ q. contains c q ≡ false) (p ∷ ps)
    → split c (join c (p ∷ ps)) ≡ p ∷ ps
unfolding join
split-join c p [] h = split_whole c p h.0
split-join c p (q ∷ ps) h =
    split-append c p (join c (q ∷ ps)) h.0 ∙ ap (◌∷◌ p) (split-join c q ps h.1)

pub split_once-append :
    (c : ℕ) (p s : Bytes) → contains c p ≡ false → split_once c (p ++ c ∷ s) ≡ some (p, s)
unfolding split_once contains
split_once-append c [] s h = ground arith
split_once-append c (b ∷ p) s h = ground (arith, split_once-append c p s)

pub split_once_absent : (c : ℕ) (p : Bytes) → contains c p ≡ false → split_once c p ≡ none
unfolding split_once contains
split_once_absent c [] h = refl
split_once_absent c (b ∷ p) h = ground (arith, split_once_absent c p)

pub strip_prefix-append : (p s : Bytes) → strip_prefix p (p ++ s) ≡ some s
unfolding strip_prefix
strip_prefix-append [] s = refl
strip_prefix-append (b ∷ p) s = ground (arith, strip_prefix-append p s)

pub rsplit_once_absent : (c : ℕ) (p : Bytes) → contains c p ≡ false → rsplit_once c p ≡ none
unfolding rsplit_once contains
rsplit_once_absent c [] h = refl
rsplit_once_absent c (b ∷ p) h = ground (arith, rsplit_once_absent c p)

pub rsplit_once-append :
    (c : ℕ) (p s : Bytes) → contains c s ≡ false → rsplit_once c (p ++ c ∷ s) ≡ some (p, s)
unfolding rsplit_once
rsplit_once-append c [] s h = ground (arith, rsplit_once_absent c s)
rsplit_once-append c (b ∷ p) s h = ground (arith, rsplit_once-append c p s)

pub contains_of_rsplit_once : (c : ℕ) (s : Bytes) → rsplit_once c s ≡ none → contains c s ≡ false
unfolding rsplit_once contains
contains_of_rsplit_once c [] h = refl
contains_of_rsplit_once c (b ∷ s) h = ground (arith, contains_of_rsplit_once c s)

-- Behind the last occurrence there is no other.
pub rsplit_once-contains :
    (c : ℕ) (s x y : Bytes) → rsplit_once c s ≡ some (x, y) → contains c y ≡ false
unfolding rsplit_once contains
rsplit_once-contains c [] x y h = cc
rsplit_once-contains c (b ∷ s) x y h = elim (Option-cases (rsplit_once c s)) [
  | inl e ↦ ground (arith, contains_of_rsplit_once c s)
  | inr ((u, v), e) ↦ ground (arith, rsplit_once-contains c s u v e)
]
