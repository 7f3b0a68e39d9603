-- ===== src/Proxy/Stream/Reads.antt =====
-- Reading a proxy stream gives the prefetched bytes first, and loses none.
use native.Mathlib.Nat.{suc-add}
use nsproxy_rs.Base.{
  ℕ, zero, suc, ◌+◌, ◌≤◌, ◌≡◌, refl, sym, ap, ◌∙◌, inl, inr, List, [], ◌∷◌, ◌++◌, Bytes, length,
  take, drop, ltb, min, arith, Bool-cases, take-append-drop, append_assoc,
}
use nsproxy_rs.Proxy.Stream.{ProxyStream, has_buffered_data, try_read}

-- What a reader of the stream has still to see: the rest of the buffer, then the connection.
abbrev pub remaining : ProxyStream → Bytes
remaining s = drop s.position s.buffered ++ s.inner.input

-- The bytes of a sequence of reads, each with the size of its buffer and the bytes that are ready.
abbrev pub read_all : ProxyStream → List (ℕ × ℕ) → Bytes × ProxyStream
read_all s [] = ([], s)
read_all s ((n, ready) ∷ reads) =
    let (bytes, s1) = try_read n ready s in
    let (more, s2) = read_all s1 reads in (bytes ++ more, s2)

drop_nil : (n : ℕ) → drop {A = ℕ} n [] ≡ []
drop_nil zero = refl
drop_nil (suc n) = refl

drop-drop : (n k : ℕ) (xs : Bytes) → drop (n + k) xs ≡ drop k (drop n xs)
drop-drop zero k xs = ap (λ m. drop m xs) (omega arith)
drop-drop (suc n) k [] = drop_nil (suc n + k) ∙ sym (drop_nil k)
drop-drop (suc n) k (x ∷ xs) = rw (suc-add n k) (drop-drop n k xs)

drop-take : (n : ℕ) (xs : Bytes) → drop (length (take n xs)) xs ≡ drop n xs
drop-take zero xs = refl
drop-take (suc n) [] = refl
drop-take (suc n) (x ∷ xs) = drop-take n xs

drop_all : (n : ℕ) (xs : Bytes) → length xs ≤ n → drop n xs ≡ []
drop_all zero [] h = refl
drop_all zero (x ∷ xs) h = absurd (omega arith)
drop_all (suc n) [] h = refl
drop_all (suc n) (x ∷ xs) h = drop_all n xs (omega arith)

buffered_read :
    (pos n : ℕ) (buffered input : Bytes)
    → take n (drop pos buffered)
        ++ (drop (pos + length (take n (drop pos buffered))) buffered ++ input)
      ≡ drop pos buffered ++ input
buffered_read pos n buffered input =
    rw
      (
        drop-drop pos (length (take n (drop pos buffered))) buffered,
        drop-take n (drop pos buffered),
      )
      (sym (append_assoc (take n (drop pos buffered)) _ input)
        ∙ ap (λ b. b ++ input) (take-append-drop n (drop pos buffered)))

try_read-remaining :
    (n ready : ℕ) (s : ProxyStream)
    → (try_read n ready s).0 ++ remaining (try_read n ready s).1 ≡ remaining s
unfolding try_read has_buffered_data
try_read-remaining n ready s = elim (Bool-cases (ltb s.position (length s.buffered))) [
  | inl e ↦ rw e (buffered_read s.position n s.buffered s.inner.input)
  | inr e ↦
      rw (e, drop_all s.position s.buffered (ground arith))
        (take-append-drop (min n ready) s.inner.input)
]

-- Whatever the sizes of the buffers and of what arrives, the reads give the prefetched bytes and then
-- those of the connection, each once and in order.
pub read_all-remaining :
    (s : ProxyStream) (reads : List (ℕ × ℕ))
    → (read_all s reads).0 ++ remaining (read_all s reads).1 ≡ remaining s
read_all-remaining s [] = refl
read_all-remaining s ((n, ready) ∷ reads) =
    append_assoc (try_read n ready s).0 _ _
    ∙ ap (◌++◌ (try_read n ready s).0) (read_all-remaining (try_read n ready s).1 reads)
    ∙ try_read-remaining n ready s
