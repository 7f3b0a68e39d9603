-- ===== src/Proxy/Http/Lines.antt =====
-- Reading lines through the buffer: the line that `read_line` gives, and what is left, depend only on
-- the bytes of the connection, not on how they arrive.
use nsproxy_rs.Base.{
  ℕ, zero, suc, ◌≤◌, ◌<◌, ◌≡◌, refl, sym, ap, ◌∙◌, inl, inr, true, false, List, [], ◌∷◌, ◌++◌,
  Bytes, ret, length, take, ◌==◌, arith, Bool-cases, take-append-drop, append_assoc, append-nil,
  length-append,
}
use nsproxy_rs.Base.Text.{contains}
use nsproxy_rs.Proxy.{is_empty, is_empty-eq-true}
use nsproxy_rs.Proxy.Stream.{TcpStream}
use nsproxy_rs.Proxy.Http.{
  BufReader, next_size, fill_buf, split_line, read_until, pending, read_line,
}

is_empty-false : (bs : Bytes) → is_empty bs ≡ false → 1 ≤ length bs
is_empty-false [] h = cc
is_empty-false (b ∷ bs) h = omega arith

take-nil : (n : ℕ) (bs : Bytes) → 1 ≤ n → take n bs ≡ [] → bs ≡ []
take-nil zero bs h e = absurd (omega arith)
take-nil (suc n) [] h e = refl
take-nil (suc n) (b ∷ bs) h e = cc

-- A filled buffer has lost nothing, and is empty only at the end of the input.
abbrev Filled : BufReader → Type 0
Filled r =
    (pending (fill_buf r) ≡ pending r)
    × ((fill_buf r).buffer ≡ [] → pending r ≡ [])
    × ((fill_buf r).inner.sent ≡ r.inner.sent)

next_size-pos : (ns : List ℕ) → 1 ≤ next_size ns
next_size-pos [] = omega arith
next_size-pos (n ∷ ns) = omega arith

fill_buf-Filled :
    (buffer : Bytes) (inner : TcpStream) (arrivals : List ℕ)
    → Filled (record { buffer = buffer; inner = inner; arrivals = arrivals })
unfolding fill_buf
fill_buf-Filled [] inner arrivals = (
  take-append-drop (next_size arrivals) inner.input,
  take-nil (next_size arrivals) inner.input (next_size-pos arrivals),
  refl,
)
fill_buf-Filled (b ∷ bs) inner arrivals = (refl, λ e. cc, refl)

split_line-found :
    (xs ys : Bytes)
    → contains 10 xs ≡ true
    → split_line (xs ++ ys) ≡ ((split_line xs).0, (split_line xs).1 ++ ys)
unfolding split_line contains
split_line-found [] ys h = cc
split_line-found (x ∷ xs) ys h = elim (Bool-cases (x == 10)) [
  | inl e ↦ rw e refl
  | inr e ↦ rw (e, split_line-found xs ys (ground arith)) refl
]

split_line-missing :
    (xs ys : Bytes)
    → contains 10 xs ≡ false
    → split_line (xs ++ ys) ≡ (xs ++ (split_line ys).0, (split_line ys).1)
unfolding split_line contains
split_line-missing [] ys h = refl
split_line-missing (x ∷ xs) ys h =
    let other : (x == 10) ≡ false = ground arith in
    rw (other, split_line-missing xs ys (ground arith)) refl

read_until-line :
    (fuel : ℕ) (r : BufReader) (line : Bytes)
    → length (pending r) < fuel
    → (s : BufReader) × (read_until fuel r line ≡ ret (line ++ (split_line (pending r)).0, s))
      × (pending s ≡ (split_line (pending r)).1)
      × (s.inner.sent ≡ r.inner.sent)
unfolding read_until split_line
read_until-line zero r line h = absurd (omega arith)
read_until-line (suc fuel) r line h =
    let (same, end, sent) = fill_buf-Filled r.buffer r.inner r.arrivals in
    elim (Bool-cases (is_empty (fill_buf r).buffer)) [
      | inl e ↦
          let nil : pending r ≡ [] = end (is_empty-eq-true (fill_buf r).buffer e) in
          (
            fill_buf r,
            rw (e, nil) (ap (λ l. ret (l, fill_buf r)) (sym (append-nil line))),
            rw nil (same ∙ nil),
            sent,
          )
      | inr e ↦ elim (Bool-cases (contains 10 (fill_buf r).buffer)) [
        | inl f ↦ (
          record (fill_buf r) { buffer = (split_line (fill_buf r).buffer).1 },
          rw (e, f, sym same, split_line-found (fill_buf r).buffer (fill_buf r).inner.input f) refl,
          rw (sym same, split_line-found (fill_buf r).buffer (fill_buf r).inner.input f) refl,
          sent,
        )
        | inr f ↦
            let next : BufReader = record (fill_buf r) { buffer = [] } in
            let shorter : length (pending next) < fuel = omega (
              arith,
              h,
              ap length same,
              length-append (fill_buf r).buffer (fill_buf r).inner.input,
              is_empty-false (fill_buf r).buffer e,
            ) in
            let (s, run, left, kept) =
              read_until-line fuel next (line ++ (fill_buf r).buffer) shorter in
            (
              s,
              rw
                  (
                    e,
                    f,
                    run,
                    sym same,
                    split_line-missing (fill_buf r).buffer (fill_buf r).inner.input f,
                  )
                  (ap (λ l. ret (l, s))
                    (append_assoc line (fill_buf r).buffer
                      (split_line (fill_buf r).inner.input).0)),
              left
                  ∙ rw (sym same, split_line-missing (fill_buf r).buffer (fill_buf r).inner.input f)
                      refl,
              kept ∙ sent,
            )
      ]
    ]

-- `read_line` returns: the line is the first one of what is pending, and the rest stays pending.
pub read_line_lem :
    (r : BufReader)
    → (s : BufReader) × (read_line r ≡ ret ((split_line (pending r)).0, s))
      × (pending s ≡ (split_line (pending r)).1)
      × (s.inner.sent ≡ r.inner.sent)
unfolding read_line
read_line_lem r = read_until-line (suc (suc (length (pending r)))) r [] (omega arith)
