-- ===== src/Process/Children.antt =====
-- src/process.rs: the children of a process as a list, apart from the search that reads them.
use nsproxy_rs.Base.{
  ◌≤◌, All, All-append, subst, >>=-eq-ok, or_fail-eq-ok, ℕ, ◌≡◌, refl, ◌∙◌, List, [], ◌∷◌, ◌++◌,
  Bytes, Result, ok, err, ◌>>=◌, or_fail, Option-cases, Result-cases, inl, inr,
}
use nsproxy_rs.Std.Number.{parse_uint, parse_uint_le}
use nsproxy_rs.Process.{
  Failure, list_threads, list_children, read_thread, invalid_pid, Listing, found, not_found,
  io_error, ProcFs, split_whitespace, i32_max, Search, add, add_words, add_children, add_threads,
  add_process,
}

-- The ids that the words stand for.
unfoldable pub parse_all : List Bytes → Result Failure (List ℕ)
parse_all [] = ok []
parse_all (w ∷ ws) = or_fail (parse_uint i32_max w) invalid_pid >>= λ child.
    parse_all ws >>= λ rest. ok (child ∷ rest)

unfoldable pub listed : Listing Bytes → Result Failure (List ℕ)
listed (found text) = parse_all (split_whitespace text)
listed not_found = ok []
listed (io_error e) = err (list_children e)

unfoldable pub add_all : List ℕ → Search → Search
add_all [] s = s
add_all (c ∷ cs) s = add_all cs (add s c)

add_all-append : (cs ds : List ℕ) (s : Search) → add_all (cs ++ ds) s ≡ add_all ds (add_all cs s)
unfolding add_all
add_all-append [] ds s = refl
add_all-append (c ∷ cs) ds s = add_all-append cs ds (add s c)

add_words_lem :
    (ws : List Bytes) (s : Search) → add_words ws s ≡ (parse_all ws >>= λ cs. ok (add_all cs s))
unfolding add_words parse_all add_all
add_words_lem [] s = refl
add_words_lem (w ∷ ws) s = elim (Option-cases (parse_uint i32_max w)) [
  | inl e ↦ rw e refl
  | inr (child, e) ↦ rw e (
      add_words_lem ws (add s child) ∙ (elim (Result-cases (parse_all ws)) [
        | inl (bad, f) ↦ rw f refl
        | inr (rest, f) ↦ rw f refl
      ]))
]

add_children_lem :
    (l : Listing Bytes) (s : Search) → add_children l s ≡ (listed l >>= λ cs. ok (add_all cs s))
unfolding add_children listed add_all
add_children_lem (found text) s = add_words_lem (split_whitespace text) s
add_children_lem not_found s = refl
add_children_lem (io_error e) s = refl

abbrev IsPid : ℕ → Type 0
IsPid p = p ≤ i32_max

parse_all-IsPid : (ws : List Bytes) (cs : List ℕ) → parse_all ws ≡ ok cs → All IsPid cs
unfolding parse_all
parse_all-IsPid [] [] h = tt
parse_all-IsPid [] (c ∷ cs) h = cc
parse_all-IsPid (w ∷ ws) cs h =
    let (child, e, h1) = >>=-eq-ok (or_fail (parse_uint i32_max w) invalid_pid) _ h in
    let (rest, f, h2) = >>=-eq-ok (parse_all ws) _ h1 in
    let same : child ∷ rest ≡ cs = cc in
    subst (All IsPid) same (
      parse_uint_le i32_max w child (or_fail-eq-ok (parse_uint i32_max w) invalid_pid e),
      parse_all-IsPid ws rest f,
    )

listed-IsPid : (l : Listing Bytes) (cs : List ℕ) → listed l ≡ ok cs → All IsPid cs
unfolding listed
listed-IsPid (found text) cs h = parse_all-IsPid (split_whitespace text) cs h
listed-IsPid not_found [] h = tt
listed-IsPid not_found (c ∷ cs) h = cc
listed-IsPid (io_error e) cs h = cc

module _ (fs : ProcFs) where
  unfoldable pub children_of_threads : ℕ → List (Result ℕ ℕ) → Result Failure (List ℕ)
  children_of_threads pid [] = ok []
  children_of_threads pid (err e ∷ entries) = err (read_thread e)
  children_of_threads pid (ok task ∷ entries) = listed (fs.children pid task) >>= λ cs.
      children_of_threads pid entries >>= λ ds. ok (cs ++ ds)

  children_of_listing : ℕ → Listing (List (Result ℕ ℕ)) → Result Failure (List ℕ)
  unfolding children_of_threads
  children_of_listing pid (found entries) = children_of_threads pid entries
  children_of_listing pid not_found = ok []
  children_of_listing pid (io_error e) = err (list_threads e)

  -- The children of a process, of all its threads; none if it is gone.
  unfoldable pub children_of : ℕ → Result Failure (List ℕ)
  unfolding children_of_listing
  children_of pid = children_of_listing pid (fs.threads pid)

  add_threads_lem :
      (pid : ℕ) (entries : List (Result ℕ ℕ)) (s : Search)
      → add_threads fs pid entries s ≡ (children_of_threads pid entries >>= λ cs. ok (add_all cs s))
  unfolding add_threads children_of_threads add_all
  add_threads_lem pid [] s = refl
  add_threads_lem pid (err e ∷ entries) s = refl
  add_threads_lem pid (ok task ∷ entries) s = elim (Result-cases (listed (fs.children pid task))) [
    | inl (e, h) ↦ rw (add_children_lem (fs.children pid task) s, h) refl
    | inr (cs, h) ↦
        rw (add_children_lem (fs.children pid task) s, h)
          (add_threads_lem pid entries (add_all cs s)
            ∙ (elim (Result-cases (children_of_threads pid entries)) [
              | inl (e, f) ↦ rw f refl
              | inr (ds, f) ↦ rw (f, add_all-append cs ds s) refl
            ]))
  ]

  listing_lem :
      (pid : ℕ) (l : Listing (List (Result ℕ ℕ))) (s : Search)
      → add_process fs pid l s ≡ (children_of_listing pid l >>= λ cs. ok (add_all cs s))
  unfolding add_process children_of_listing add_all
  listing_lem pid (found entries) s = add_threads_lem pid entries s
  listing_lem pid not_found s = refl
  listing_lem pid (io_error e) s = refl

  pub add_process_lem :
      (pid : ℕ) (s : Search)
      → add_process fs pid (fs.threads pid) s ≡ (children_of pid >>= λ cs. ok (add_all cs s))
  unfolding children_of
  add_process_lem pid s = listing_lem pid (fs.threads pid) s

  children_of_threads-IsPid :
      (pid : ℕ) (entries : List (Result ℕ ℕ)) (cs : List ℕ)
      → children_of_threads pid entries ≡ ok cs
      → All IsPid cs
  unfolding children_of_threads
  children_of_threads-IsPid pid [] [] h = tt
  children_of_threads-IsPid pid [] (c ∷ cs) h = cc
  children_of_threads-IsPid pid (err e ∷ entries) cs h = cc
  children_of_threads-IsPid pid (ok task ∷ entries) cs h =
      let (front, e, h1) = >>=-eq-ok (listed (fs.children pid task)) _ h in
      let (rest, f, h2) = >>=-eq-ok (children_of_threads pid entries) _ h1 in
      let same : front ++ rest ≡ cs = cc in
      subst (All IsPid) same (
        All-append IsPid front rest (listed-IsPid (fs.children pid task) front e)
          (children_of_threads-IsPid pid entries rest f))

  by_listing-IsPid :
      (pid : ℕ) (l : Listing (List (Result ℕ ℕ))) (cs : List ℕ)
      → children_of_listing pid l ≡ ok cs
      → All IsPid cs
  unfolding children_of_listing
  by_listing-IsPid pid (found entries) cs h = children_of_threads-IsPid pid entries cs h
  by_listing-IsPid pid not_found [] h = tt
  by_listing-IsPid pid not_found (c ∷ cs) h = cc
  by_listing-IsPid pid (io_error e) cs h = cc

  -- Children are process ids.
  pub children_of-IsPid :
      (pid : ℕ) (cs : List ℕ) → children_of pid ≡ ok cs → All (λ c. c ≤ i32_max) cs
  unfolding children_of
  children_of-IsPid pid cs h = by_listing-IsPid pid (fs.threads pid) cs h
