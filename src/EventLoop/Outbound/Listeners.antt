-- ===== src/EventLoop/Outbound/Listeners.antt =====
-- A SYN is listened for exactly once: the listening endpoints are those of the tracked connections,
-- and the endpoint of a connection that has ended can be listened on again.
use nsproxy_rs.Base.{
  ℕ, ◌≡◌, ◌≢◌, refl, sym, ap, subst, ◌∙◌, inl, inr, true, false, List, [], ◌∷◌, none, some, ◌==◌,
  if◌then◌else◌, arith, Bool-cases, Option-cases, nat_eq, nat_beq_iff,
}
use nsproxy_rs.Base.Map.{get, get-remove}
use nsproxy_rs.Base.{is_some}
use nsproxy_rs.EventLoop.Outbound.{
  EndpointKey, key_beq, OutboundTcp, contains_key, without_key, remove_handle,
}

-- Every connection has an endpoint of its own, and every listening endpoint has a connection.
pub record IsValid (s : OutboundTcp) : Type 0 where
  pub tracked : (h : ℕ) → is_some (get h s.states) ≡ is_some (get h s.handle_to_endpoint)
  pub owned :
      (h : ℕ) (k : EndpointKey)
      → get h s.handle_to_endpoint ≡ some k
      → contains_key k s.listening_endpoints ≡ true
  pub owner :
      (k : EndpointKey)
      → contains_key k s.listening_endpoints ≡ true
      → (h : ℕ) × (get h s.handle_to_endpoint ≡ some k)
  pub unique :
      (h j : ℕ) (k : EndpointKey)
      → get h s.handle_to_endpoint ≡ some k
      → get j s.handle_to_endpoint ≡ some k
      → h ≡ j

pub key_beq-true : (k j : EndpointKey) → key_beq k j ≡ true → k ≡ j
key_beq-true (a, b, c, d) (e, f, g, h) t = ground arith

pub key_beq_refl : (k : EndpointKey) → key_beq k k ≡ true
key_beq_refl (a, b, c, d) = ground arith

contains_key-without_key :
    (k j : EndpointKey) (ks : List EndpointKey)
    → contains_key j (without_key k ks) ≡ (if key_beq k j then false else contains_key j ks)
contains_key-without_key k j [] = ground arith
contains_key-without_key k j (i ∷ ks) = ground (arith, contains_key-without_key k j ks)

module _ (h : ℕ) (s : OutboundTcp) (v : IsValid s) where
  remove_handle-tracked :
      (j : ℕ)
      → is_some (get j (remove_handle h s).states)
        ≡ is_some (get j (remove_handle h s).handle_to_endpoint)
  unfolding remove_handle
  remove_handle-tracked j =
      ground (arith, get-remove h j s.states, get-remove h j s.handle_to_endpoint, v.tracked j)

  remove_handle-endpoint :
      (j : ℕ)
      → get j (remove_handle h s).handle_to_endpoint
        ≡ (if h == j then none else get j s.handle_to_endpoint)
  unfolding remove_handle
  remove_handle-endpoint j = get-remove h j s.handle_to_endpoint

  remove_handle-listening :
      (k : EndpointKey)
      → get h s.handle_to_endpoint ≡ some k
      → (j : EndpointKey)
      → contains_key j (remove_handle h s).listening_endpoints
        ≡ (if key_beq k j then false else contains_key j s.listening_endpoints)
  unfolding remove_handle
  remove_handle-listening k e j = rw e (contains_key-without_key k j s.listening_endpoints)

  remove_handle-untracked :
      get h s.handle_to_endpoint ≡ none
      → (remove_handle h s).listening_endpoints ≡ s.listening_endpoints
  unfolding remove_handle
  remove_handle-untracked e = rw e refl

  remove_handle-keeps :
      (k : EndpointKey) (j : ℕ)
      → get j s.handle_to_endpoint ≡ some k
      → get h s.handle_to_endpoint ≢ some k
      → get j (remove_handle h s).handle_to_endpoint ≡ some k
  remove_handle-keeps k j g other =
      let apart : (h == j) ≡ false = elim (Bool-cases (h == j)) [
        | inr e ↦ e
        | inl e ↦ absurd (other (ap (λ i. get i s.handle_to_endpoint) ((nat_beq_iff h j).0 e) ∙ g))
      ] in
      remove_handle-endpoint j ∙ rw apart g

  remove_handle-was :
      (k : EndpointKey) (j : ℕ)
      → get j (remove_handle h s).handle_to_endpoint ≡ some k
      → (get j s.handle_to_endpoint ≡ some k) × ((h == j) ≡ false)
  remove_handle-was k j g = elim (Bool-cases (h == j)) [
    | inl e ↦
        let gone : none ≡ some k = sym (remove_handle-endpoint j ∙ rw e refl) ∙ g in absurd (cc)
    | inr e ↦ (sym (remove_handle-endpoint j ∙ rw e refl) ∙ g, e)
  ]

  remove_handle_unique :
      (i j : ℕ) (k : EndpointKey)
      → get i (remove_handle h s).handle_to_endpoint ≡ some k
      → get j (remove_handle h s).handle_to_endpoint ≡ some k
      → i ≡ j
  remove_handle_unique i j k f g =
      v.unique i j k (remove_handle-was k i f).0 (remove_handle-was k j g).0

  -- Two endpoints that are not the same by the test are different, and only the freed one is gone.
  freed-apart :
      (p q : EndpointKey) (j : ℕ)
      → get h s.handle_to_endpoint ≡ some p
      → get j (remove_handle h s).handle_to_endpoint ≡ some q
      → key_beq p q ≡ false
  freed-apart p q j e g = elim (Bool-cases (key_beq p q)) [
    | inr apart ↦ apart
    | inl same ↦
        let (before, other) = remove_handle-was q j g in
        let one : h ≡ j = v.unique h j q (e ∙ ap some (key_beq-true p q same)) before in
        absurd (ground arith)
  ]

  remove_handle-owned :
      (p q : EndpointKey) (j : ℕ)
      → get h s.handle_to_endpoint ≡ some p
      → get j (remove_handle h s).handle_to_endpoint ≡ some q
      → contains_key q (remove_handle h s).listening_endpoints ≡ true
  remove_handle-owned p q j e g =
      remove_handle-listening p e q
      ∙ rw (freed-apart p q j e g) (v.owned j q (remove_handle-was q j g).0)

  remove_handle-owner :
      (p q : EndpointKey)
      → get h s.handle_to_endpoint ≡ some p
      → contains_key q (remove_handle h s).listening_endpoints ≡ true
      → (j : ℕ) × (get j (remove_handle h s).handle_to_endpoint ≡ some q)
  remove_handle-owner p q e k = elim (Bool-cases (key_beq p q)) [
    | inl same ↦
        let gone : false ≡ true = sym (remove_handle-listening p e q ∙ rw same refl) ∙ k in
        absurd (cc)
    | inr apart ↦
        let (j, g) = v.owner q (sym (remove_handle-listening p e q ∙ rw apart refl) ∙ k) in
        (
          j,
          remove_handle-keeps q j g λ f.
              let same : some p ≡ some q = sym e ∙ f in
              let beq : key_beq p q ≡ true =
                subst (λ r. key_beq p r ≡ true) (cc) (key_beq_refl p) in
              absurd (cc),
        )
  ]

  -- Removing a connection frees its endpoint and no other.
  pub remove_handle-IsValid : IsValid (remove_handle h s)
  remove_handle-IsValid = elim (Option-cases (get h s.handle_to_endpoint)) [
    | inl e ↦ record {
      tracked = remove_handle-tracked;
      owned = λ j q k.
          ap (contains_key q) (remove_handle-untracked e) ∙ v.owned j q (remove_handle-was q j k).0;
      owner = λ q k.
          let (j, g) = v.owner q (ap (contains_key q) (sym (remove_handle-untracked e)) ∙ k) in
          (j, remove_handle-keeps q j g (λ f. let no : none ≡ some q = sym e ∙ f in absurd (cc)));
      unique = remove_handle_unique;
    }
    | inr (p, e) ↦ record {
      tracked = remove_handle-tracked;
      owned = λ j q k. remove_handle-owned p q j e k;
      owner = λ q k. remove_handle-owner p q e k;
      unique = remove_handle_unique;
    }
  ]
