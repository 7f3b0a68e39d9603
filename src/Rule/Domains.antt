-- ===== src/Rule/Domains.antt =====
-- The domain rules of the matcher, against the list of rules in command-line order.
use native.Mathlib.Nat.{add-zero, zero-add}
use nsproxy_rs.Base.{
  ℕ, suc, ◌+◌, ◌≡◌, refl, ap, sym, ◌∙◌, inl, inr, List, [], ◌∷◌, ◌++◌, map, Option, none, some,
  Bytes, ok, ret, get_elem?, if◌then◌else◌, arith, >>=-eq-ok, or_fail-eq-ok, or_fail, Bool-cases,
  append_assoc, append-nil,
}
use nsproxy_rs.Proxy.{ProxyConfig}
use nsproxy_rs.Rule.{
  Regex, ip, cidr, domain, domain_regex, compile_set, literal_pattern, positions, Builder,
  empty_builder, add_rule, build, RuleMatcher, compile, finish, from_specs, match_domain,
}
use nsproxy_rs.PrefixTrie.{PrefixTrie}
use nsproxy_rs.Rule.Matching.{Rules, Reads, add_all, build-add_all, finish-eq-ok}

module _ (rx : Regex) where
  -- The patterns of the domain rules with their routes.
  abbrev pub domain_table : Rules → List (Bytes × ProxyConfig)
  domain_table [] = []
  domain_table ((ip addr, a) ∷ rs) = domain_table rs
  domain_table ((cidr network prefix, a) ∷ rs) = domain_table rs
  domain_table ((domain d, a) ∷ rs) = (literal_pattern rx d, a) ∷ domain_table rs
  domain_table ((domain_regex p, a) ∷ rs) = (p, a) ∷ domain_table rs

  -- The route of the first pattern that matches the host.
  abbrev pub first_match : List (Bytes × ProxyConfig) → Bytes → Option ProxyConfig
  first_match [] host = none
  first_match ((p, a) ∷ ds) host = if rx.is_match p host then some a else first_match ds host

  patterns : List (Bytes × ProxyConfig) → List Bytes
  patterns = map (λ d. d.0)

  actions : List (Bytes × ProxyConfig) → List ProxyConfig
  actions = map (λ d. d.1)

  add_all-domains :
      (rs : Rules) (b : Builder rx)
      → ((add_all rx b rs).domain_patterns ≡ b.domain_patterns ++ patterns (domain_table rs))
        × ((add_all rx b rs).domain_actions ≡ b.domain_actions ++ actions (domain_table rs))
  unfolding add_rule patterns actions
  add_all-domains [] b = (sym (append-nil b.domain_patterns), sym (append-nil b.domain_actions))
  add_all-domains ((ip addr, a) ∷ rs) b = add_all-domains rs (add_rule rx b (ip addr) a)
  add_all-domains ((cidr n p, a) ∷ rs) b = add_all-domains rs (add_rule rx b (cidr n p) a)
  add_all-domains ((domain d, a) ∷ rs) b =
      let (ps, acts) = add_all-domains rs (add_rule rx b (domain d) a) in
      (ps ∙ append_assoc b.domain_patterns _ _, acts ∙ append_assoc b.domain_actions _ _)
  add_all-domains ((domain_regex d, a) ∷ rs) b =
      let (ps, acts) = add_all-domains rs (add_rule rx b (domain_regex d) a) in
      (ps ∙ append_assoc b.domain_patterns _ _, acts ∙ append_assoc b.domain_actions _ _)

  -- The first position reported leads to the route of the first match.
  data FirstOf (i : ℕ) (ds : List (Bytes × ProxyConfig)) (host : Bytes) (found : List ℕ)
      : Type 0 where
    no_match : found ≡ [] → first_match ds host ≡ none → FirstOf i ds host found
    match_at :
        (j : ℕ) (rest : List ℕ) (a : ProxyConfig)
        → found ≡ (i + j) ∷ rest
        → get_elem? (actions ds) j ≡ some a
        → first_match ds host ≡ some a
        → FirstOf i ds host found

  positions-FirstOf :
      (ds : List (Bytes × ProxyConfig)) (i : ℕ) (host : Bytes)
      → FirstOf i ds host (positions (λ p. rx.is_match p host) i (patterns ds))
  unfolding patterns actions
  positions-FirstOf [] i host = no_match refl refl
  positions-FirstOf ((p, a) ∷ ds) i host = elim (Bool-cases (rx.is_match p host)) [
    | inl e ↦
        match_at 0 (positions (λ p. rx.is_match p host) (suc i) (patterns ds)) a
          (rw (e, add-zero i)) refl (rw e)
    | inr e ↦ elim (positions-FirstOf ds (suc i) host) [
      | no_match f n ↦ no_match (rw e f) (rw e n)
      | match_at j rest b f g h ↦
          match_at (suc j) rest b (rw e (f ∙ ap (λ k. k ∷ rest) (omega arith))) g (rw e h)
    ]
  ]

  route-FirstOf :
      (ds : List (Bytes × ProxyConfig)) (set : rx.Set) (trie : PrefixTrie ProxyConfig)
      (host : Bytes)
      → FirstOf 0 ds host (rx.matches set host)
      → match_domain rx
          (record { domains = some set; domain_actions = actions ds; cidr_trie = trie })
          host
        ≡ ret (first_match ds host)
  unfolding match_domain
  route-FirstOf ds set trie host (no_match f n) = rw (match_domain, f) (ap ret (sym n))
  route-FirstOf ds set trie host (match_at j rest a f g h) =
      rw (match_domain, f, zero-add j, g) (ap ret (sym h))

  set-FirstOf :
      (ds : List (Bytes × ProxyConfig)) (set : rx.Set) (host : Bytes)
      → rx.new_set (patterns ds) ≡ some set
      → FirstOf 0 ds host (rx.matches set host)
  set-FirstOf ds set host h =
      rw (rx.matches_lem (patterns ds) set host h) (positions-FirstOf ds 0 host)

  match_domain-first_match :
      (ds : List (Bytes × ProxyConfig)) (m : RuleMatcher rx) (host : Bytes)
      → compile rx (patterns ds) ≡ ok m.domains
      → m.domain_actions ≡ actions ds
      → match_domain rx m host ≡ ret (first_match ds host)
  unfolding match_domain compile patterns
  match_domain-first_match [] m host c e = let unset : m.domains ≡ none = cc in rw unset
  match_domain-first_match (d ∷ ds) m host c e =
      let (set, new, some_set) =
        >>=-eq-ok (or_fail (rx.new_set (patterns (d ∷ ds))) compile_set) (λ set. ok (some set)) c in
      let is_set : m.domains ≡ some set = cc in
      rw (is_set, e)
        (route-FirstOf (d ∷ ds) set m.cidr_trie host (
          set-FirstOf (d ∷ ds) set host
            (or_fail-eq-ok (rx.new_set (patterns (d ∷ ds))) compile_set new)))

  -- If every rule is read, a host is sent to the first domain rule on the command line whose
  -- pattern matches it, and the index into the routes is never out of range.
  pub match_domain-from_specs :
      (specs : List Bytes) (m : RuleMatcher rx) (host : Bytes)
      → from_specs rx specs ≡ ok m
      → (rs : Rules) × Reads rx specs rs
        × (match_domain rx m host ≡ ret (first_match (domain_table rs) host))
  unfolding from_specs empty_builder
  match_domain-from_specs specs m host h =
      let (b, built, f) = >>=-eq-ok (build rx (empty_builder rx) specs) (finish rx) h in
      let (rs, reads, e) = build-add_all rx specs (empty_builder rx) b built in
      let (ps, acts) = add_all-domains rs (empty_builder rx) in
      let (compiled, routes, _) = finish-eq-ok rx b m f in
      (
        rs,
        reads,
        match_domain-first_match (domain_table rs) m host (cc)
            (routes ∙ ap (λ c. c.domain_actions) e ∙ acts),
      )
