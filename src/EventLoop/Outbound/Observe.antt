-- ===== src/EventLoop/Outbound/Observe.antt =====
-- A new SYN gives its endpoint a connection of its own.
use nsproxy_rs.Base.{
  is_some, ℕ, ◌≡◌, refl, sym, ap, ◌∙◌, ◌⊎◌, inl, inr, true, false, ◌||◌, Option, none, some, ◌==◌,
  if◌then◌else◌, arith, Bool-cases, nat_eq, nat_beq_iff,
}
use nsproxy_rs.Base.Map.{get, get-insert}
use nsproxy_rs.EventLoop.Outbound.{
  EndpointKey, key_beq, listening, OutboundTcp, contains_key, listen_socket, observe_key,
}
use nsproxy_rs.EventLoop.Outbound.Listeners.{IsValid, key_beq-true, key_beq_refl}

-- The handle that smoltcp gives to a new socket belongs to no connection.
abbrev pub IsFresh : Option ℕ → OutboundTcp → Type 0
IsFresh none s = Unit
IsFresh (some h) s = get h s.states ≡ none

module _ (now h : ℕ) (key : EndpointKey) (s : OutboundTcp) (v : IsValid s)
    (fresh : get h s.states ≡ none) (unheard : contains_key key s.listening_endpoints ≡ false) where
  heard : OutboundTcp
  heard = listen_socket now key (some h) s

  heard-endpoint :
      (j : ℕ)
      → get j heard.handle_to_endpoint ≡ (if h == j then some key else get j s.handle_to_endpoint)
  unfolding heard
  heard-endpoint j = get-insert h j key s.handle_to_endpoint

  heard-state :
      (j : ℕ) → is_some (get j heard.states) ≡ (if h == j then true else is_some (get j s.states))
  unfolding heard
  heard-state j = ground (arith, get-insert h j (listening now) s.states)

  heard-listening :
      (k : EndpointKey)
      → contains_key k heard.listening_endpoints
        ≡ (key_beq k key || contains_key k s.listening_endpoints)
  unfolding heard
  heard-listening k = refl

  -- What an endpoint of the new state was before.
  heard-was :
      (j : ℕ) (k : EndpointKey)
      → get j heard.handle_to_endpoint ≡ some k
      → ((h ≡ j) × (key ≡ k)) ⊎ (get j s.handle_to_endpoint ≡ some k)
  heard-was j k g = elim (Bool-cases (h == j)) [
    | inl e ↦
        let same : some key ≡ some k = sym (heard-endpoint j ∙ rw e refl) ∙ g in
        inl ((nat_beq_iff h j).0 e, cc)
    | inr e ↦ inr (sym (heard-endpoint j ∙ rw e refl) ∙ g)
  ]

  heard-owned :
      (j : ℕ) (k : EndpointKey)
      → get j heard.handle_to_endpoint ≡ some k
      → contains_key k heard.listening_endpoints ≡ true
  heard-owned j k g = elim (heard-was j k g) [
    | inl (e, same) ↦ rw (sym same, heard-listening key, key_beq_refl key) refl
    | inr before ↦ heard-listening k ∙ rw (v.owned j k before) (ground arith)
  ]

  heard-owner :
      (k : EndpointKey)
      → contains_key k heard.listening_endpoints ≡ true
      → (j : ℕ) × (get j heard.handle_to_endpoint ≡ some k)
  heard-owner k c = elim (Bool-cases (key_beq k key)) [
    | inl same ↦ (h, heard-endpoint h ∙ rw (key_beq-true k key same) (ground arith))
    | inr apart ↦
        let before : contains_key k s.listening_endpoints ≡ true =
          sym (heard-listening k ∙ rw apart refl) ∙ c in
        let (j, g) = v.owner k before in
        (j, ground (arith, heard-endpoint j, v.tracked h, g, ap (λ i. get i s.handle_to_endpoint)))
  ]

  heard_unique :
      (i j : ℕ) (k : EndpointKey)
      → get i heard.handle_to_endpoint ≡ some k
      → get j heard.handle_to_endpoint ≡ some k
      → i ≡ j
  heard_unique i j k f g = elim (heard-was i k f) [
    | inl (e, same) ↦ elim (heard-was j k g) [
      | inl (d, again) ↦ sym e ∙ d
      | inr before ↦
          let clash : contains_key key s.listening_endpoints ≡ true =
            ap (λ q. contains_key q s.listening_endpoints) same ∙ v.owned j k before in
          absurd (cc)
    ]
    | inr older ↦ elim (heard-was j k g) [
      | inl (d, again) ↦
          let clash : contains_key key s.listening_endpoints ≡ true =
            ap (λ q. contains_key q s.listening_endpoints) again ∙ v.owned i k older in
          absurd (cc)
      | inr before ↦ v.unique i j k older before
    ]
  ]

  heard-IsValid : IsValid heard
  heard-IsValid = record {
    tracked = λ j. ground (arith, heard-endpoint j, heard-state j, v.tracked j);
    owned = heard-owned;
    owner = heard-owner;
    unique = heard_unique;
  }

pub observe_key-IsValid :
    (now : ℕ) (key : EndpointKey) (listened : Option ℕ) (s : OutboundTcp)
    → IsValid s
    → IsFresh listened s
    → IsValid (observe_key now key listened s)
unfolding observe_key
observe_key-IsValid now key listened s v fresh =
    elim (Bool-cases (contains_key key s.listening_endpoints)) [
      | inl e ↦ rw (observe_key, e) v
      | inr e ↦ rw (observe_key, e) (on_listen listened fresh e)
    ]
  where
    on_listen :
        (listened : Option ℕ)
        → IsFresh listened s
        → contains_key key s.listening_endpoints ≡ false
        → IsValid (listen_socket now key listened s)
    on_listen none fresh e = v
    on_listen (some h) fresh e = unfold heard in heard-IsValid now h key s v fresh e
