-- ===== src/EventLoop/Ports/Free.antt =====
-- The allocator gives a free port whenever there is one.
use nsproxy_rs.Base.{
  ℕ, zero, suc, ◌+◌, ◌-◌, ◌%◌, ◌≤◌, ◌<◌, ◌≡◌, refl, ap, ◌⊎◌, inl, inr, true, false, List, [], ◌∷◌,
  Option, none, some, ◌==◌, if◌then◌else◌, arith, Bool-cases,
}
use nsproxy_rs.EventLoop.Ports.{
  port_min, port_max, PortAllocator, is_used, following, try_ports, capacity, allocate, without,
}

abbrev pub IsPort : ℕ → Type 0
IsPort p = (port_min ≤ p) × (p ≤ port_max)

-- What a successful allocation means: the port is in the range, it was free and is now used, and
-- nothing else has changed but the next candidate.
pub record Allocates (a : PortAllocator) (r : Option ℕ × PortAllocator) : Type 0 where
  pub port : ℕ
  pub result : r.0 ≡ some port
  pub in_range : IsPort port
  pub was_free : is_used port a.used ≡ false
  pub now_used : r.1.used ≡ port ∷ a.used
  pub next_in_range : IsPort r.1.next

-- The ports that the loop visits, `k` steps on.
abbrev visited : ℕ → ℕ → ℕ
visited next k = port_min + (next - port_min + k) % 16384

from_next :
    (a : PortAllocator) (next : ℕ) {r : Option ℕ × PortAllocator}
    → Allocates (record a { next = next }) r
    → Allocates a r
from_next a next h = record {
  port = h.port;
  result = h.result;
  in_range = h.in_range;
  was_free = h.was_free;
  now_used = h.now_used;
  next_in_range = h.next_in_range;
}

try_ports-Allocates :
    (n : ℕ) (a : PortAllocator) (k : ℕ)
    → IsPort a.next
    → k < n
    → is_used (visited a.next k) a.used ≡ false
    → Allocates a (try_ports n a)
unfolding try_ports
try_ports-Allocates zero a k v h f = absurd (omega arith)
try_ports-Allocates (suc n) a k v h f = elim (Bool-cases (is_used a.next a.used)) [
  | inr e ↦
      rw (e, try_ports)
        (record {
          port = a.next;
          result = refl;
          in_range = v;
          was_free = e;
          now_used = refl;
          next_in_range = ground arith;
        })
  | inl e ↦ elim (Bool-cases (k == 0)) [
    | inl zero_steps ↦
        let here : visited a.next k ≡ a.next = ground arith in
        absurd (ground (arith, ap (λ q. is_used q a.used) here))
    | inr more ↦
        let same : visited (following a.next) (k - 1) ≡ visited a.next k = ground arith in
        rw (e, try_ports)
          (from_next a (following a.next) (
            try_ports-Allocates n (record a { next = following a.next }) (k - 1) (ground arith)
              (ground arith) (rw same f)))
  ]
]

-- If some port of the range is free, `allocate` returns a port of the range that was free.
pub allocate-Allocates :
    (a : PortAllocator) (p : ℕ)
    → IsPort a.next
    → IsPort p
    → is_used p a.used ≡ false
    → Allocates a (allocate a)
unfolding allocate
allocate-Allocates a p v w f =
    let k : ℕ = (p + 16384 - a.next) % 16384 in
    let reached : visited a.next k ≡ p = omega arith in
    try_ports-Allocates capacity a k v (omega arith) (rw reached f)

try_ports-all_used :
    (n : ℕ) (a : PortAllocator)
    → IsPort a.next
    → ((p : ℕ) → IsPort p → is_used p a.used ≡ true)
    → (try_ports n a).0 ≡ none
unfolding try_ports
try_ports-all_used zero a v h = refl
try_ports-all_used (suc n) a v h =
    rw (h a.next v, try_ports)
      (try_ports-all_used n (record a { next = following a.next }) (ground arith) h)

-- If every port of the range is used, `allocate` returns none.
pub allocate-all_used :
    (a : PortAllocator)
    → IsPort a.next
    → ((p : ℕ) → IsPort p → is_used p a.used ≡ true)
    → (allocate a).0 ≡ none
unfolding allocate
allocate-all_used a v h = try_ports-all_used capacity a v h

try_ports-cases :
    (n : ℕ) (a : PortAllocator)
    → IsPort a.next
    → Allocates a (try_ports n a)
      ⊎ (((try_ports n a).0 ≡ none)
          × ((try_ports n a).1.used ≡ a.used)
          × IsPort (try_ports n a).1.next)
unfolding try_ports
try_ports-cases zero a v = inr (refl, refl, v)
try_ports-cases (suc n) a v = elim (Bool-cases (is_used a.next a.used)) [
  | inr e ↦ inl (
      rw (e, try_ports)
        (record {
          port = a.next;
          result = refl;
          in_range = v;
          was_free = e;
          now_used = refl;
          next_in_range = ground arith;
        }))
  | inl e ↦ elim (try_ports-cases n (record a { next = following a.next }) (ground arith)) [
    | inl h ↦ inl (rw (e, try_ports) (from_next a (following a.next) h))
    | inr h ↦ inr (rw (e, try_ports) h)
  ]
]

-- An allocation either succeeds or leaves the used ports as they are.
pub allocate-cases :
    (a : PortAllocator)
    → IsPort a.next
    → Allocates a (allocate a)
      ⊎ (((allocate a).0 ≡ none) × ((allocate a).1.used ≡ a.used) × IsPort (allocate a).1.next)
unfolding allocate
allocate-cases a v = try_ports-cases capacity a v

pub is_used-without :
    (p q : ℕ) (ps : List ℕ) → is_used q (without p ps) ≡ (if p == q then false else is_used q ps)
is_used-without p q [] = ground arith
is_used-without p q (r ∷ ps) = ground (arith, is_used-without p q ps)
