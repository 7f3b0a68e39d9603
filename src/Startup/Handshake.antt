-- ===== src/Startup/Handshake.antt =====
-- src/main.rs: parent and child together. Each runs under a kernel of its own; the channel hands over
-- what was sent, in order, so that what one has received is the oldest part of what the other has sent.
use nsproxy_rs.Base.{
  ℕ, ◌≡◌, ◌≢◌, refl, sym, ap, subst, ◌∙◌, Bool, true, false, List, [], ◌∷◌, ◌++◌, append_assoc,
  Bytes, arith, Result, ok, err,
}
use nsproxy_rs.Sys.{Answer, Kernel, Post}
use nsproxy_rs.Namespace.{Call, Calls, Failure}
use nsproxy_rs.Namespace.Mounts.{BindMount}
use nsproxy_rs.Startup.{child_main, parent_setup}
use nsproxy_rs.Startup.Channel.{Message, byte, tun_descriptor, sent, received, launched, Chan}
use nsproxy_rs.Startup.Child.{bit, acks, RunsReleased, child_main-RunsReleased}
use nsproxy_rs.Startup.Maps.{MapsWritten}
use nsproxy_rs.Startup.Prepare.{prepare_calls, AllDone}
use nsproxy_rs.Startup.Parent.{Progress, silent, acknowledged, released, parent_setup-Progress}

-- Messages that the channel still holds are the newest ones.
abbrev pub Delivered : List Message → List Message → Type 0
Delivered taken written = (pending : List Message) × (written ≡ pending ++ taken)

-- The last call of the parent released the child. Before it, every step of the start-up had
-- succeeded, and the maps were written if the child asked for them.
pub record Releases (child : ℕ) (maps : Bool) (t : Calls) : Type 0 where
  pub signal : Call × Answer
  pub before : Calls
  pub is_last : t ≡ signal ∷ before
  pub not_yet : sent before ≡ acks maps
  pub prepared : AllDone prepare_calls before
  pub mapped : maps ≡ true → MapsWritten child before

oldest : (xs : List Message) {x a b : Message} → xs ++ x ∷ [] ≡ a ∷ b ∷ [] → x ≡ b
oldest [] h = cc
oldest (y ∷ []) h = cc
oldest (y ∷ z ∷ []) h = cc
oldest (y ∷ z ∷ w ∷ xs) h = cc

not_delivered : (xs ys : List Message) (x : Message) → [] ≢ xs ++ x ∷ ys
not_delivered [] ys x h = cc
not_delivered (y ∷ xs) ys x h = cc

delivered_one : (xs ys : List Message) (x y : Message) → y ∷ [] ≡ xs ++ x ∷ ys → ys ≡ []
delivered_one [] ys x y h = cc
delivered_one (z ∷ xs) ys x y h = absurd (not_delivered xs ys x (cc))

acks-eq-nil : (maps : Bool) → acks maps ≡ [] → maps ≡ false
acks-eq-nil true h = cc
acks-eq-nil false h = refl

bit_injective : (m n : Bool) → bit m ≡ bit n → m ≡ n
bit_injective true true h = refl
bit_injective false false h = refl
bit_injective true false h = absurd (omega arith)
bit_injective false true h = absurd (omega arith)

byte_injective : {a b : ℕ} → byte a ≡ byte b → a ≡ b
byte_injective h = cc

from_run :
    {A : Type 0} (R : Calls → Type 0) (r : Result Failure A × Calls) → Post (λ a. R) R r → R r.1
from_run R (ok a, t) h = h
from_run R (err e, t) h = h

meet :
    (child : ℕ) (tc tp : Calls) (maps : Bool)
    → Progress child tp
    → Delivered (received tc) (sent tp)
    → Delivered (received tp) (sent tc)
    → received tc ≡ byte 1 ∷ acks maps
    → sent tc ≡ tun_descriptor ∷ byte (bit maps) ∷ []
    → Releases child maps tp
meet child tc tp maps (silent e) (down, ed) (up, eu) r s =
    absurd (not_delivered down (acks maps) (byte 1) (cc))
meet child tc tp maps (acknowledged true front es er) (down, ed) (up, eu) r s =
    let none_left : acks maps ≡ [] = delivered_one down (acks maps) (byte 1) (byte 1) (cc) in
    let same : (up ++ front) ++ byte 1 ∷ [] ≡ tun_descriptor ∷ byte (bit maps) ∷ [] =
      append_assoc up front (byte 1 ∷ []) ∙ (ap (◌++◌ up) (sym er) ∙ (sym eu ∙ s)) in
    let one : byte 1 ≡ byte (bit maps) = oldest (up ++ front) same in
    let no_maps : maps ≡ false = acks-eq-nil maps none_left in
    let equal : 1 ≡ bit false = subst (λ m. 1 ≡ bit m) no_maps (byte_injective one) in
    absurd (omega arith)
meet child tc tp maps (acknowledged false front es er) (down, ed) (up, eu) r s =
    absurd (not_delivered down (acks maps) (byte 1) (cc))
meet child tc tp maps (released asked signal before last er es eb all mapped) (down, ed) (up, eu) r
      s =
    let same : (up ++ tun_descriptor ∷ []) ++ byte (bit asked) ∷ []
        ≡ tun_descriptor ∷ byte (bit maps) ∷ [] =
      append_assoc up (tun_descriptor ∷ []) (byte (bit asked) ∷ [])
      ∙ (ap (◌++◌ up) (sym er) ∙ (sym eu ∙ s)) in
    let e : asked ≡ maps =
      bit_injective asked maps (byte_injective (oldest (up ++ tun_descriptor ∷ []) same)) in
    subst (λ m. Releases child m tp) e
      (record {
        signal = signal;
        before = before;
        is_last = last;
        not_yet = eb;
        prepared = all;
        mapped = mapped;
      })

-- Two processes with no call behind them.
start : Chan [] [] []
unfolding sent received launched
start = record { quiet = refl; was_sent = refl; was_received = refl }

module _ (kc kp : Kernel Call) (fuel sock fuel' sock' child : ℕ) (binds : List BindMount)
    (command : List Bytes) where
  abbrev pub child_calls : Calls
  child_calls = (child_main fuel sock binds command kc []).1

  abbrev pub parent_calls : Calls
  parent_calls = (parent_setup fuel' sock' child kp []).1

  -- Whatever fails in either process: if the child has run the command, it has told the parent
  -- whether it needs maps, and the last call of the parent was the ready signal; before that every
  -- published port was bound and registered, the runtime built, the signals listened for, and the
  -- maps written if the child needs them.
  pub launched-Releases :
      Delivered (received child_calls) (sent parent_calls)
      → Delivered (received parent_calls) (sent child_calls)
      → launched child_calls ≡ true
      → (maps : Bool) × (sent child_calls ≡ tun_descriptor ∷ byte (bit maps) ∷ [])
        × Releases child maps parent_calls
  launched-Releases down up ran =
      let (maps, r, s) =
        from_run RunsReleased _ (child_main-RunsReleased kc fuel sock binds command [] start) ran in
      let progress =
        from_run (Progress child) _ (parent_setup-Progress kp child fuel' sock' [] start) in
      (maps, s, meet child child_calls parent_calls maps progress down up r s)
