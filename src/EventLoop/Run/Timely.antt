-- ===== src/EventLoop/Run/Timely.antt =====
-- src/event_loop.rs: no wait lasts longer than its limit.
use nsproxy_rs.Base.{
  ℕ, ◌≤◌, ◌≡◌, refl, ◌⊎◌, inl, inr, true, Bool-cases, not, ◌&&◌, Option, some, List, [], ◌∷◌, leb,
  le→leb, arith,
}
use mathlib.Core.Bool.{or-true}
use nsproxy_rs.Rule.{Regex}
use nsproxy_rs.EventLoop.Tick.{EventLoop}
use nsproxy_rs.EventLoop.Run.{
  Wake, Round, poll_select, select, wait_timeout, max_poll_delay, wait_for_work,
}

-- The `select` is polled once the limit has passed.
abbrev pub Late : List Wake → Type 0
Late [] = ⊥
Late (w ∷ ws) = (max_poll_delay ≤ w.elapsed) ⊎ Late ws

wait_timeout_le : (delay : Option ℕ) → wait_timeout delay ≤ max_poll_delay
unfolding wait_timeout
wait_timeout_le delay = ground arith

module _ (rx : Regex) where
  poll_select_late :
      (timeout : ℕ) (w : Wake) (e : EventLoop rx)
      → timeout ≤ max_poll_delay
      → max_poll_delay ≤ w.elapsed
      → (poll_select rx timeout w e).1 ≡ true
  unfolding poll_select
  poll_select_late timeout w e low late =
      let passed : leb timeout w.elapsed ≡ true = le→leb timeout w.elapsed (omega arith) in
      elim (Bool-cases w.shutdown_changed) [
        | inl over ↦ rw over refl
        | inr on ↦ rw (on, passed) (or-true _)
      ]

  select-Late :
      (timeout : ℕ) (ws : List Wake) (e : EventLoop rx)
      → timeout ≤ max_poll_delay
      → Late ws
      → (select rx timeout ws e).1 ≡ true
  unfolding select
  select-Late timeout [] e low late = absurd late
  select-Late timeout (w ∷ ws) e low late = elim late [
    | inl now ↦ let woken = poll_select_late timeout w e low now in rw (select, woken) refl
    | inr later ↦ elim (Bool-cases (poll_select rx timeout w e).1) [
      | inl woken ↦ rw (select, woken) refl
      | inr waits ↦ rw waits (select-Late timeout ws (poll_select rx timeout w e).0 low later)
    ]
  ]

  -- Whatever delay smoltcp asks for, and although nothing else happens, a wait is over when 100 ms have
  -- passed; the loop goes on exactly if the shutdown flag is clear before and behind the wait.
  pub wait_for_work_ends :
      (r : Round) (e : EventLoop rx)
      → Late r.wakes
      → (wait_for_work rx r e).1 ≡ some (not r.shutdown && not r.shutdown_after)
  unfolding wait_for_work
  wait_for_work_ends r e late = elim (Bool-cases r.shutdown) [
    | inl over ↦ rw over refl
    | inr on ↦
        rw
          (
            on,
            select-Late (wait_timeout r.poll_delay) r.wakes e (wait_timeout_le r.poll_delay) late,
          )
          refl
  ]
