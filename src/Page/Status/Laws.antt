-- ===== src/Page/Status/Laws.antt =====
-- The poll of the status over any sequence of events.
use daili_usage_keeper_north.Base.{
  ℕ, ◌+◌, ◌≡◌, String, Bool, true, false, some, arith, Bool-cases, Option-cases, inl, inr,
}
use daili_usage_keeper_north.Store.{Failure}
use daili_usage_keeper_north.Page.Loader.Invariant.{is_on_way}
use daili_usage_keeper_north.Page.Status.{
  Poll, start_poll, poll_tick, stop_poll, settle_status, settle_status_failure, receive_status,
  receive_status_failure,
}

module _ {S : Type 0} (last_error : S → String) where
  pub data Step : Poll S → Poll S → Type 0 where
    ticks : (p : Poll S) → Step p (poll_tick p)
    ends : (p : Poll S) → Step p (stop_poll p)
    responded : (i : ℕ) (s : S) (p : Poll S) → Step p (settle_status last_error i s (p.flights i) p)
    failed : (i : ℕ) (x : Failure) (p : Poll S) → Step p (settle_status_failure i x (p.flights i) p)

  pub data Reach : Poll S → Type 0 where
    started : Reach start_poll
    next : {p q : Poll S} → Reach p → Step p q → Reach q

-- A request that is not aborted is the last one that was made, and the poll still runs.
abbrev pub IsNewest : {S : Type 0} → Poll S → Type 0
IsNewest p =
    (i : ℕ)
    → is_on_way (p.flights i) ≡ true
    → (p.controller ≡ some i) × (i + 1 ≡ p.next) × (p.running ≡ true)

module _ {S : Type 0} (p : Poll S) (h : IsNewest p) where
  poll_tick-IsNewest : IsNewest (poll_tick p)
  unfolding poll_tick
  poll_tick-IsNewest i e = ground (arith, h i)

  stop_poll-IsNewest : IsNewest (stop_poll p)
  unfolding stop_poll
  stop_poll-IsNewest i e = ground (arith, h i)

  receive_status-IsNewest :
      (last_error : S → String) (j : ℕ) (s : S) → IsNewest (receive_status last_error j s p)
  unfolding receive_status
  receive_status-IsNewest last_error j s i e = ground (arith, h i)

  receive_status_failure-IsNewest :
      (j : ℕ) (aborted : Bool) (x : Failure) → IsNewest (receive_status_failure j aborted x p)
  unfolding receive_status_failure
  receive_status_failure-IsNewest j a x i e = ground (arith, h i)

module _ {S : Type 0} (last_error : S → String) where
  Step-IsNewest : {p q : Poll S} → Step last_error p q → IsNewest p → IsNewest q
  Step-IsNewest (ticks p) h = poll_tick-IsNewest p h
  Step-IsNewest (ends p) h = stop_poll-IsNewest p h
  Step-IsNewest (responded i s p) h = elim (Option-cases (p.flights i)) [
    | inl e ↦ rw e h
    | inr (f, e) ↦ elim (Bool-cases f.aborted) [
      | inl a ↦ rw (e, a) h
      | inr a ↦ rw (e, a) (receive_status-IsNewest p h last_error i s)
    ]
  ]
  Step-IsNewest (failed i x p) h = elim (Option-cases (p.flights i)) [
    | inl e ↦ rw e h
    | inr (f, e) ↦ rw e (receive_status_failure-IsNewest p h i f.aborted x)
  ]

  Reach-IsNewest : {p : Poll S} → Reach last_error p → IsNewest p
  unfolding start_poll
  Reach-IsNewest started i e = ground arith
  Reach-IsNewest (next r step) i e = Step-IsNewest step (Reach-IsNewest r) i e

  -- Whatever ticks, answers and failures came, in whatever order: a status is shown only as the answer
  -- to the request that was made last, and none is shown once the effect is cleaned up; any other answer
  -- changes nothing.
  settle_status-newest :
      {p : Poll S} (i : ℕ) (s : S)
      → Reach last_error p
      → let q = settle_status last_error i s (p.flights i) p in
        (is_on_way (p.flights i) ≡ true
          → (q.status ≡ some s)
            × (q.status_error ≡ last_error s)
            × (i + 1 ≡ p.next)
            × (p.running ≡ true))
        × (is_on_way (p.flights i) ≡ false → q ≡ p)
  unfolding receive_status
  settle_status-newest {p} i s r = (λ e. ground (arith, Reach-IsNewest r i e), λ e. ground arith)
