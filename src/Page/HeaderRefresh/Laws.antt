-- ===== src/Page/HeaderRefresh/Laws.antt =====
-- The active handler over any mounts, renders and unmounts of components that use the hook.
use daili_usage_keeper_north.Base.{
  ℕ, Bool, true, false, Option, none, some, List, [], ◌∷◌, ◌++◌, any, ◌≡◌, refl, ap, ◌∙◌, arith,
  Bool-cases, inl, inr, ◌==◌, ==_iff, if◌then◌else◌,
}
use daili_usage_keeper_north.Page.HeaderRefresh.{
  HeaderHook, is_active, reset_if, run_cleanup, run_header_effect, new_hook, rerender_hook,
}

abbrev pub owns : ℕ → HeaderHook → Bool
owns h hook = is_active hook.cleanup h

-- The active handler is that of some hook that is mounted.
abbrev pub IsOwned : Option ℕ → List HeaderHook → Type 0
IsOwned none hooks = Unit
IsOwned (some h) hooks = any (owns h) hooks ≡ true

-- The hooks that are mounted, and the active handler.
pub data Reach : List HeaderHook → Option ℕ → Type 0 where
  start : Reach [] none
  mounted :
      {hooks : List HeaderHook} {active : Option ℕ} (handler : Option ℕ) (enabled : Bool)
      → Reach hooks active
      → Reach
          ((run_header_effect handler enabled new_hook active).1 ∷ hooks)
          (run_header_effect handler enabled new_hook active).0
  rerendered :
      {active : Option ℕ} (first others : List HeaderHook) (hook : HeaderHook) (handler : Option ℕ)
      (enabled : Bool)
      → Reach (first ++ hook ∷ others) active
      → Reach
          (first ++ (rerender_hook handler enabled hook active).1 ∷ others)
          (rerender_hook handler enabled hook active).0
  unmounted :
      {active : Option ℕ} (first others : List HeaderHook) (hook : HeaderHook)
      → Reach (first ++ hook ∷ others) active
      → Reach (first ++ others) (run_cleanup hook active)

any-insert :
    (h : ℕ) (first others : List HeaderHook) (hook : HeaderHook)
    → any (owns h) (first ++ hook ∷ others)
      ≡ (if owns h hook then true else any (owns h) (first ++ others))
any-insert h [] others hook = refl
any-insert h (x ∷ first) others hook = ground (arith, any-insert h first others hook)

inserted-IsOwned :
    (active : Option ℕ) (first others : List HeaderHook) (hook : HeaderHook)
    → IsOwned active (first ++ others)
    → IsOwned active (first ++ hook ∷ others)
inserted-IsOwned none first others hook o = tt
inserted-IsOwned (some h) first others hook o = ground (arith, any-insert h first others hook, o)

reset-IsOwned :
    (old active : Option ℕ) (hooks : List HeaderHook)
    → IsOwned active hooks
    → IsOwned (reset_if old active) hooks
reset-IsOwned none active hooks o = o
reset-IsOwned (some h) none hooks o = tt
reset-IsOwned (some h) (some a) hooks o = ground (arith, o)

cleaned-IsOwned :
    (old active : Option ℕ) (first others : List HeaderHook) (hook : HeaderHook)
    → hook.cleanup ≡ old
    → IsOwned active (first ++ hook ∷ others)
    → IsOwned (reset_if old active) (first ++ others)
cleaned-IsOwned none none first others hook e o = tt
cleaned-IsOwned (some h) none first others hook e o = tt
cleaned-IsOwned none (some a) first others hook e o =
    let same = any-insert a first others hook in
    let unowned : owns a hook ≡ false = ap (λ c. is_active c a) e in
    ground (arith, same, unowned, o)
cleaned-IsOwned (some h) (some a) first others hook e o =
    let same = any-insert a first others hook in
    let owned : owns a hook ≡ (h == a) = ap (λ c. is_active c a) e in
    elim (Bool-cases (a == h)) [
      | inl k ↦ rw k tt
      | inr k ↦
          let apart : (h == a) ≡ false = ground arith in
          rw k (ground (arith, same, owned, apart, o))
    ]

cleanup-IsOwned :
    (active : Option ℕ) (first others : List HeaderHook) (hook : HeaderHook)
    → IsOwned active (first ++ hook ∷ others)
    → IsOwned (run_cleanup hook active) (first ++ others)
unfolding run_cleanup
cleanup-IsOwned active first others hook o =
    cleaned-IsOwned hook.cleanup active first others hook refl o

effect-IsOwned :
    (handler : Option ℕ) (enabled : Bool) (active : Option ℕ) (first others : List HeaderHook)
    (hook : HeaderHook)
    → IsOwned active (first ++ others)
    → let after = run_header_effect handler enabled hook active in
      IsOwned after.0 (first ++ after.1 ∷ others)
unfolding run_header_effect
effect-IsOwned none enabled active first others hook o =
    inserted-IsOwned (reset_if hook.last_handler active) first others _
      (reset-IsOwned hook.last_handler active (first ++ others) o)
effect-IsOwned (some h) enabled active first others hook o = elim (Bool-cases enabled) [
  | inl e ↦
      let own : HeaderHook = record { last_handler = some h; cleanup = some h } in
      let self : (h == h) ≡ true = (==_iff h h).1 refl in
      rw e (any-insert h first others own ∙ ground arith)
  | inr e ↦ rw e (
      inserted-IsOwned (reset_if hook.last_handler active) first others _
        (reset-IsOwned hook.last_handler active (first ++ others) o))
]

-- Whatever components that use the hook are mounted, rendered again with other handlers and unmounted,
-- in whatever order, the handler that `triggerHeaderRefresh` calls is that of one that is mounted, as
-- its last render gave it.
pub Reach-IsOwned :
    {hooks : List HeaderHook} {active : Option ℕ} → Reach hooks active → IsOwned active hooks
unfolding rerender_hook
Reach-IsOwned start = tt
Reach-IsOwned (mounted handler enabled r) =
    effect-IsOwned handler enabled _ [] _ new_hook (Reach-IsOwned r)
Reach-IsOwned (rerendered {active = active} first others hook handler enabled r) =
    effect-IsOwned handler enabled (run_cleanup hook active) first others hook
      (cleanup-IsOwned active first others hook (Reach-IsOwned r))
Reach-IsOwned (unmounted {active = active} first others hook r) =
    cleanup-IsOwned active first others hook (Reach-IsOwned r)
