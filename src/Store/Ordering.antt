-- ===== src/Store/Ordering.antt =====
-- Which answer the overview store shows when several requests are on their way.
use daili_usage_keeper_north.Base.{
  ℕ, ◌≡◌, ◌≢◌, refl, ap, sym, ◌∙◌, String, Bool, true, false, ◌&&◌, Option, none, some,
  some-injective, List, [], ◌∷◌, All, arith, eq_iff, Bool-cases, inl, inr, is_some, or_else,
}
use daili_usage_keeper_north.Store.{
  Failure, LoadOptions, State, Answer, cached, joined, started, start_request, load_key,
  load_usage_stats, build_query_key, release, on_response, on_failure, clear_usage_stats, is_key,
  is_fresh, message_of,
}
use daili_usage_keeper_north.Store.Invariant.{
  IsConsistent, IsLive, IsShown, Reach, Reach-IsConsistent,
}

-- What a component sees of the store.
pub record View (R : Type 0) : Type 0 where
  pub usage : Option R
  pub loading : Bool
  pub error : String
  pub last_refreshed_at : Option ℕ
  pub last_query_key : Option String

-- A request settles: with a response for its query, or with a failure.
pub data Settled (R : Type 0) : Type 0 where
  response : ℕ → String → R → ℕ → Settled R
  failure : ℕ → Bool → Failure → Settled R

module _ {R : Type 0} where
  abbrev pub view : State R → View R
  view s = record {
    usage = s.usage;
    loading = s.loading;
    error = s.error;
    last_refreshed_at = s.last_refreshed_at;
    last_query_key = s.last_query_key;
  }

  abbrev pub number : Settled R → ℕ
  number (response i key r now) = i
  number (failure i aborted f) = i

  abbrev pub settle : Settled R → State R → State R
  settle (response i key r now) s = on_response i key r now s
  settle (failure i aborted f) s = on_failure i aborted f s

  abbrev pub settle_all : List (Settled R) → State R → State R
  settle_all [] s = s
  settle_all (e ∷ es) s = settle_all es (settle e s)

  abbrev IsAwaiting : ℕ → View R → State R → Type 0
  IsAwaiting i v s = (view s ≡ v) × (s.active_request_controller ≡ some i)

  settle-IsAwaiting :
      (i : ℕ) (v : View R) (e : Settled R) (s : State R)
      → number e ≢ i
      → IsAwaiting i v s
      → IsAwaiting i v (settle e s)
  unfolding on_response on_failure release
  settle-IsAwaiting i v (response j key r now) s ne (same, active) = (ground arith, ground arith)
  settle-IsAwaiting i v (failure j aborted f) s ne (same, active) = (ground arith, ground arith)

  settle_all-IsAwaiting :
      (i : ℕ) (v : View R) (es : List (Settled R)) (s : State R)
      → All (λ e. number e ≢ i) es
      → IsAwaiting i v s
      → IsAwaiting i v (settle_all es s)
  settle_all-IsAwaiting i v [] s h a = a
  settle_all-IsAwaiting i v (e ∷ es) s (ne, h) a =
      settle_all-IsAwaiting i v es (settle e s) h (settle-IsAwaiting i v e s ne a)

  load_key-started :
      (fresh : Bool) (key : String) (s : State R) (i : ℕ)
      → (load_key fresh key s).1 ≡ started i
      → ((load_key fresh key s).0.active_request_controller ≡ some i)
        × (view (load_key fresh key s).0 ≡ record (view s) { loading = true; error = "" })
  unfolding load_key start_request
  load_key-started fresh key s i e = ground arith

  on_response-view :
      (i : ℕ) (key : String) (r : R) (now : ℕ) (s : State R)
      → s.active_request_controller ≡ some i
      → view (on_response i key r now s) ≡ record {
        usage = some r;
        loading = false;
        error = "";
        last_refreshed_at = some now;
        last_query_key = some key;
      }
  unfolding on_response release
  on_response-view i key r now s e = ground arith

  on_failure-view :
      (i : ℕ) (f : Failure) (s : State R)
      → s.active_request_controller ≡ some i
      → view (on_failure i false f s) ≡ record (view s) { loading = false; error = message_of f }
  unfolding on_failure release
  on_failure-view i f s e = ground arith

  -- After a load has started request `i`, whatever other requests settle before it, in any order and
  -- with any result, leaves the store loading with the payload that it had; then the response to `i`
  -- is shown under the query of that load, or its failure is reported over the old payload.
  pub last_load_wins :
      (options : LoadOptions) (now : ℕ) (s : State R) (i : ℕ) (es : List (Settled R)) (r : R)
      (f : Failure) (later : ℕ)
      → (load_usage_stats options now s).1 ≡ started i
      → All (λ e. number e ≢ i) es
      → let key = build_query_key options.range options.start options.stop in
        let waiting = settle_all es (load_usage_stats options now s).0 in
        (view waiting ≡ record (view s) { loading = true; error = "" })
        × (view (on_response i key r later waiting) ≡ record {
          usage = some r;
          loading = false;
          error = "";
          last_refreshed_at = some later;
          last_query_key = some key;
        })
        × (view (on_failure i false f waiting)
            ≡ record (view s) { loading = false; error = message_of f })
  unfolding load_usage_stats
  last_load_wins options now s i es r f later e others =
      let key = build_query_key options.range options.start options.stop in
      let (active, seen) = load_key-started (is_fresh options now key s) key s i e in
      let (same, still) = settle_all-IsAwaiting i _ es _ others (seen, active) in
      (
        same,
        on_response-view i key r later _ still,
        on_failure-view i f _ still
            ∙ ap (λ (v : View R). record v { loading = false; error = message_of f }) same,
      )

  IsLive-active :
      (key_of : R → String) (s : State R) (o : Option ℕ)
      → IsLive key_of o s
      → is_some o ≡ true
      → (c : ℕ) × (k : String) × (o ≡ some c)
        × (s.flights c ≡ some (record { query_key = k; aborted = false }))
  IsLive-active key_of s none h e = cc
  IsLive-active key_of s (some c) (a, (k, b, f)) e = (c, k, refl, f)

  -- A reachable store that loads is waiting for a request that is on its way and not aborted, and either
  -- way in which that request can settle ends the loading.
  pub loading-ends :
      (key_of : R → String) (s : State R)
      → Reach key_of s
      → s.loading ≡ true
      → (c : ℕ) × (k : String) × (s.flights c ≡ some (record { query_key = k; aborted = false }))
        × ((r : R) (now : ℕ) → (on_response c k r now s).loading ≡ false)
        × ((f : Failure) → (on_failure c false f s).loading ≡ false)
  loading-ends key_of s reach e =
      let inv = Reach-IsConsistent key_of reach in
      let (c, k, active, flies) =
        IsLive-active key_of s s.active_request_controller inv.live (inv.busy e) in
      (
        c,
        k,
        flies,
        λ r now. ap (λ (v : View R). v.loading) (on_response-view c k r now s active),
        λ f. ap (λ (v : View R). v.loading) (on_failure-view c f s active),
      )

  -- What an answer of `loadUsageStats` promises for the query `key`.
  abbrev pub Serves : (key_of : R → String) → String → State R → Answer → Type 0
  Serves key_of key s cached = (r : R) × (s.usage ≡ some r) × (key_of r ≡ key)
  Serves key_of key s (joined i) = s.flights i ≡ some (record { query_key = key; aborted = false })
  Serves key_of key s (started i) = s.flights i ≡ none

  cached-Serves :
      (key_of : R → String) (key : String) (o : Option R) (k : Option String)
      → IsShown key_of o k
      → is_some o ≡ true
      → is_key k key ≡ true
      → (r : R) × (o ≡ some r) × (key_of r ≡ key)
  cached-Serves key_of key none k h e f = cc
  cached-Serves key_of key (some r) none h e f = cc
  cached-Serves key_of key (some r) (some j) h e f =
      (r, refl, sym (some-injective _ _ h) ∙ (eq_iff j key).0 f)

  joined-Serves :
      (key_of : R → String) (key : String) (s : State R) (o : Option ℕ)
      → IsLive key_of o s
      → is_some s.active_request ≡ true
      → is_key s.active_request_key key ≡ true
      → s.flights (or_else s.active_request 0) ≡ some (record { query_key = key; aborted = false })
  joined-Serves key_of key s none (a, b) e f = ground arith
  joined-Serves key_of key s (some c) (a, (k, b, flies)) e f = rw a (
      flies
      ∙ ap (λ j. some (record { query_key = j; aborted = false })) ((eq_iff k key).0 (rw b at f)))

  load_key-Serves :
      (key_of : R → String) (fresh : Bool) (key : String) (s : State R)
      → IsConsistent key_of s
      → (fresh ≡ true → (is_some s.usage ≡ true) × (is_key s.last_query_key key ≡ true))
      → Serves key_of key s (load_key fresh key s).1
  unfolding load_key
  load_key-Serves key_of true key s inv h =
      cached-Serves key_of key s.usage s.last_query_key inv.shown (h refl).0 (h refl).1
  load_key-Serves key_of false key s inv h =
      elim (Bool-cases (s.loading && is_some s.active_request && is_key s.active_request_key key)) [
        | inl e ↦ rw e (
            joined-Serves key_of key s s.active_request_controller inv.live (ground arith)
              (ground arith))
        | inr e ↦ rw e (inv.unused s.next (omega arith))
      ]

  -- In every reachable state a load is served rightly: a cached payload answers the query that is asked
  -- for, a request that is joined is on its way for that query and not aborted, and a request that is
  -- started has a number of its own.
  pub load_usage_stats-Serves :
      (key_of : R → String) (options : LoadOptions) (now : ℕ) (s : State R)
      → Reach key_of s
      → Serves key_of
          (build_query_key options.range options.start options.stop)
          s
          (load_usage_stats options now s).1
  unfolding load_usage_stats is_fresh
  load_usage_stats-Serves key_of options now s reach =
      let key = build_query_key options.range options.start options.stop in
      load_key-Serves key_of (is_fresh options now key s) key s (Reach-IsConsistent key_of reach)
        (λ e. (ground arith, ground arith))

  -- If a reachable store loads, some request is on its way and not aborted, `clearUsageStats` empties
  -- the store, and the response to that request fills it again.
  pub on_response-clear :
      (key_of : R → String) (s : State R) (r : R) (later : ℕ)
      → Reach key_of s
      → s.loading ≡ true
      → (c : ℕ) × (k : String) × (s.flights c ≡ some (record { query_key = k; aborted = false }))
        × ((clear_usage_stats s).usage ≡ none)
        × ((on_response c k r later (clear_usage_stats s)).usage ≡ some r)
  unfolding clear_usage_stats
  on_response-clear key_of s r later reach e =
      let inv = Reach-IsConsistent key_of reach in
      let (c, k, active, flies) =
        IsLive-active key_of s s.active_request_controller inv.live (inv.busy e) in
      (c, k, flies, refl, ap (λ (v : View R). v.usage) (on_response-view c k r later _ active))
