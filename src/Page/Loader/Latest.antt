-- ===== src/Page/Loader/Latest.antt =====
-- The specification of a loader: only the latest request counts. It knows no controllers, no flags and
-- no requests that were given up.
use daili_usage_keeper_north.Base.{
  ℕ, ◌+◌, String, Bool, true, Option, none, some, List, [], ◌∷◌, if◌then◌else◌, ◌==◌,
}
use daili_usage_keeper_north.Store.{Failure}
use daili_usage_keeper_north.Page.Loader.{
  Loader, Pending, Panel, Entry, load, refuse, leave, rerun, settle_response, settle_failure,
  is_auth_error, text_of,
}

-- What happens to a panel.
pub data PanelEvent (Q R : Type 0) : Type 0 where
  entered : Entry Q → PanelEvent Q R
  answered : ℕ → R → PanelEvent Q R
  broke : ℕ → Failure → PanelEvent Q R

-- The latest request, if it is not yet settled, and what is shown.
pub record View (Q D : Type 0) : Type 0 where
  pub waiting : Option (ℕ × Q)
  pub content : D
  pub message : String
  pub next : ℕ
  pub auth_required : Bool

module _ {Q D : Type 0} where
  -- An event about the latest request, if it is that.
  abbrev pub on_latest : ℕ → Option (ℕ × Q) → (Q → View Q D) → View Q D → View Q D
  on_latest i none f v = v
  on_latest i (some (j, q)) f v = if j == i then f q else v

module _ {Q R D : Type 0} (L : Loader Q R D) where
  -- The loader as it is written: an event about a request that is not on its way is none.
  abbrev pub step : PanelEvent Q R → Panel Q D → Panel Q D
  step (entered entry) p = rerun L entry p
  step (answered i r) p = settle_response L i r (p.flights i) p
  step (broke i failure) p = settle_failure L i failure (p.flights i) p

  abbrev pub run : List (PanelEvent Q R) → Panel Q D → Panel Q D
  run [] p = p
  run (e ∷ es) p = run es (step e p)

  abbrev pub specified : PanelEvent Q R → View Q D → View Q D
  specified (entered (load q)) v = record v {
    waiting = some (v.next, q);
    content = L.started v.content;
    message = "";
    next = v.next + 1;
  }
  specified (entered refuse) v = record v {
    waiting = none;
    content = L.emptied v.content;
    message = "";
  }
  specified (entered leave) v = record v { waiting = none }
  specified (answered i r) v =
      on_latest i v.waiting (λ q. record v { waiting = none; content = L.accepted q r v.content }) v
  specified (broke i failure) v =
      on_latest i v.waiting
        (λ q. record v {
          waiting = none;
          content = L.failed_any failure (L.failed_current v.content);
          message = (if is_auth_error failure then v.message else text_of L.fallback failure);
          auth_required = (if is_auth_error failure then true else v.auth_required);
        })
        v

  abbrev pub specified_run : List (PanelEvent Q R) → View Q D → View Q D
  specified_run [] v = v
  specified_run (e ∷ es) v = specified_run es (specified e v)

module _ {Q : Type 0} where
  abbrev pub query_at : ℕ → Option (Pending Q) → Option (ℕ × Q)
  query_at i none = none
  query_at i (some f) = some (i, f.query)

  abbrev pub latest : Option ℕ → (ℕ → Option (Pending Q)) → Option (ℕ × Q)
  latest none flights = none
  latest (some c) flights = query_at c (flights c)

module _ {Q D : Type 0} where
  -- What the specification sees of a panel.
  abbrev pub view_of : Panel Q D → View Q D
  view_of p = record {
    waiting = latest p.controller p.flights;
    content = p.shown;
    message = p.error;
    next = p.next;
    auth_required = p.auth_required;
  }
