-- ===== src/Store/Hook/Laws.antt =====
-- What useUsageData asks the overview store for.
use daili_usage_keeper_north.Base.{◌≡◌, true, false, none, is_some, str_eq}
use daili_usage_keeper_north.Store.{LoadOptions}
use daili_usage_keeper_north.Store.Hook.{is_known_range}

-- What a request may ask for: a known range, and two dates with it if it is the custom one, else none.
abbrev pub IsRequest : LoadOptions → Type 0
IsRequest q =
    (is_known_range q.range ≡ true)
    × (str_eq q.range "custom" ≡ true → (is_some q.start ≡ true) × (is_some q.stop ≡ true))
    × (str_eq q.range "custom" ≡ false → (q.start ≡ none) × (q.stop ≡ none))
