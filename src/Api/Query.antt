-- ===== src/Api/Query.antt =====
-- The query strings of the endpoints: which parameters are sent. `URLSearchParams` encodes them.
use daili_usage_keeper_north.Base.{
  String, Option, none, some, [], ◌∷◌, ◌++◌, if◌then◌else◌, is_blank, trim, decimal, ltb, pos,
  JsNumber, num, Dict,
}

pub record FetchUsageEventsOptions : Type 0 where
  pub page : Option JsNumber
  pub page_size : Option JsNumber
  pub model : Option String
  pub source : Option String
  pub result : Option String

-- What is left of an optional text that is sent only if it is not empty.
unfoldable pub sent : Option String → Option String
sent none = none
sent (some s) = if is_blank s then none else some s

-- `Number.isFinite(n) && n > 0`, then `String(Math.floor(n))`
unfoldable pub sent_number : Option JsNumber → Option String
sent_number (some (num (pos n))) = if ltb 0 n then some (decimal n) else none
sent_number _ = none

-- `options?.model?.trim()`
unfoldable pub sent_trimmed : Option String → Option String
unfolding sent trim
sent_trimmed none = none
sent_trimmed (some s) = sent (some (trim s))

-- `if (value) params.set(key, value)`
abbrev set_if : String → Option String → Dict String
set_if key none = []
set_if key (some value) = (key, value) ∷ []

unfoldable pub range_params : String → Option String → Option String → Dict String
unfolding sent
range_params range start stop =
    ("range", range) ∷ (set_if "start" (sent start) ++ set_if "end" (sent stop))

unfoldable pub event_params :
    String → Option String → Option String → FetchUsageEventsOptions → Dict String
unfolding range_params sent_number sent_trimmed
event_params range start stop options =
    range_params range start stop
    ++ (set_if "page" (sent_number options.page)
        ++ (set_if "page_size" (sent_number options.page_size)
            ++ (set_if "model" (sent_trimmed options.model)
                ++ (set_if "source" (sent_trimmed options.source)
                    ++ set_if "result" (sent_trimmed options.result)))))
