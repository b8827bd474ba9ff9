-- ===== src/Page/FilterOptions/Tests.antt =====
-- The options of the filters at a concrete sequence of events.
use daili_usage_keeper_north.Base.{◌≡◌, refl, String, true, none, some, [], ◌∷◌}
use daili_usage_keeper_north.Page.FilterOptions.{
  FilterOptions, OptionsResponse, first_options, load_event_filter_options, leave_options,
  receive_options,
}
use daili_usage_keeper_north.Page.FilterOptions.Laws.{Step, Steps, is_loaded, loaded, loaded_once}

abbrev loading : FilterOptions String
loading = load_event_filter_options first_options

abbrev response : OptionsResponse String
response = record { models = some ("gpt" ∷ []); sources = none }

abbrev ready : FilterOptions String
ready = receive_options 0 response loading

ready-Steps : Steps first_options ready
unfolding load_event_filter_options
ready-Steps =
    Steps.next (Steps.next (Steps.here first_options) (Step.entered first_options))
      (Step.responded 0 response loading)

ready-is_loaded : is_loaded ready ≡ true
unfolding receive_options load_event_filter_options
ready-is_loaded = refl

-- The tab is left and entered again.
loaded_once_example : loaded (load_event_filter_options (leave_options ready)) ≡ loaded ready
loaded_once_example = loaded_once ready-Steps ready-is_loaded (
    Steps.next (Steps.next (Steps.here ready) (Step.left ready))
      (Step.entered (leave_options ready)))
