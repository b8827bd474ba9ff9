-- ===== src/Lib.antt =====
-- A verification library for the dashboard of Daili Usage Keeper, the TypeScript program under
-- web/src. The dashboard logs in, loads a usage payload from the keeper's HTTP API, and computes from
-- it what its cards, charts and tables show.
--
-- The parts, and the files that model them:
--   Usage           web/src/utils/usage.ts and the payload types of web/src/lib/types.ts: Payload is
--                   UsagePayload, DetailRecord is UsageDetailRecord. Usage/Details is
--                   collectUsageDetails (a payload to its rows), Usage/Rebuild is
--                   buildUsageFromDetails (rows to a payload), Usage/Window is
--                   resolveUsageFilterWindow, filterUsageByWindow and filterUsageByTimeRange,
--                   Usage/Health is calculateServiceHealthData, Usage/Stats is calculateCost,
--                   getApiStats and getModelStats, Usage/Chart is buildHourlyWindow and the charts
--                   of rows, Usage/Chart/Build is the rest of buildChartData, Usage/Series is the
--                   series of tokens and costs; Usage/Latency is web/src/utils/usage/latency.ts.
--   Store           web/src/stores/useUsageStatsStore.ts: State is the state of the store with the
--                   three variables of the module, load_usage_stats is the part of loadUsageStats up
--                   to its await, on_response and on_failure are what runs after it, with the finally
--                   block (release). The overview of the page is loaded through it, by
--                   web/src/components/usage/hooks/useUsageData.ts, which is Store/Hook.
--   Api             web/src/lib/api.ts: the stored token and what a reply does to it (Api), the query
--                   strings (Api/Query) and the endpoints (Api/Endpoints). The store above, the hooks
--                   and the pages call these endpoints.
--   App             web/src/App.tsx: the login and the session, through the client above.
--   Cards           web/src/components/usage: the rows of CredentialStatsCard.tsx, Cards/LineEditor is
--                   ChartLineSelector.tsx, whose lines the page normalizes, Cards/Tooltip the tooltip
--                   of ServiceHealthCard.tsx, Cards/HealthGrid its numbers, Cards/Tables the
--                   sortable tables of ModelStatsCard.tsx and ApiDetailsCard.tsx.
--   Overview        what the overview shows of the server's answer: buildUsageSparklineSeries of
--                   useSparklines.ts, buildStatCardMetrics of StatCards.tsx, Overview/CostTrend is
--                   CostTrendChart.tsx, Overview/Tokens is TokenBreakdownChart.tsx, Overview/ChartHook
--                   is useChartData.ts, which draws with Usage/Chart.
--   Page            web/src/pages/UsagePage.tsx. Page/AutoRefresh is scheduleOverviewAutoRefresh, the
--                   timer that reloads the overview through the store; Page/Dates the custom range with
--                   its dates; Page/Controls the chart lines, the range and the tab with what is stored
--                   of them, Page/Controls/Filters the filters of the events; Page/Loader the request
--                   of a tab with its controller, which loadAnalysis, loadEvents, loadCredentials and
--                   loadPricing write out one by one, Page/Loader/Tabs what each of them sets;
--                   Page/Analysis apiStats and modelStats; Page/Sync syncCpaData and its button;
--                   Page/Status the poll of the status; Page/FilterOptions loadEventFilterOptions;
--                   Page/Session what is stored of the controls and loaded again; Page/HeaderRefresh
--                   web/src/hooks/useHeaderRefresh.ts, by which the page refreshes its tab.
--   Events          web/src/components/usage/RequestEventsDetailsCard.tsx: the rows of the table of
--                   events, the CSV export (Events/Csv), the pager and the filters (Events/Paging).
--   Pricing         setModelPrices of web/src/components/usage/hooks/usePricingData.ts. Pricing/Form is
--                   PriceSettingsCard.tsx, whose handlers call it.
--   Snapshot        web/src/lib/usage.ts: collectUsageEvents and filterUsageSnapshot, and in
--                   Snapshot/Summary the rates, the token breakdown, the costs and the trends, in
--                   Snapshot/Tables buildApiSummary and buildModelSummary.
--   Theme           web/src/stores/useThemeStore.ts with the attribute of the document and the colours
--                   of the system.
--   Ui              web/src/components/ui: Ui/ScrollLock is lockScroll and unlockScroll of Modal.tsx,
--                   Ui/Dialog the timers of Modal.tsx, Ui/Dialog/Focus its keys, Ui/Select the keys
--                   and the list of Select.tsx.
--   Host            what the browser provides: dates, the time zone, the collation of strings.
--   Base            Boolean tests, lists, integers, strings, dictionaries and the stable sort.
--
-- How the code is modelled:
--   - A value of the type `number` is a JsNumber: an integer, or NaN, or an infinity. Integers are
--     exact, as they are in the code below 2^53; fractions occur where the code divides, and a quotient
--     is kept as the pair of the two numbers, or (prices) as an argument, Money.
--   - An object used as a dictionary, or a Map, is its list of entries in order of insertion. Keys that
--     JavaScript orders or treats in another way (whole numbers, `__proto__`) are not singled out.
--   - `sort` is a stable sort by the comparison of the call.
--   - Dates, the time zone, collation, `localStorage`, `fetch` and `Intl` are arguments; what a theorem
--     needs of them is one of its hypotheses.
--   - An `await` ends a step: the store and the timers are step relations, and their invariants hold
--     for any sequence of steps. Requests and intervals are numbered.
--   - All recursion is on lists or on numbers that the code counts. Only the digits of a number are
--     computed on fuel: n + 1 for n, since a division by ten lowers every number but 0.
--
-- Not modelled: the backend in Go (internal, cmd), the deployment scripts (scripts,
-- hf_state_snapshot.py), the markup and the styles of the components, translations, the number formats
-- of the cards, the options of the charts, and the focus that Modal.tsx sets when it opens and gives
-- back.
pub mod Base
pub mod Host
pub mod Usage
pub mod Store
pub mod Api
pub mod App
pub mod Cards
pub mod Overview
pub mod Page
pub mod Events
pub mod Pricing
pub mod Snapshot
pub mod Theme
pub mod Ui
