-- ===== src/Page.antt =====
-- The usage page, web/src/pages/UsagePage.tsx: the logic outside its markup.
pub mod AutoRefresh
pub mod Dates
pub mod Analysis
pub mod Controls
pub mod FilterOptions
pub mod Loader
pub mod HeaderRefresh
pub mod Status
pub mod Session
pub mod Sync
pub mod Examples
pub mod Tests
