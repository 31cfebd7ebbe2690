-- ===== src/Rest.antt =====
-- internal/providers: the drivers that rest.go describes by a table, and what they share with the other ones
-- (params.go, rows.go, httpclient.go).
pub mod Json
pub mod Texts
pub mod Params
pub mod Classify
pub mod Spec
pub mod Build
pub mod Results
pub mod Search
pub mod Extracts
pub mod Papers
pub mod Builds
pub mod Catalog
pub mod Links
pub mod Extractions
pub mod Outcome
pub mod Crowded
pub mod Waits
pub mod Table
pub mod Panics
pub mod Verdict
pub mod Sent
pub mod Built
mod Tests
