-- ===== src/Tests.antt =====
-- Instances of the theorems on concrete data, and test runs of the definitions.
mod Toy
mod Stage
mod AuditCases
mod DecisionCases
mod ActionCases
mod EngineCases
mod TenancyCases
mod DetectionCases
mod RateCases
mod KeyCases
mod Order
mod PageCases
mod ScoringCases
mod BusCases
mod PipelineCases
