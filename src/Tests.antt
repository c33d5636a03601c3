-- ===== src/Tests.antt =====
-- Runs of the code on concrete data, at which the theorems' conditions hold.
mod Data
mod SecurityRuns
mod AuthRuns
mod ClientRuns
mod AppRuns
mod MissingIdRuns
mod SGraphRuns
mod ConfigRuns
mod OverlapRuns
mod ScriptRuns
mod TransferRuns
mod CheckRuns
mod SystemRuns
mod ContractRuns
mod EnvironmentRuns
mod ReportRuns
