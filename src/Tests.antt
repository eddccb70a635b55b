-- ===== src/Tests.antt =====
-- Runs of the definitions on concrete bytes, and the theorems at concrete inputs.
mod TlvRuns
mod PduRuns
mod DparRuns
mod PaletteRuns
mod Ipv6Runs
mod SdRuns
mod PcapRuns
mod ColumnRuns
mod DagRuns
mod DecodeRuns
mod ChildrenRuns
