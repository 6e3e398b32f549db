-- ===== src/Domain/Planning.antt =====
-- packages/core/src/domain/states.ts: FeatureKind and GapSeverity.
use mini_coder.Common.{String}

pub data FeatureKind : Type 0 where
  feature discovery : FeatureKind

pub data GapSeverity : Type 0 where
  blocking non_blocking : GapSeverity

-- The literal that the database holds.
abbrev pub gap_severity_value : GapSeverity → String
gap_severity_value GapSeverity.blocking = "blocking"
gap_severity_value GapSeverity.non_blocking = "non_blocking"
