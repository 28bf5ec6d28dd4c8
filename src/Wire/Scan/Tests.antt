-- ===== src/Wire/Scan/Tests.antt =====
-- A tagged array, scanned as an envelope.
use pask_workspace.Prelude.{ℕ, arith, List, [], ◌∷◌, false}
use pask_workspace.Wire.Inspection.{default_limits}
use pask_workspace.Wire.Scan.Roles.{Role}
use pask_workspace.Wire.Scan.Items.{scan}
use pask_workspace.Wire.Scan.Enough.{Ends, scan-Ends}

-- 18([h'', {}, null, h''])
abbrev envelope_bytes : List ℕ
envelope_bytes = 210 ∷ 132 ∷ 64 ∷ 160 ∷ 246 ∷ 64 ∷ []

scan-Ends_example :
    Ends envelope_bytes default_limits
      (scan envelope_bytes default_limits 0 false 0 Role.envelope "outer_trailing_data")
scan-Ends_example =
    scan-Ends envelope_bytes default_limits 0 0 false Role.envelope "outer_trailing_data"
      (omega arith)
