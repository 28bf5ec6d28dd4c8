-- ===== src/Wire/Inspection/Tests.antt =====
-- An inspection of bytes that no reader reads.
use pask_workspace.Prelude.{ℕ, ◌≤◌, true, List, [], ◌∷◌, none}
use pask_workspace.Wire.Cbor.{CborLibrary}
use pask_workspace.Wire.Inspection.{Policy, default_limits}
use pask_workspace.Wire.Inspection.Inspect.{inspect_scitt_receipt}
use pask_workspace.Wire.Inspection.Sound.{
  IsUnauthenticated, inspect_scitt_receipt-IsUnauthenticated,
}

abbrev no_reader : CborLibrary
no_reader = record { from_reader = λ input. none; into_writer = λ value. none }

abbrev sample_policy : Policy
sample_policy = record { strict_cross_map = true; limits = default_limits }

-- 18([h'', {}, null, h''])
abbrev envelope_bytes : List ℕ
envelope_bytes = 210 ∷ 132 ∷ 64 ∷ 160 ∷ 246 ∷ 64 ∷ []

inspect_scitt_receipt-IsUnauthenticated_example :
    IsUnauthenticated envelope_bytes
      (inspect_scitt_receipt no_reader (λ t. true) sample_policy envelope_bytes)
    × ((inspect_scitt_receipt no_reader
          (λ t. true)
          sample_policy
          envelope_bytes).cbor_items_inspected
        ≤ 4097)
inspect_scitt_receipt-IsUnauthenticated_example =
    inspect_scitt_receipt-IsUnauthenticated envelope_bytes no_reader (λ t. true) sample_policy
