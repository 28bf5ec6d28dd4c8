-- ===== src/Wire/Error.antt =====
-- crates/pask-wire/src/error.rs
use pask_workspace.Prelude.{String, Text, ascii, ◌++◌}

pub data Error : Type 0 where
  json : String → Error
  jcs : String → Error
  cose : String → Error
  signature : Error
  header : String → Error
  validation : String → Error
  non_canonical_payload : Error
  receipt : String → Error

-- `Display`
pub display : Error → Text
display (json message) = ascii "JSON error: " ++ ascii message
display (jcs message) = ascii "JCS error: " ++ ascii message
display (cose message) = ascii "COSE error: " ++ ascii message
display signature = ascii "signature error"
display (header message) = ascii "protected-header error: " ++ ascii message
display (validation message) = ascii "payload validation error: " ++ ascii message
display non_canonical_payload = ascii "payload is not JCS canonical"
display (receipt message) = ascii "attached receipt error: " ++ ascii message
