-- ===== src/Wire/Payload/Strings.antt =====
-- crates/pask-wire/src/payload.rs: the wire strings of the three open enumerations.
-- A `from_` function is the body of a `Deserialize`, after the string is read.
use pask_workspace.Prelude.{
  ◌≡◌, arith, Bool, true, false, Text, ascii, bytes_eq, bytes_eq→eq, if◌then◌else◌,
}
use pask_workspace.Wire.Payload.Fields.{BindingMode, AckProvenance, IssuerAffiliation}

pub binding_mode_str : BindingMode → Text
binding_mode_str BindingMode.direct_witness = ascii "DIRECT_WITNESS"
binding_mode_str BindingMode.delegated_witness = ascii "DELEGATED_WITNESS"
binding_mode_str (BindingMode.unrecognized raw) = raw

pub binding_mode_from : Text → BindingMode
binding_mode_from raw =
    if bytes_eq raw (ascii "DIRECT_WITNESS")
    then BindingMode.direct_witness
    else if bytes_eq raw (ascii "DELEGATED_WITNESS")
    then BindingMode.delegated_witness
    else BindingMode.unrecognized raw

pub ack_provenance_str : AckProvenance → Text
ack_provenance_str AckProvenance.third_party = ascii "THIRD_PARTY"
ack_provenance_str AckProvenance.issuer_asserted = ascii "ISSUER_ASSERTED"
ack_provenance_str AckProvenance.no_acknowledgement = ascii "NONE"
ack_provenance_str (AckProvenance.unrecognized raw) = raw

pub ack_provenance_from : Text → AckProvenance
ack_provenance_from raw =
    if bytes_eq raw (ascii "THIRD_PARTY")
    then AckProvenance.third_party
    else if bytes_eq raw (ascii "ISSUER_ASSERTED")
    then AckProvenance.issuer_asserted
    else if bytes_eq raw (ascii "NONE")
    then AckProvenance.no_acknowledgement
    else AckProvenance.unrecognized raw

pub issuer_affiliation_str : IssuerAffiliation → Text
issuer_affiliation_str IssuerAffiliation.affiliated = ascii "AFFILIATED"
issuer_affiliation_str IssuerAffiliation.independent = ascii "INDEPENDENT"
issuer_affiliation_str IssuerAffiliation.not_disclosed = ascii "NOT_DISCLOSED"
issuer_affiliation_str (IssuerAffiliation.unrecognized raw) = raw

pub issuer_affiliation_from : Text → IssuerAffiliation
issuer_affiliation_from raw =
    if bytes_eq raw (ascii "AFFILIATED")
    then IssuerAffiliation.affiliated
    else if bytes_eq raw (ascii "INDEPENDENT")
    then IssuerAffiliation.independent
    else if bytes_eq raw (ascii "NOT_DISCLOSED")
    then IssuerAffiliation.not_disclosed
    else IssuerAffiliation.unrecognized raw

-- The string read is the string written back: no value is folded into another one.
pub binding_mode_str-from : (raw : Text) → binding_mode_str (binding_mode_from raw) ≡ raw
unfolding binding_mode_str binding_mode_from
binding_mode_str-from raw =
    ground
      (arith, bytes_eq→eq raw (ascii "DIRECT_WITNESS"), bytes_eq→eq raw (ascii "DELEGATED_WITNESS"))

-- The string read is the string written back: no value is folded into another one.
pub ack_provenance_str-from : (raw : Text) → ack_provenance_str (ack_provenance_from raw) ≡ raw
unfolding ack_provenance_str ack_provenance_from
ack_provenance_str-from raw = ground (
  arith,
  bytes_eq→eq raw (ascii "THIRD_PARTY"),
  bytes_eq→eq raw (ascii "ISSUER_ASSERTED"),
  bytes_eq→eq raw (ascii "NONE"),
)

-- The string read is the string written back: no value is folded into another one.
pub issuer_affiliation_str-from :
    (raw : Text) → issuer_affiliation_str (issuer_affiliation_from raw) ≡ raw
unfolding issuer_affiliation_str issuer_affiliation_from
issuer_affiliation_str-from raw = ground (
  arith,
  bytes_eq→eq raw (ascii "AFFILIATED"),
  bytes_eq→eq raw (ascii "INDEPENDENT"),
  bytes_eq→eq raw (ascii "NOT_DISCLOSED"),
)

unfoldable pub is_unrecognized : BindingMode → Bool
is_unrecognized (BindingMode.unrecognized raw) = true
is_unrecognized _ = false
