-- ===== src/Lib.antt =====
-- Pask: signed receipts of physical work at a site, and what checks and forwards them.
--
-- The program is a Cargo workspace. crates/pask-wire holds the wire format: the payload with its
-- validation and canonical JSON, digests, chains of receipts, and the inclusion proofs of a
-- transparency log. crates/pask-attest verifies attestation quotes of trusted hardware, with the
-- digests and the canonical JSON of pask-wire. crates/pask-adapter writes a verified receipt to a
-- property system over HTTP, once, with retries. A payload is parsed and validated (Wire.Payload),
-- stands in a chain (Wire.Chain) and in a log (Wire.Merkle), and is what an adapter pushes
-- (Adapter.Buildium). A receipt of the log is scanned and inspected (Wire.Scan, Wire.Inspection), then
-- verified against the statement and the keys that the caller trusts (Wire.Verification); the outer
-- statement and its issuer are checked in Wire.Statement.
--
-- Files and sources:
--   Prelude                  shared tests, list lemmas, Result with bind, strings as UTF-8 bytes.
--   Wire/Merkle.antt         crates/pask-wire/src/receipt.rs: leaf_hash, node_hash and
--                            InclusionProof::reconstruct_root. The loop over the siblings is `walk`,
--                            its body `climb`, the inner shift loop `skip_levels`. Children: Tree has
--                            the tree hash and audit path of RFC 9162, Complete and Sound compare.
--   Wire/Cbor.antt, Wire/Proof.antt, Wire/Receipt.antt
--                            the same file: the CBOR values with the lookups of labels (Cbor/Labels),
--                            InclusionProof::from_wrapped_cbor, Receipt::from_cose_sign1
--                            (Receipt/Decode), attached_receipts (Receipt/Attached), and
--                            verify_inclusion, from the decoded receipt on as `verify_decoded`.
--   Wire/Scan.antt           crates/pask-wire/src/receipt_cbor.rs: the bounded scanner. Machine has the
--                            reader's state, Roles the roles and limits, Atoms heads, numbers and
--                            strings, Items the recursion and `scan` (Budget::scan).
--   Wire/Inspection.antt     crates/pask-wire/src/receipt_inspection.rs: Claims (inspect_claims,
--                            x509_shape, inspect_proof), Report (EnvelopeReport, apply_problem),
--                            Headers (the tests of `inspect` that write nothing) and Inspect (`inspect`
--                            with the report as its state). Cbor/Unique has check_unique_maps.
--   Wire/Verification.antt   crates/pask-wire/src/receipt_verification.rs: Context (bounded_context),
--                            Keys and Proofs (the two loops of `run`), Associate (`associate`), Run
--                            (`run` by its early returns, verify_scitt_receipt).
--   Wire/Statement.antt      crates/pask-wire/src/transparent_statement.rs: Outer (inspect_outer),
--                            Issuer (check_issuer, check_digest), Subject (subject_finding), Verify
--                            (verify_transparent_statement). Approved writes out what a passing
--                            application policy stands for, Runs is a run on the bytes of a statement.
--   Wire/Entry.antt          crates/pask-wire/src/entry.rs.
--   Wire/Chain.antt          crates/pask-wire/src/chain.rs: verify_chain; Chain/Spec says what a chain
--                            is without reference to the loop.
--   Wire/Payload             crates/pask-wire/src/payload.rs: Fields has the structs, Strings the open
--                            enumerations, Validate `Payload::validate` and the parse functions;
--                            Validate/Rules and Validate/Valid write out the rules without its code.
--   Wire/Json.antt           the same file: write_canonical and canonicalize_json.
--   Wire/Digest.antt, Wire/Error.antt
--                            crates/pask-wire/src/digest.rs and error.rs.
--   Attest                   crates/pask-attest/src: Validity (validity.rs), TeeClass (tee_class.rs),
--                            Boot (measured_boot.rs), Evidence (platform_evidence.rs,
--                            sealed_evidence.rs), Attestation (attestation.rs), Error (error.rs), Frame
--                            and Verifier (verifier.rs: parse_frame, and the root of trust with verify).
--   Adapter/Retry.antt       crates/pask-adapter/src/retry.rs.
--   Adapter/Dedup.antt       crates/pask-adapter/src/dedup.rs: the trait as a record with laws;
--                            Dedup/Memory is InMemoryDedupLog, an instance of the record.
--   Adapter/Buildium.antt    crates/pask-adapter/src/buildium: mod.rs, http.rs and mapping.rs, with
--                            verify.rs, outcome.rs and credential.rs of crates/pask-adapter/src.
--                            Buildium/Push is `push`. The world (log, network) is passed
--                            through and returned, with the requests in their order; Push/Sent ties
--                            each of them to the network state that answers it.
--
-- Conventions: a struct is a record, an enum a data type, `?` is bind in Result. Machine integers are
-- natural numbers with their limits written out where the source has them. A crate outside the
-- repository (sha2, time, serde_json, ryu_js, coset, ciborium,
-- ed25519-dalek, fluent-uri, url, reqwest) is a parameter, in a record
-- beside the definitions that use it.
--
-- The sum `seq + 1` in verify_chain is taken modulo 2^64, as in a release build; a debug build panics
-- there instead. A digest recorded through record_pushed is found again with its identifier: this is a
-- law of the log that is asked of its implementation, and the trait's doc leaves open only what a log
-- filled in another way answers.
--
-- Bounds and fuel: `skip_levels` runs on fuel, and `climb` gives it one round more than the node index,
-- which is enough since each round halves the index (Merkle/Steps). `retry_loop` runs on the number of
-- attempts that the policy has left, the loop's own bound. The scanner runs on two rounds of fuel for
-- each byte and one more, which is enough since an item takes a byte at least (Scan/Enough). An instant is counted in nanoseconds from
-- the least SystemTime; the count stays below 2^64 seconds.
--
-- Not modelled: COSE envelopes (envelope.rs, cwt.rs), the proposed profile extensions, the clock's
-- date formatting, the site producer, the client of the transparency service, the other adapters and
-- the test doubles, and the command lines. They are further parts of the program; the generated
-- tables, test vectors, network transports and credentials' file access are input and output or data.
pub mod Prelude
pub mod Wire
pub mod Attest
pub mod Adapter
