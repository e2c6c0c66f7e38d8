-- ===== src/Lib.antt =====
-- The reference library of the CDX file format (scripts/lib): the canonical form of a document with its
-- id, the container reader, the Merkle constructions, the lineage verifier, the trust and verdict rules
-- that work on their results, and the verdict of the conformance suite.
--
-- Parts, with the file that models each:
--   * Trust/SignatureState (scripts/lib/signature-state.ts, evaluateSignatureState): the state of one
--     signature. Trust/SignatureSet (signature-set.ts, requiredSignerMatcher and
--     evaluateRequiredSigners) combines these states over a required set; what is thrown is a
--     SetError. Trust/Imprint (timestamp.ts, signatureTimestampImprint): the bytes a signature
--     timestamp covers.
--   * Merkle/ContentHash (decodeContentHash of block-merkle.ts and provenance-timestamp.ts):
--     algorithm:hexdigest texts. Merkle/Block (block-merkle.ts): blockMerkleRoot,
--     generateBlockInclusionProof and verifyBlockInclusion. Merkle/Aggregated
--     (provenance-timestamp.ts): verifyMerkleInclusion and checkTimestampBinding.
--   * Lineage (lineage-chain.ts, verifyLineageChain): the memo, the current path, the node meter and
--     the warnings are one record that every step takes and returns.
--   * Verdict (disposition.ts and verdict.ts): the lattice of dispositions and resolveVerdict.
--     Verdict/Archive (archive-verdict.ts): the verdict over the reader's codes.
--   * Container (zip-reader.ts and zip-crc.ts): Bytes has the reads of a Buffer, which throw out of
--     range, and crc32; Directory finds and reads the central directory; Names checks paths; Inflate
--     is inflateEntry and crcMatches; CrossCheck compares the local headers; Reader is readArchive.
--   * Json: the values of JSON. Canonical (scripts/lib/canonicalize.ts): Paths is normalizePath, Depth
--     is assertBoundedDepth, Hashes is algorithmOf, isValidContentHash and hashBytes, StrictJson is
--     parseStrictJson, Metadata is projectMetadata, Assets is buildAssetMap and resolveAssetRef,
--     Marks is normalizeMarks, Runs is mergeAdjacentText, Transform is canon, StoredBytes is
--     validateStoredByteInvariants, Anchors is the relabel map with rewriteContentAnchor, Ids is
--     collectDefinedIds with alphaRenameIds, and Document is canonicalContent with computeDocumentId.
--   * Suite (scripts/lib/conformance-suite.ts): evaluate, the verdict over an adapter's report.
--   * Digits (decimal-digits.ts): compareDigits. Presentation (presentation-selection.ts):
--     selectDefaultPresentation.
--
-- How they interact: readArchive reports codes, which archiveVerdict turns into a disposition;
-- evaluateSignatureState gives the states that evaluateRequiredSigners counts; both Merkle modules
-- read hashes in the same way. computeDocumentId parses the parts, bounds their depth, builds the asset
-- map, and then transforms, validates and renames the content before it is serialized and hashed.
--
-- Parameters: hash functions are an argument `digest`; the store of lineage documents is an argument
-- `resolve`; the vocabulary of conformance/errors.json is an argument `vocab`; UTF-8, lower case and
-- zlib are the record Container.Platform. The parser of JSON is the record
-- Canonical.StrictJson.JsonRuntime, which Canonical.Document.Platform has beside the serializer of
-- RFC 8785 (an argument `jcs` elsewhere), Normalization Form C and the hash functions. The comparators
-- of the conformance suite are an argument `comparators`. Hypotheses on these are named in the
-- statements.
--
-- Bounds and fuel: numbers are natural numbers, and an offset that may be negative is an integer of
-- Container.Bytes. The levels of a Merkle tree take the number of leaves as fuel, since a round
-- over two or more nodes leaves fewer; the walk of a lineage takes its depth bound less one, and a
-- call at a depth above the bound is the argument `abyss`, on which the result does not depend; the
-- walk over local headers has the bound of the code. The size of a 64-bit field is taken exactly,
-- where the code rounds it to a double, and the ratio of two 32-bit sizes is compared without the
-- division. The scan for repeated keys and the depth loop take the length of the text and the
-- number of values as fuel, since a round consumes one of them; the digits of a number take the
-- number itself.
--
-- Not modelled: the sentences beside codes and errors, the canonical JSON of a block (its bytes are
-- an argument), the walks of the canonicalizer over raw content (rawInput, collectStoredTextViolations,
-- firstNonRepresentableNumber), the table of comparators of the conformance suite, the content
-- classifier, the manifest projection, the document verdict and the reference resolver, the breakpoints
-- of a presentation, the zip writer, the fixtures, and the command-line gates around the library.
mod Prelude
pub mod Trust
pub mod Merkle
pub mod Lineage
pub mod Verdict
pub mod Digits
pub mod Presentation
pub mod Suite
pub mod Json
pub mod Canonical
pub mod Container
