-- ===== src/Verdict/Archive.antt =====
-- scripts/lib/archive-verdict.ts: the verdict over what the container reader found.
pub mod Rejection
mod Tests
use cdx_file_format_spec.Prelude.{String, List, map, Option}
use cdx_file_format_spec.Verdict.{LayerVerdict, resolve_verdict}
use cdx_file_format_spec.Container.Names.{Code, code_id}

unfoldable pub archive_verdict : (String → Option String) → List Code → LayerVerdict
archive_verdict vocab findings = resolve_verdict vocab (map code_id findings)
