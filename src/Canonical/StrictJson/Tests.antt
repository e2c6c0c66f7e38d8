-- ===== src/Canonical/StrictJson/Tests.antt =====
-- Scans of texts with and without a repeated key; literals have no escapes here.
use cdx_file_format_spec.Prelude.{◌≡◌, refl, ok, err, some, codes}
use cdx_file_format_spec.Canonical.Errors.{duplicate_key}
use cdx_file_format_spec.Canonical.StrictJson.{JsonRuntime, syntax_error, detect_duplicate_keys}

abbrev plain : JsonRuntime
plain = record { parse = λ text. syntax_error; parse_string = λ raw. some raw }

repeated :
    detect_duplicate_keys plain (codes "{\"a\":{\"b\":1},\"b\":[\"a\",\"a\"],\"a\":2}")
    ≡ err duplicate_key
unfolding detect_duplicate_keys
repeated = refl

distinct :
    detect_duplicate_keys plain (codes "{\"a\":{\"b\":1, \"a\": null},\"b\":[\"a\",\"a\"]}") ≡ ok tt
unfolding detect_duplicate_keys
distinct = refl
