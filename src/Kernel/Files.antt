-- ===== src/Kernel/Files.antt =====
-- The payload files of kernel/src/main.cpp. A file is its contents under its path; a payload is
-- written to a temporary file that is renamed, so that the write is one step.
use madre.Base.{
  ℕ, Option, none, some, Bool, true, false, not, ◌++◌, ltb, length, Text, Bytes, codes, Map, assign,
  lookup, Result, ok, err, runtime_error, guard, ◌>>◌,
}
use madre.Protocol.{max_payload_bytes}

unfoldable pub require_c1_payload_size : ℕ → Text → Result (Unit {0})
require_c1_payload_size size description = guard (not (ltb max_payload_bytes size)) (
    runtime_error
      (description ++ codes " exceeds the C1 1 MiB bounded text-generation/v1 payload limit"))

unfoldable pub write_binary_atomic : Text → Bytes → Map Bytes → Result (Map Bytes)
write_binary_atomic path payload files = do
  require_c1_payload_size (length payload) (codes "C1 file-backed payload")
  ok (assign path payload files)

abbrev contents : Text → Option Bytes → Result Bytes
contents path none = err (runtime_error (codes "inspect payload file size: " ++ path))
contents path (some payload) = do
  require_c1_payload_size (length payload) (codes "C1 file-backed payload")
  ok payload

unfoldable pub read_binary_bounded : Text → Map Bytes → Result Bytes
read_binary_bounded path files = contents path (lookup path files)

-- `fs::exists`
abbrev pub exists : Text → Map Bytes → Bool
exists path files = elim (lookup path files) [ none ↦ false | some payload ↦ true ]
