-- ===== src/Adapter/Runtime.antt =====
-- The runtime adapters: packages/node-adapter/src/node-runtime-adapter.ts, and those of bun-adapter
-- and deno-adapter, which differ in the names only.
use authia.Prelude.{String, Bool, true, Option}
use authia.Contracts.Errors.{ValidationResult}
use authia.Contracts.Results.{RequestContext, Reply}
use authia.Contracts.Services.{Platform}
use authia.Adapter.{Applied, apply_result, validate_node_config}
use authia.Adapter.Parsing.{ParseInput, AdapterConfig, Parsed}
use authia.Adapter.ParseRequest.{Json, parse_request}

-- RuntimeAdapter; of its capabilities only `redirects` varies by type.
pub record RuntimeAdapter : Type 0 where
  pub parse_request : ParseInput → Parsed RequestContext
  pub apply_result : Reply → Applied
  pub redirects : Bool

-- An adapter, or the message of the error that its construction throws.
pub data CreatedAdapter : Type 0 where
  created : RuntimeAdapter → CreatedAdapter
  throws : String → CreatedAdapter

module _ (platform : Platform) (json_parse : String → Option Json) (config : AdapterConfig) where
  abbrev pub adapter_if_valid : ValidationResult → CreatedAdapter
  adapter_if_valid (ValidationResult.misconfigured message) = CreatedAdapter.throws message
  adapter_if_valid ValidationResult.valid = CreatedAdapter.created (record {
    parse_request = λ input. parse_request platform json_parse input config;
    apply_result = apply_result true;
    redirects = true;
  })

  -- createNodeRuntimeAdapter
  unfoldable pub create_node_runtime_adapter : CreatedAdapter
  create_node_runtime_adapter =
      adapter_if_valid
        (validate_node_config platform config.public_origin config.trusted_forwarded_headers)
