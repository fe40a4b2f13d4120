-- ===== src/Policy/Accepting.antt =====
-- The composer takes a plan that was compiled for the caller's models.
use azure_llm_governance_api.Prelude.{Option, List}
use azure_llm_governance_api.Fallback.Compile.{Compiled}
use azure_llm_governance_api.Policy.Compose.{Request, Chain}

-- The chain of a plan as it was compiled for a caller.
abbrev pub compiled_chain : Compiled → Chain
compiled_chain c = record { enabled = c.enabled; max_depth = c.max_depth; chain = c.chain }

abbrev pub with_fallback : Request → Option Chain → Request
with_fallback r f = record r { fallback = f }
