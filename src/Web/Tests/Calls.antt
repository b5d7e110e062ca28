-- ===== src/Web/Tests/Calls.antt =====
-- The calls of the web client at a concrete state.
use remodelator.Base.{false, true, some}
use remodelator.Web.Api.Calls.{Call, prune_audit}
use remodelator.Web.Api.Laws.{Carries, perform-Carries}
use remodelator.Web.Api.Send.{Encoding, perform}
use remodelator.Web.Client.Laws.{SendsOne}
use remodelator.Web.Tests.{boss, plain}

-- an encoding that knows one query
abbrev pub encodes : Encoding
encodes = record {
  search_params = λ entries. "retention_days=90&dry_run=false";
  encode_uri_component = λ s. s;
}

perform-Carries_example :
    SendsOne boss
      (perform plain encodes (Call.admin (prune_audit (some "90") (some false))) boss).1
      (Carries boss true)
perform-Carries_example =
    perform-Carries plain encodes boss (Call.admin (prune_audit (some "90") (some false)))
