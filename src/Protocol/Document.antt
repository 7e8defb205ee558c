-- ===== src/Protocol/Document.antt =====
-- packages/protocol/src/types/desired-state.ts and contract.ts: desired-state documents. A map of
-- labels or annotations is the entries of an object.
use desired_state_protocol.Common.{List, Option, JsString, js, ◌++◌, get_or}
use desired_state_protocol.Protocol.Value.{Value, Entries}

pub record DesiredStateMetadata : Type 0 where
  pub name : JsString
  pub namespace : Option JsString
  pub labels : Option Entries
  pub annotations : Option Entries
  pub request_id : Option JsString

pub record ContractPredicate : Type 0 where
  pub id : JsString
  pub expression : JsString
  pub message : Option JsString

pub record DesiredStateContract : Type 0 where
  pub goal : Option JsString
  pub constraints : Option (List ContractPredicate)
  pub success : Option (List ContractPredicate)

pub record DesiredStateDocument : Type 0 where
  pub api_version : JsString
  pub kind : JsString
  pub metadata : DesiredStateMetadata
  pub contract : Option DesiredStateContract
  pub spec : Value

unfoldable pub document_namespace : DesiredStateDocument → JsString
document_namespace document = get_or document.metadata.namespace (js "default")

unfoldable pub document_identity : DesiredStateDocument → JsString
unfolding document_namespace
document_identity document =
    document.kind ++ js "/" ++ document_namespace document ++ js "/" ++ document.metadata.name
