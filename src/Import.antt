-- ===== src/Import.antt =====
-- The import of proxy nodes: server/web/features/import, with the records of types.ts.
pub mod Origin
pub mod Panel
use poolx.Common.{ℕ, List, Option, String, Bool, true, false}
use poolx.Common.Text.{Text}

pub data SourceType : Type 0 where
  upload subscription_url : SourceType

pub record SourceConfigRecord : Type 0 where
  pub id : ℕ
  pub filename : Text
  pub source_type : SourceType
  pub source_url : Option Text
  pub content_type : Option String
  pub fetched_at : Option String
  pub content_hash : String
  pub status : String
  pub total_nodes : ℕ
  pub valid_nodes : ℕ
  pub invalid_nodes : ℕ
  pub duplicate_nodes : ℕ
  pub imported_nodes : ℕ
  pub uploaded_by : String
  pub uploaded_by_id : ℕ
  pub created_at : String
  pub updated_at : String

-- `'none' | 'batch' | 'database'`.
pub data DuplicateScope : Type 0 where
  unique_node batch database : DuplicateScope

pub record ParsedNodePreview : Type 0 where
  pub name : String
  pub type : String
  pub server : String
  pub port : ℕ
  pub fingerprint : String
  pub duplicate_scope : DuplicateScope

pub record ParseIssue : Type 0 where
  pub index : ℕ
  pub name : Option String
  pub message : String

pub record ParseSummary : Type 0 where
  pub total_nodes : ℕ
  pub valid_nodes : ℕ
  pub invalid_nodes : ℕ
  pub duplicate_nodes : ℕ
  pub importable_nodes : ℕ

pub record SourceParseResult : Type 0 where
  pub source_config : SourceConfigRecord
  pub summary : ParseSummary
  pub nodes : List ParsedNodePreview
  pub errors : List ParseIssue

pub record SourceImportResult : Type 0 where
  pub source_config_id : ℕ
  pub imported_nodes : ℕ
  pub skipped_nodes : ℕ

pub record ParsedNodeTestResult : Type 0 where
  pub node_id : ℕ
  pub node_name : String
  pub status : String
  pub latency_ms : Option ℕ
  pub error_message : Option String
  pub test_url : Option String
  pub dial_address : String
  pub started_at : String
  pub finished_at : String
  pub last_tested_at : Option String

-- `node.duplicate_scope === 'none'`.
unfoldable pub is_importable : ParsedNodePreview → Bool
is_importable node = elim node.duplicate_scope [
  | unique_node ↦ true
  | batch ↦ false
  | database ↦ false
]
