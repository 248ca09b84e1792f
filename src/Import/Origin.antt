-- ===== src/Import/Origin.antt =====
-- Where a configuration came from, in components/source-import-page.tsx. The browser's `URL` is a
-- parameter: `parse_url` is its constructor, none where that throws, and `print_url` its `toString`.
pub mod Laws
use poolx.Common.{
  Bool, true, false, ◌||◌, List, [], ◌++◌, Option, none, some, String, if◌then◌else◌, is_empty,
  ◌==◌, list_eq,
}
use poolx.Common.Text.{Text, units}
use poolx.Import.{
  SourceType, upload, subscription_url, SourceConfigRecord, DuplicateScope, unique_node, batch,
  database,
}

-- The parts of a `URL` that the source reads or sets; `rest` is its host, port and path.
pub record Url : Type 0 where
  pub protocol : Text
  pub username : Text
  pub password : Text
  pub rest : Text
  pub search : Text
  pub hash : Text

module _ (parse_url : Text → Option Url) where
  -- `isValidSubscriptionURL`.
  unfoldable pub is_valid_subscription_url : Text → Bool
  is_valid_subscription_url value = elim (parse_url value) [
    | none ↦ false
    | some url ↦ url.protocol == units "http:" || url.protocol == units "https:"
  ]

-- The assignments to `url` in `maskSubscriptionURL`.
unfoldable pub mask_url : Url → Url
mask_url url = record url {
  username = [];
  password = [];
  search = if is_empty url.search then [] else units "?***";
  hash = if is_empty url.hash then [] else units "#***";
}

module _ (parse_url : Text → Option Url) (print_url : Url → Text) where
  -- `maskSubscriptionURL`.
  unfoldable pub mask_subscription_url : Option Text → Text
  unfolding mask_url
  mask_subscription_url none = units "订阅地址已隐藏"
  mask_subscription_url (some value) =
      if is_empty value
      then units "订阅地址已隐藏"
      else elim (parse_url value) [ none ↦ units "订阅地址已隐藏" | some url ↦ print_url (mask_url url) ]

  -- `sourceConfigOriginLabel`.
  unfoldable pub source_config_origin_label : SourceConfigRecord → Text
  source_config_origin_label source_config = elim source_config.source_type [
    | subscription_url ↦ units "来源订阅 " ++ mask_subscription_url source_config.source_url
    | upload ↦ units "文件 " ++ source_config.filename
  ]

-- `duplicateScopeLabel`.
unfoldable pub duplicate_scope_label : DuplicateScope → String
duplicate_scope_label batch = "批内重复"
duplicate_scope_label database = "库内已存在"
duplicate_scope_label unique_node = "可导入"
