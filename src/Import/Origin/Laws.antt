-- ===== src/Import/Origin/Laws.antt =====
-- What the label of a subscription can tell of its address.
use poolx.Common.{◌++◌, if◌then◌else◌, Option, some, is_empty, ◌≡◌, refl}
use poolx.Common.Text.{Text, units}
use poolx.Import.{SourceConfigRecord, subscription_url}
use poolx.Import.Origin.{Url, mask_url, mask_subscription_url, source_config_origin_label}

-- Two addresses that agree but for the credentials and for what stands in the query and the
-- fragment, if there are any.
pub record Alike (u v : Url) : Type 0 where
  pub protocol : u.protocol ≡ v.protocol
  pub rest : u.rest ≡ v.rest
  pub search : is_empty u.search ≡ is_empty v.search
  pub hash : is_empty u.hash ≡ is_empty v.hash

mask_url-Alike : (u v : Url) → Alike u v → mask_url u ≡ mask_url v
unfolding mask_url
mask_url-Alike u v a = rw (a.protocol, a.rest, a.search, a.hash) refl

module _ (parse_url : Text → Option Url) (print_url : Url → Text) where
  shown-of :
      (a : SourceConfigRecord) (s : Text) (u : Url)
      → a.source_type ≡ subscription_url
      → a.source_url ≡ some s
      → parse_url s ≡ some u
      → source_config_origin_label parse_url print_url a
        ≡ units "来源订阅 " ++ (if is_empty s then units "订阅地址已隐藏" else print_url (mask_url u))
  unfolding source_config_origin_label mask_subscription_url
  shown-of a s u kind address read = rw (kind, address, read) refl

  -- The label of a subscription hides the credentials, the query and the fragment of its address:
  -- two subscriptions have the same label whenever their addresses are read as URLs that agree
  -- but for these.
  pub source_config_origin_label-Alike :
      (a b : SourceConfigRecord) (s t : Text) (u v : Url)
      → a.source_type ≡ subscription_url
      → b.source_type ≡ subscription_url
      → a.source_url ≡ some s
      → b.source_url ≡ some t
      → is_empty s ≡ is_empty t
      → parse_url s ≡ some u
      → parse_url t ≡ some v
      → Alike u v
      → source_config_origin_label parse_url print_url a
        ≡ source_config_origin_label parse_url print_url b
  source_config_origin_label-Alike a b s t u v ha hb hs ht e hu hv alike =
      rw (shown-of a s u ha hs hu, shown-of b t v hb ht hv, e, mask_url-Alike u v alike) refl
