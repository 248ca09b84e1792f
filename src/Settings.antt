-- ===== src/Settings.antt =====
-- The settings: server/web/features/settings, with the records of types.ts and of
-- server/web/types/public-status.ts.
pub mod Fields
pub mod Options
pub mod Entries
pub mod Actions
pub mod Inputs
pub mod Server
pub mod Page
use poolx.Common.{ℕ, Bool, Option, String}
use poolx.Common.Text.{Text}

pub record OptionItem : Type 0 where
  pub key : String
  pub value : Text

pub record GeoIpPreviewResult : Type 0 where
  pub provider : Text
  pub ip : Text
  pub iso_code : Text
  pub name : Text
  pub latitude : Option Text
  pub longitude : Option Text

pub record KernelBinaryInstallResult : Type 0 where
  pub kernel_type : Text
  pub install_path : Text
  pub binary_source : Text
  pub detected_version : String
  pub file_name : Text
  pub release_tag : Option Text
  pub installed_at : Text

pub record UpdateSelfPayload : Type 0 where
  pub username : Text
  pub display_name : Text
  pub password : Text

pub record PublicStatus : Type 0 where
  pub version : Text
  pub start_time : ℕ
  pub email_verification : Bool
  pub github_oauth : Bool
  pub github_client_id : Text
  pub system_name : Text
  pub home_page_link : Text
  pub footer_html : Text
  pub wechat_qrcode : Text
  pub wechat_login : Bool
  pub server_address : Text
  pub turnstile_check : Bool
  pub turnstile_site_key : Text
