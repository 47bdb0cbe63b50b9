-- ===== src/Importer/Types.antt =====
-- The values that an import passes around: subscribers, CSV columns and the session's options
-- (internal/subimporter/importer.go and inspect.go), and the functions that it takes from Go's
-- Unicode tables, its mail parser, its JSON parser and the title caser.
use listnun.Prelude.{ℕ, Bool, List, Option, Text}
use listnun.Importer.Status.{Mode}

-- A Go int that may be negative.
pub data ℤ : Type 0 where
  pos : ℕ → ℤ
  negsuc : ℕ → ℤ

-- Column.As; `unknown` is any text that is none of the five.
pub data As : Type 0 where
  email name attribute attributes skip unknown : As

pub record Column : Type 0 where
  pub index : ℤ
  pub as_what : As
  pub key : Text

-- A value of a subscriber's attributes: text, or a member of a JSON cell in its raw form.
pub data Value : Type 0 where
  text : Text → Value
  json : Text → Value

pub record SubReq : Type 0 where
  pub email : Text
  pub name : Text
  pub attribs : List (Text × Value)

pub data SubStatus : Type 0 where
  unconfirmed confirmed unsubscribed : SubStatus

pub record SessionOpt : Type 0 where
  pub filename : Text
  pub mode : Mode
  pub sub_status : SubStatus
  pub overwrite : Bool
  pub overwrite_user_info : Bool
  pub overwrite_sub_status : Bool
  pub list_ids : List ℕ
  pub columns : List Column
  pub tenant_id : ℕ

-- What the validation asks of code outside the repository. `parse_address` is mail.ParseAddress,
-- down to the Address field; `unmarshal` gives the members that json.Unmarshal puts into the map
-- before it ends, whether it ends with an error or not, or `none` for the JSON value null, which makes
-- the map nil.
pub record Std : Type 0 where
  pub to_lower : Text → Text
  pub trim_space : Text → Text
  pub fields : Text → List Text
  pub title : Text → Text
  pub parse_address : Text → Option Text
  pub unmarshal : Text → Option (List (Text × Value))
