-- ===== src/Rest/Spec.antt =====
-- internal/providers: requests, the schema of a driver, and the table of a driver of rest.go. What net/url,
-- net/http and the token source do is a parameter. A header's name is as the source writes it.
use serpent_seek.Prelude.{
  ℕ, ℤ, pos, String, Bool, true, false, Option, none, List, [], ◌∷◌, Dict, map,
}
use serpent_seek.Models.{Row}
use serpent_seek.Rest.Json.{Json, Floats}

-- provider.go: Query
pub record Query : Type 0 where
  pub text : String
  pub count : ℤ
  pub lang : String
  pub country : String
  pub extra : Dict String

-- a parsed URL: the text in front of the query, and the values of the query
pub record Url : Type 0 where
  pub address : String
  pub query : Dict (List String)

pub record Request (F : Type 0) : Type 0 where
  pub method : String
  pub url : Url
  pub body : Option (Json F)
  pub headers : Dict String

pub record Web : Type 0 where
  pub parse_url : String → Option Url
  pub path_escape : String → String
  pub query_escape : String → String
  -- the header of SetBasicAuth
  pub basic_auth : String → String → String
  -- entraToken of tokensource.go
  pub entra_token : Dict String → Option String

-- restAuth
pub record RestAuth : Type 0 where
  pub kind : String
  pub header : String
  pub query_key : String
  pub cred_key : String
  pub login_key : String
  pub password_key : String

pub data ParamType : Type 0 where
  text_type select_type number_type boolean_type : ParamType

-- ParamField, without the texts that the form shows
pub record ParamField : Type 0 where
  pub key : String
  pub type : ParamType
  pub default : String
  pub options : List String
  pub required : Bool

-- ProviderSchema of a driver of the table, without the hints
pub record ProviderSchema : Type 0 where
  pub code : String
  pub deprecated : Bool
  pub default_base_url : String
  pub credentials : List String
  pub params : List ParamField

-- what an extraction does on an upstream's answer
pub data Extracted : Type 0 where
  extracted : List Row → Extracted
  panics : Extracted

-- restSpec, without the name that is shown
pub record RestSpec (F : Type 0) : Type 0 where
  pub code : String
  pub base_url : String
  pub schema : ProviderSchema
  pub method : String
  pub path : String
  pub auth : RestAuth
  pub headers : Dict String
  pub body : Bool
  pub query_key : String
  pub count_field : String
  pub count_cap : ℕ
  pub lang_field : String
  pub country_field : String
  pub result_path : List String
  pub link_keys : List String
  pub title_key : String
  pub snippet_keys : List String
  pub merge_paths : List (List String)
  pub build : Option (Query → Dict String → Dict String → Option (Request F))
  pub extract : Option (Dict (Json F) → Extracted)
  pub extract_p : Option (Dict (Json F) → Dict String → Extracted)
  pub is_empty : Option (Dict (Json F) → List Row → Bool)
  pub fatal_http : List ℤ
  pub retry_http : List ℤ
  pub max_rps : F
  pub throttle_key : String
  pub path_param : String
  pub path_map : Dict String

-- the parameters of a form
abbrev pub text_param : String → String → ParamField
text_param key def = record {
  key = key;
  type = text_type;
  default = def;
  options = [];
  required = false;
}

abbrev pub required_text_param : String → String → ParamField
required_text_param key def = record {
  key = key;
  type = text_type;
  default = def;
  options = [];
  required = true;
}

abbrev pub number_param : String → String → ParamField
number_param key def = record {
  key = key;
  type = number_type;
  default = def;
  options = [];
  required = false;
}

abbrev pub bool_param : String → Bool → ParamField
bool_param key def = record {
  key = key;
  type = boolean_type;
  default = elim def [ true ↦ "true" | false ↦ "false" ];
  options = [];
  required = false;
}

abbrev pub select_param : String → String → List String → ParamField
select_param key def options = record {
  key = key;
  type = select_type;
  default = def;
  options = options;
  required = false;
}

-- commonRetry and commonFatal
abbrev pub common_retry : List ℤ
common_retry = map pos (429 ∷ 500 ∷ 502 ∷ 503 ∷ 504 ∷ [])

abbrev pub common_fatal : List ℤ
common_fatal = map pos (400 ∷ 401 ∷ 403 ∷ 404 ∷ [])

abbrev pub no_auth : RestAuth
no_auth = record {
  kind = "none";
  header = "";
  query_key = "";
  cred_key = "";
  login_key = "";
  password_key = "";
}

module _ {F : Type 0} (go : Floats F) where
  -- a table of which only the address and the names are filled in
  abbrev pub plain_spec : String → String → List String → List ParamField → RestSpec F
  plain_spec code base_url credentials params = record {
    code = code;
    base_url = base_url;
    schema = record {
      code = code;
      deprecated = false;
      default_base_url = base_url;
      credentials = credentials;
      params = params;
    };
    method = "GET";
    path = "";
    auth = no_auth;
    headers = [];
    body = false;
    query_key = "";
    count_field = "";
    count_cap = 0;
    lang_field = "";
    country_field = "";
    result_path = [];
    link_keys = [];
    title_key = "";
    snippet_keys = [];
    merge_paths = [];
    build = none;
    extract = none;
    extract_p = none;
    is_empty = none;
    fatal_http = common_fatal;
    retry_http = common_retry;
    max_rps = go.literal 0 1;
    throttle_key = "";
    path_param = "";
    path_map = [];
  }
