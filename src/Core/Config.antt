-- ===== src/Core/Config.antt =====
-- core/config.go: the configuration and its checks. The reading and parsing of the file, and net's
-- splitting of an address and reading of an IP, are parameters.
use supergraph.Common.{
  zero, Bool, true, false, ◌&&◌, not, Option, none, some, List, [], ◌∷◌, ◌++◌, codes, bytes_eq,
  ◌==◌, if◌then◌else◌, or_else,
}
use supergraph.Common.Bytes.{Text, trim_space}
use supergraph.Common.Dict.{lookup}
use supergraph.Common.Int.{ℤ, pos}
use supergraph.Common.Json.{Fields, no_field}
use supergraph.Common.Split.{clean}

pub record ConfigPeer : Type 0 where
  pub host : Text
  pub url : Text
  pub token : Text

-- The lag threshold is in nanoseconds.
pub record Config : Type 0 where
  pub host_id : Text
  pub listen : Text
  pub data_dir : Text
  pub lag_threshold : ℤ
  pub peers : List ConfigPeer
  pub tokens : List (Text × Text)
  pub plugins : List (Text × Fields)

-- The home directory, if it is known.
pub record System : Type 0 where
  pub home : Option Text
  pub read_file : Text → Option Text
  pub parse : Text → Option Config
  pub split_host_port : Text → Option (Text × Text)
  pub ip_is_loopback : Text → Option Bool

pub data Loaded : Type 0 where
  loaded : Config → Loaded
  unreadable : Loaded
  unparsable : Loaded
  no_host_id : Loaded
  no_tokens : Loaded

abbrev host_part : Text → Option (Text × Text) → Text
host_part listen none = listen
host_part listen (some (host, port)) = host

unfoldable pub listen_is_loopback : System → Text → Bool
listen_is_loopback y listen =
    let host = host_part listen (y.split_host_port listen) in
    if host == []
    then false
    else if host == codes "localhost"
    then true
    else or_else (y.ip_is_loopback host) false

-- filepath.Join of the home directory, or of nothing, and a path.
abbrev in_home : Option Text → Text → Text
in_home none path = clean path
in_home (some home) path = clean (home ++ b'/' ∷ path)

unfoldable pub default_data_dir : System → Text
default_data_dir y = in_home y.home (codes ".local/share/supergraph")

unfoldable pub default_config_path : System → Text
default_config_path y = in_home y.home (codes ".config/supergraph/config.toml")

abbrev or_text : Text → Text → Text
or_text default [] = default
or_text default (c ∷ t) = c ∷ t

abbrev or_threshold : ℤ → ℤ
or_threshold (pos zero) = pos 300000000000
or_threshold z = z

unfoldable pub apply_defaults : System → Config → Config
apply_defaults y c = record c {
  listen = or_text (codes "127.0.0.1:7788") c.listen;
  data_dir = or_text (default_data_dir y) c.data_dir;
  lag_threshold = or_threshold c.lag_threshold;
}

abbrev pub has_no_tokens : List (Text × Text) → Bool
has_no_tokens [] = true
has_no_tokens (t ∷ ts) = false

abbrev pub checked_tokens : System → Config → Loaded
checked_tokens y c =
    if not (listen_is_loopback y c.listen) && has_no_tokens c.tokens then no_tokens else loaded c

abbrev pub parsed : System → Option Config → Loaded
parsed y none = unparsable
parsed y (some c) =
    if trim_space c.host_id == [] then no_host_id else checked_tokens y (apply_defaults y c)

abbrev pub content_read : System → Option Text → Loaded
content_read y none = unreadable
content_read y (some content) = parsed y (y.parse content)

unfoldable pub load_config : System → Text → Loaded
load_config y path = content_read y (y.read_file path)

pub record PluginConfig : Type 0 where
  pub host_id : Text
  pub data_dir : Text
  pub raw : Fields

unfoldable pub plugin_config_for : Config → Text → PluginConfig
plugin_config_for c name = record {
  host_id = c.host_id;
  data_dir = c.data_dir;
  raw = or_else (lookup name c.plugins) no_field;
}
