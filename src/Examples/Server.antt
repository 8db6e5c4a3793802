-- ===== src/Examples/Server.antt =====
-- Examples for core/config.go and server/server.go.
use supergraph.Common.{
  ◌≡◌, ◌≢◌, ◌↔◌, refl, true, false, none, some, [], ◌∷◌, ◌++◌, codes, bytes_eqb,
}
use supergraph.Common.Bytes.{Text, trim_space, trim_left, trim_right, is_space}
use supergraph.Common.Int.{pos}
use supergraph.Core.Config.{Config, System, load_config, apply_defaults, listen_is_loopback}
use supergraph.Server.{admits}
use supergraph.Server.Guard.{is_token, admits-load_config}

abbrev off_box : Config
off_box = record {
  host_id = codes "box";
  listen = codes "10.0.0.1:7788";
  data_dir = codes "/data";
  lag_threshold = pos 1;
  peers = [];
  tokens = (codes "peer", codes "t0") ∷ [];
  plugins = [];
}

abbrev system : System
system = record {
  home = none;
  read_file = λ _. some [];
  parse = λ _. some off_box;
  split_host_port = λ _. some (codes "10.0.0.1", codes "7788");
  ip_is_loopback = λ _. some false;
}

admits-load_config_example :
    (off_box.tokens ≢ [])
    × ((admits system off_box (codes "Bearer t0") ≡ true) ↔ (
        (t : Text) × (codes "Bearer t0" ≡ codes "Bearer " ++ t)
        × (is_token t off_box.tokens ≡ true)))
unfolding load_config apply_defaults listen_is_loopback trim_space trim_left trim_right is_space
    bytes_eqb
admits-load_config_example =
    admits-load_config system (codes "config.toml") off_box (codes "Bearer t0") refl refl
