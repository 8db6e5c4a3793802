-- ===== src/Github/Plugin.antt =====
-- plugins/github/github.go: the state of the plugin that its operations change.
use supergraph.Common.{List}
use supergraph.Common.Bytes.{Text}
use supergraph.Github.Store.{Node, Tables}

pub data GithubEvent : Type 0 where
  node_purged : Text → GithubEvent
  node_updated : Node → GithubEvent

-- `emitted` is what was handed to the emit closure, and `asked` the paths of the REST reads that
-- were requested of GitHub, the newest first; the GraphQL requests are not recorded.
pub record Plugin : Type 0 where
  pub tables : Tables
  pub emitted : List GithubEvent
  pub asked : List Text
