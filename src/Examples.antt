-- ===== src/Examples.antt =====
-- The properties at concrete inputs that meet their hypotheses, and runs of the definitions.
mod Cli
mod Core
mod Claude
mod Executor
mod Git
mod Github
mod Graph
mod Hook
mod Keys
mod Liveness
mod Peer
mod Proxy
mod Reconcile
mod Server
mod Tail
mod Tmux
mod Transcript
