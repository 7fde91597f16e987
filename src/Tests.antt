-- ===== src/Tests.antt =====
-- Runs of the definitions on concrete data, and each theorem at an input where its hypotheses hold.
mod Samples
mod Pairs
mod Stores
mod Routing
mod Nodes
mod Gossiping
mod Leaving
mod Pools
mod Muxing
mod Tasking
mod Wiring
mod Clusters
mod Together
mod Serving
mod Apps
mod Benching
