-- ===== src/Cluster/Quorum.antt =====
-- src/cluster.cpp: a suspected node is marked as failed when a majority holds that it is.
use epochkv.Cluster.{Cluster}
