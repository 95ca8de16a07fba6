-- ===== src/Nodepool/Strategy.antt =====
-- provider/nodepool/strategy.go: the two dispatch strategies, over any `DoFunc`. One request is
-- followed; what other goroutines do to the nodes meanwhile is not interleaved.
pub mod Conservative
pub mod Race
