-- ===== src/Link/Tests.antt =====
-- A batch of datagrams that is cut into runs.
use mlvpn_rs.Common.{ℕ, List, [], ◌∷◌, replicate}
use mlvpn_rs.Link.Gso.{plan_gso_runs, Covers, plan_gso_runs-Covers}

-- Two full segments, a short tail, and one more datagram.
abbrev datagrams : List (List ℕ)
datagrams = replicate 4 1 ∷ replicate 4 2 ∷ replicate 3 3 ∷ replicate 4 4 ∷ []

plan_gso_runs-Covers_example : Covers 0 datagrams (plan_gso_runs datagrams)
plan_gso_runs-Covers_example = plan_gso_runs-Covers datagrams
