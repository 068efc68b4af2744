-- ===== src/Dashboard.antt =====
-- `generate_status_report` of src/monitoring/HttpDashboard.cpp, as the text that it prints.
use dist_cache.Prelude.{List, [], ◌∷◌, ◌++◌, length}
use dist_cache.Text.{Text, codes}
use dist_cache.Text.Decimal.{to_string}
use dist_cache.Breaker.{Breaker, get_state_string, get_failure_count}
use dist_cache.Ring.{RingMap, get_all_nodes}
use dist_cache.Metrics.{Metrics, generate_json}
use dist_cache.Resp.{to_string_ℤ}

-- The loop that prints the nodes: a comma and a space after each node but the last.
abbrev pub node_list : List Text → Text
node_list [] = []
node_list (node ∷ []) = node
node_list (node ∷ next ∷ nodes) = node ++ (codes ", " ++ node_list (next ∷ nodes))

unfoldable pub generate_status_report : {D : Type 0} → Breaker → RingMap → Metrics D → Text
unfolding get_state_string to_string get_all_nodes generate_json
generate_status_report breaker ring metrics =
    let nodes = get_all_nodes ring in
    codes "\n=== DistCache Status Report ===\nCircuit Breaker: "
    ++ (get_state_string breaker
        ++ (codes " (failures: "
            ++ (to_string_ℤ (get_failure_count breaker)
                ++ (codes ")\nHash Ring: "
                    ++ (to_string (length nodes)
                        ++ (codes " nodes ["
                            ++ (node_list nodes
                                ++ (codes "]\nMetrics: "
                                    ++ (generate_json metrics
                                        ++ codes "\n===============================\n\n")))))))))
