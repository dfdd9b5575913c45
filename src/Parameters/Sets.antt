-- ===== src/Parameters/Sets.antt =====
-- The table of rfc6330_alg/parameters.c, in five runs.
mod First
mod Second
mod Third
mod Fourth
mod Fifth
use tv_rq.Prelude.{List, ◌++◌}
use tv_rq.Parameters.Row.{BaseParamSet}
use First.{first_sets}
use Second.{second_sets}
use Third.{third_sets}
use Fourth.{fourth_sets}
use Fifth.{fifth_sets}

unfoldable pub base_param_sets : List BaseParamSet
unfolding first_sets second_sets third_sets fourth_sets fifth_sets
base_param_sets = first_sets ++ (second_sets ++ (third_sets ++ (fourth_sets ++ fifth_sets)))
