-- ===== src/Config/Validate.antt =====
-- `Config.Validate` of mihomotui/config_validate.go: every check, in order, appends its problems.
-- A problem is a value with the data that the code prints. `url.Parse`, `net.SplitHostPort` and
-- `strconv.Atoi` are the parameter `NetLib`.
pub mod Problems
pub mod Scalars
pub mod Subscriptions
pub mod Pools
pub mod Rules
pub mod Parts
use mihomo_loongnix.Prelude.{List, ◌++◌}
use mihomo_loongnix.Config.Types.{Config}
use Problems.{Problem, NetLib}
use Scalars.{validate_ports, validate_scalars}
use Subscriptions.{validate_subscriptions, validate_active}
use Pools.{validate_pools}
use Rules.{validate_providers, validate_built_in, validate_custom}

unfoldable pub validate : NetLib → Config → List Problem
validate net c =
    validate_ports c.mihomo
    ++ (validate_scalars net c
        ++ (validate_subscriptions c
            ++ (validate_active c
                ++ (validate_pools c
                    ++ (validate_providers c ++ (validate_built_in c ++ validate_custom c))))))
