-- ===== src/Cluster/Hooks.antt =====
-- `commandVIPHook` of internal/cluster/node.go: the commands that follow a change of leadership. `sh -c`
-- takes what follows the command as `$0`, `$1` and so on.
use go_serve.Common.{Bool, Option, none, some, List, [], ◌∷◌, Str, bytes, is_empty, if◌then◌else◌}
use go_serve.Config.{ClusterConfig}

-- `run`: the arguments of the process, where one is started
unfoldable pub hook_run : ClusterConfig → Str → Option (List Str)
hook_run cfg command =
    if is_empty command
    then none
    else some (
        bytes "/bin/sh"
        ∷ bytes "-c"
        ∷ command
        ∷ bytes "go-serve-vip"
        ∷ cfg.virtual_ip
        ∷ cfg.interface
        ∷ [])

-- `OnLeader` and `OnFollower`
unfoldable pub on_change : ClusterConfig → Bool → Option (List Str)
unfolding hook_run
on_change cfg leader =
    hook_run cfg (if leader then cfg.on_leader_command else cfg.on_follower_command)

-- The processes that the values of the leadership channel start
abbrev pub add_run : Option (List Str) → List (List Str) → List (List Str)
add_run none runs = runs
add_run (some argv) runs = argv ∷ runs

unfoldable pub hook_runs : ClusterConfig → List Bool → List (List Str)
unfolding on_change
hook_runs cfg [] = []
hook_runs cfg (leader ∷ calls) =
    let rest = hook_runs cfg calls in add_run (on_change cfg leader) rest
