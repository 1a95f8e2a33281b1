-- ===== src/Log/Tests.antt =====
-- Messages under the level `info`.
use omnetpp_federate.Prelude.{◌≡◌, refl, [], ◌∷◌}
use omnetpp_federate.Log.{loglevel_info, log_debug, log_info, set_log_level, is_log_enabled, ns_log}
use omnetpp_federate.Log.Levels.{ns_log-rank}

ns_log-rank_example :
    ns_log (set_log_level loglevel_info) "ClientServerChannel" log_debug ("retry" ∷ []) []
    ≡ "ClientServerChannel" ∷ ": " ∷ "retry" ∷ "\n" ∷ []
ns_log-rank_example = ns_log-rank loglevel_info "ClientServerChannel" log_debug ("retry" ∷ []) []

info_dropped :
    ns_log (set_log_level loglevel_info) "ClientServerChannel" log_info ("retry" ∷ []) [] ≡ []
unfolding ns_log set_log_level is_log_enabled
info_dropped = refl
