-- ===== src/Pluginhost/Instance/Tests.antt =====
-- Runs of an instance.
use moduless.Base.{◌≡◌, refl, true, List, [], ◌∷◌, negsuc, bytes, arith}
use moduless.Pluginhost.Instance.{Instance, new_instance}
use moduless.Pluginhost.Instance.Race.{Action, request, drain_on, run, start, drained}
use moduless.Pluginhost.Instance.Drained.{IsQuiet, drain_spares}

abbrev launched : Instance
launched = new_instance (bytes "p") (bytes "p-1") (bytes "1.0") (negsuc 0)

-- The drain begins between the two tests of the second request, and the first one is served to its
-- end.
abbrev race : List Action
race =
    request 0
    ∷ request 0
    ∷ request 0
    ∷ request 1
    ∷ drain_on
    ∷ request 1
    ∷ drain_on
    ∷ request 1
    ∷ request 1
    ∷ request 0
    ∷ request 0
    ∷ drain_on
    ∷ drain_on
    ∷ drain_on
    ∷ drain_on
    ∷ []

ends_drained : (run race (start launched 2)).drain ≡ drained true
unfolding run
ends_drained = refl

drain_spares_example : IsQuiet (run race (start launched 2)).requests
unfolding run
drain_spares_example = drain_spares launched 2 race (omega arith) refl
