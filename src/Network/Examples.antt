-- ===== src/Network/Examples.antt =====
-- `Enabled` at small lists.
use avahi_manager.Prelude.{trim_space, ◌≡◌, refl, ◌≢◌, [], ◌∷◌, codes}
use avahi_manager.Network.{enabled, Decides, enabled-Decides}

trim_run : trim_space (codes " eth0 ") ≡ codes "eth0"
unfolding trim_space
trim_run = refl

named : codes "eth0" ≢ []
named h = cc

enabled-Decides_example :
    Decides (codes "eth0") (codes " eth0" ∷ []) [] (enabled (codes "eth0") (codes " eth0" ∷ []) [])
enabled-Decides_example = enabled-Decides (codes "eth0") (codes " eth0" ∷ []) [] named
