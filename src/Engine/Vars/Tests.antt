-- ===== src/Engine/Vars/Tests.antt =====
-- A port set negated.
use cyber_sentinel_ids_ips.Prelude.{◌≡◌, refl, false, true, not, [], ◌∷◌, ok}
use cyber_sentinel_ids_ips.Engine.Vars.{PortSet, contains, in_range, negate, negate_exact}

abbrev web_ports : PortSet
web_ports = record { everything_else = false; include = (80, 80) ∷ (8000, 8999) ∷ []; exclude = [] }

abbrev other_ports : PortSet
other_ports = record { everything_else = true; include = []; exclude = web_ports.include }

negates : negate web_ports ≡ ok other_ports
unfolding negate
negates = refl

negate_exact_example : contains in_range other_ports 8080 ≡ not (contains in_range web_ports 8080)
negate_exact_example = negate_exact in_range web_ports other_ports 8080 negates
