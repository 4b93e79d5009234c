-- ===== src/Tests/Matching.antt =====
-- The regular expressions and the tests, at concrete paths and names.
use discovery_self.Base.{Text, codes, ◌≡◌, true, ◌↔◌}
use discovery_self.Regex.{Matches, Found}
use discovery_self.Service.{is_network_request, is_control_request}
use discovery_self.Service.Matching.{network_request_regex, control_request_regex}
use discovery_self.Service.Matching.Network.{is_network_request_iff}
use discovery_self.Service.Matching.Control.{is_control_request_iff}
use discovery_self.Discovery.{is_network_service}
use discovery_self.Discovery.Matching.{network_service_regex, is_network_service_iff}

abbrev network_path : Text
network_path = codes "/network/chat/12345"

abbrev control_path : Text
control_path = codes "/x/control/local/chat/12345/y"

abbrev copy_name : Text
copy_name = codes "chat[12] (2)"

is_network_request_iff_example :
    (is_network_request network_path ≡ true) ↔ Matches network_request_regex network_path
is_network_request_iff_example = is_network_request_iff network_path

is_control_request_iff_example :
    (is_control_request control_path ≡ true) ↔ Found control_request_regex control_path
is_control_request_iff_example = is_control_request_iff control_path

is_network_service_iff_example :
    (is_network_service copy_name ≡ true) ↔ Matches network_service_regex copy_name
is_network_service_iff_example = is_network_service_iff copy_name
