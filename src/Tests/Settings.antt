-- ===== src/Tests/Settings.antt =====
-- The theorems on the configuration at concrete files.
use local_dns.Base.{◌*◌, ◌≡◌, refl, [], ◌∷◌, true, false, ok}
use local_dns.Base.Int.{pos}
use local_dns.Base.Scan.{Reading}
use local_dns.Base.Text.{
  codes, has_prefix, join, lower, split, to_lower, trim, trim_left, trim_right, trim_space,
}
use local_dns.Net.V4.{parse_fields}
use local_dns.Names.{check_label, check_labels}
use local_dns.Config.Validate.{load}
use local_dns.Config.State.{Config, default, second, holds}
use local_dns.Config.Valid.{IsConfig, load-IsConfig}

-- A file with a comment, a blank line, and settings of several kinds.
abbrev pub home_file : Reading
home_file = record {
  text = join 10 (
      codes "# the house"
      ∷ codes " Domain : LAN. "
      ∷ []
      ∷ codes "ttl: 60"
      ∷ codes "upstreams: 9.9.9.9, , ::1"
      ∷ codes "scan_interval: 1m30s"
      ∷ codes "scan_cidr: 192.168.1.0/24"
      ∷ codes "disable_sweep: Yes"
      ∷ []);
  broken = false;
}

abbrev pub home_config : Config
home_config = record default {
  domain = codes "lan";
  ttl = 60;
  upstreams = codes "9.9.9.9:53" ∷ codes "[::1]:53" ∷ [];
  scan_interval = pos (90 * second);
  scan_cidr = codes "192.168.1.0/24";
  disable_sweep = true;
}

pub load-home : load (holds home_file) ≡ ok (home_config, true)
unfolding load join split trim to_lower trim_space lower check_labels check_label trim_left
    trim_right has_prefix parse_fields
load-home = refl

load-IsConfig_example : IsConfig home_config
load-IsConfig_example = load-IsConfig (holds home_file) home_config true load-home
