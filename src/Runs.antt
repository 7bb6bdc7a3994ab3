-- ===== src/Runs.antt =====
-- Concrete runs of the model and the theorems at concrete inputs. This file has the parameters that
-- they share.
pub mod MinecraftRuns
pub mod NatRuns
pub mod RegistrationRuns
pub mod ChainRuns
pub mod RouterRuns
pub mod FailoverRuns
pub mod HttpService
pub mod CloudflareRuns
pub mod ConfigRuns
pub mod AssignmentRuns
pub mod Tables
pub mod BanRuns
pub mod Iptables
pub mod WatcherRuns
pub mod StartRuns
pub mod ServingRuns
pub mod ForwarderRuns
pub mod ServiceRuns
use sidero_proxy.Base.{
  ℕ, ◌≡◌, refl, none, some, Bytes, codes, Unicode, Ip, Ipv6, ok, Result, List, [], ◌∷◌, ◌++◌, true,
  false, err, if◌then◌else◌, bytes_eq, Bool, Option, Action, contains,
}

-- No text beyond ASCII occurs in the runs, and a text is quoted as it is.
abbrev pub plain_unicode : Unicode
plain_unicode = record {
  to_lower_utf8 = λ s. s;
  trim_utf8 = λ s. s;
  trim_right_utf8 = λ s. s;
  fields_utf8 = λ s. s ∷ [];
  quote = λ s. codes "\"" ++ (s ++ codes "\"");
}

abbrev pub no_ipv6 : Ipv6
no_ipv6 = record { parse = λ s. none; print = λ b. b; parse_prefix = λ a m. none }
