-- ===== src/Lease/Config.antt =====
-- pkg/lease/config.go.
use valve.Common.{ℤ, pos, leb_ℤ, if◌then◌else◌}

-- `lease_ttl` is a `time.Duration`, in nanoseconds.
pub record Config : Type 0 where
  pub rpm_chunk : ℤ
  pub tpm_chunk : ℤ
  pub itpm_chunk : ℤ
  pub otpm_chunk : ℤ
  pub lease_ttl : ℤ

-- `DefaultConfig`
abbrev pub default_config : Config
default_config = record {
  rpm_chunk = pos 5;
  tpm_chunk = pos 500;
  itpm_chunk = pos 500;
  otpm_chunk = pos 500;
  lease_ttl = pos 2000000000;
}

abbrev or_default : ℤ → ℤ → ℤ
or_default n d = if leb_ℤ n (pos 0) then d else n

-- `normalized`
unfoldable pub normalized : Config → Config
normalized c = record {
  rpm_chunk = or_default c.rpm_chunk (pos 5);
  tpm_chunk = or_default c.tpm_chunk (pos 500);
  itpm_chunk = or_default c.itpm_chunk (pos 500);
  otpm_chunk = or_default c.otpm_chunk (pos 500);
  lease_ttl = or_default c.lease_ttl (pos 2000000000);
}
