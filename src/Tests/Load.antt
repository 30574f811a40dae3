-- ===== src/Tests/Load.antt =====
-- A configuration that loadConfig of cmd/main.go returns.
use aerosmart_gateway.Base.{◌≡◌, refl, codes}
use aerosmart_gateway.Base.Int.{pos, int64, ◌*ℤ◌}
use aerosmart_gateway.Config.App
use aerosmart_gateway.Config.App.{AppConfig, apply_defaults}
use aerosmart_gateway.Config.App.Valid
use aerosmart_gateway.Cmd.Load.{with_version, ms_duration}
use aerosmart_gateway.Config.Types.{Registers}
use aerosmart_gateway.Tests.Config.{minimal}

abbrev settings : AppConfig
unfolding with_version apply_defaults
settings = with_version (codes "1.0") (apply_defaults minimal)

-- Two seconds
two_seconds : ms_duration (pos 2_000) ≡ pos 2_000_000_000
unfolding ms_duration int64 ◌*ℤ◌
two_seconds = refl
