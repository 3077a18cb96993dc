-- ===== src/Witnesses/Versions.antt =====
-- The theorem on versions, applied to two of them.
use ninerlog_api.Base.{◌≡◌, [], arith}
use ninerlog_api.Base.Text.{codes}
use ninerlog_api.Duration.{atoi}
use ninerlog_api.UpdateCheck.{Version, split_dots, compare_versions}
use ninerlog_api.UpdateCheck.Antisymmetry.{flip, flip-compare_versions}

abbrev candidate : Version
candidate = record { major = 1; minor = 4; patch = 0; prerelease = codes "rc.2" }

abbrev release : Version
release = record { major = 1; minor = 4; patch = 0; prerelease = [] }

flip-compare_versions_example :
    flip (compare_versions candidate release) ≡ compare_versions release candidate
unfolding split_dots atoi
flip-compare_versions_example =
    flip-compare_versions candidate release (tt, ((omega arith, omega arith), tt)) (tt, tt)
