-- ===== src/Tests/Directories.antt =====
-- The capture of the configuration directory of the test site.
use mongodb_backup_s.Base.{
  ◌≡◌, refl, Bool, true, false, List, [], ◌∷◌, Bytes, codes, Result, ok, err,
}
use mongodb_backup_s.Databases.{contains}
use mongodb_backup_s.Bundle.Write.{Builder, empty, add_reading}
use mongodb_backup_s.Bundle.Configured.{IsConfigured, capture_config-IsConfigured}
use mongodb_backup_s.Capture.Directory.{capture_config}
use mongodb_backup_s.Capture.Captured.{walk_state}
use mongodb_backup_s.Capture.Stable.{IsStable, capture_config-IsStable}
use mongodb_backup_s.Tests.Json.{test_formats}
use mongodb_backup_s.Tests.Site.{test_world, test_site}

abbrev taken : Result Builder
taken =
    (capture_config test_world test_formats.sha256 (codes "/c")
      (add_reading test_world test_formats) empty test_site).0

abbrev builder_of : Result Builder → Builder
builder_of (ok b) = b
builder_of (err e) = empty

taken-ok : taken ≡ ok (builder_of taken)
unfolding capture_config mongodb_backup_s.World.◌>>◌ mongodb_backup_s.World.check_ctx
    mongodb_backup_s.World.lift mongodb_backup_s.Capture.is_regular add_reading
    mongodb_backup_s.Base.cut_prefix mongodb_backup_s.Tests.Json.checksum
taken-ok = refl

capture_config-IsStable_example :
    IsStable test_world test_formats.sha256
      (add_reading test_world test_formats)
      (walk_state test_world (codes "/c") test_site)
      empty
      (builder_of taken)
unfolding contains
capture_config-IsStable_example =
    capture_config-IsStable test_world test_formats.sha256 (add_reading test_world test_formats)
      (λ s fine. (refl, (refl, tt))) (codes "/c") empty test_site (builder_of taken) refl taken-ok

capture_config-IsConfigured_example :
    IsConfigured test_world test_formats
      (walk_state test_world (codes "/c") test_site)
      empty
      (builder_of taken)
unfolding contains
capture_config-IsConfigured_example =
    capture_config-IsConfigured test_world test_formats (λ s fine. (refl, (refl, tt))) (codes "/c")
      empty test_site (builder_of taken) refl taken-ok
