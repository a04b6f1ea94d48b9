-- ===== src/Pluginhost/Package/Tests.antt =====
-- Runs of the loading of a package.
use moduless.Base.{◌≡◌, refl, [], ◌∷◌, bytes}
use moduless.Pluginhost.Package.{Package, Loaded, loaded, refused, load_package, clean_rooted}
use moduless.Pluginhost.Package.Checked.{IsChecked, load_package-IsChecked}
use moduless.Pluginhost.Package.Sample.{auth_dir, auth_manifest, decode_auth, first_byte}

dots : clean_rooted (bytes "../bin/./auth") ≡ bytes "bin" ∷ bytes "auth" ∷ []
unfolding clean_rooted
dots = refl

abbrev package_or : Package → Loaded Package → Package
package_or p (loaded q) = q
package_or p (refused e) = p

abbrev empty_package : Package
empty_package = record {
  dir = [];
  manifest = auth_manifest;
  binary_path = [];
  checksum = [];
  frontend_dir = [];
  filters = [];
}

abbrev auth_package : Package
auth_package = package_or empty_package (load_package decode_auth first_byte auth_dir)

load_package-IsChecked_example : IsChecked first_byte auth_dir auth_package
unfolding load_package
load_package-IsChecked_example =
    load_package-IsChecked decode_auth first_byte auth_dir auth_package refl
