-- ===== src/Examples/Loading.antt =====
-- The theorems about versions and the plugin loader, with the ASCII digits alone.
use mellivor_kernel.Prelude.{
  ℕ, ◌-◌, ◌≡◌, ◌↔◌, refl, false, ◌&&◌, none, some, [], ◌∷◌, leb, arith, if◌then◌else◌,
}
use mellivor_kernel.Python.{lit, returned, is_space}
use mellivor_kernel.World.{Call}
use mellivor_kernel.Plugins.Version.{Unicode, codes, parse_version}
use mellivor_kernel.Plugins.Version.RoundTrip.{
  ReadsAscii, digits, print_version, IsShort, parse_version-print,
}
use mellivor_kernel.Plugins.Registry.{Plugin}
use mellivor_kernel.Plugins.Loader.{PluginManifest, is_newer, load}
use mellivor_kernel.Plugins.Loader.Checks.{load_iff}

abbrev ascii : Unicode
ascii = record {
  is_digit = λ c. leb 48 c && leb c 57;
  decimal = λ c. if leb 48 c && leb c 57 then some (c - 48) else none;
}

ascii-ReadsAscii : ReadsAscii ascii
ascii-ReadsAscii d small = ground arith

written : codes "1.22.0" ≡ print_version (1, 22, 0)
unfolding codes digits
written = refl

IsShort-1 : IsShort ascii ascii-ReadsAscii 1
unfolding digits
IsShort-1 = omega arith

IsShort-22 : IsShort ascii ascii-ReadsAscii 22
unfolding digits
IsShort-22 = omega arith

IsShort-0 : IsShort ascii ascii-ReadsAscii 0
unfolding digits
IsShort-0 = omega arith

parse_version-print_example :
    parse_version ascii "1.22.0" (lit "version" ∷ []) ≡ returned (1, 22, 0)
parse_version-print_example =
    parse_version-print ascii ascii-ReadsAscii 1 22 0 "1.22.0" (lit "version" ∷ []) written
      IsShort-1 IsShort-22 IsShort-0

abbrev manifest : PluginManifest
manifest = record {
  id = "p1";
  name = "Notes";
  version = "1.0.0";
  description = "Takes notes.";
  author = "The team";
  capabilities = [];
  minimum_kernel_version = "1.22.0";
}

abbrev notes : Plugin ℕ
notes = record {
  metadata = record {
    id = "p1";
    name = "Notes";
    version = "1.0.0";
    description = "Takes notes.";
    capabilities = [];
  };
  initialize = λ now. (returned tt, now);
  start = λ now. (returned tt, now);
  stop = λ now. (returned tt, now);
  dispose = λ now. (returned tt, now);
}

abbrev factory : Call ℕ (Plugin ℕ)
factory now = (returned notes, now)

running_read : parse_version ascii "2.0.0" (lit "kernel_version" ∷ []) ≡ returned (2, 0, 0)
unfolding parse_version is_space
running_read = refl

required_read :
    parse_version ascii "1.22.0" (lit "PluginManifest.minimum_kernel_version" ∷ [])
    ≡ returned (1, 22, 0)
required_read =
    parse_version-print ascii ascii-ReadsAscii 1 22 0 "1.22.0"
      (lit "PluginManifest.minimum_kernel_version" ∷ []) written IsShort-1 IsShort-22 IsShort-0

load_iff_example : ((load ascii "2.0.0" manifest factory 0).0 ≡ returned notes) ↔ (
    (is_newer (1, 22, 0) (2, 0, 0) ≡ false)
    × (((factory 0).0 ≡ returned notes) × (notes.metadata.id ≡ manifest.id)))
load_iff_example =
    load_iff ascii "2.0.0" manifest factory (1, 22, 0) (2, 0, 0) required_read running_read 0 notes
