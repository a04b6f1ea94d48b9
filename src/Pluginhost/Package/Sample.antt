-- ===== src/Pluginhost/Package/Sample.antt =====
-- A plugin package for the runs: its manifest, its directory, and a decoder that knows that manifest.
use moduless.Base.{true, false, Option, some, [], ◌∷◌, Bytes, bytes, pos}
use moduless.Manifest.Filters.{FilterDecl}
use moduless.Manifest.Menus.{Menus}
use moduless.Manifest.Plugin.{Manifest, filter_authenticate}
use moduless.Pluginhost.Package.{Directory, Entry}

abbrev pub guard : FilterDecl
guard = record {
  name = bytes "guard";
  phase = bytes "authenticate";
  match = record { paths = bytes "/**" ∷ []; methods = [] };
  order = pos 1;
  fail_closed = true;
  timeout_ms = pos 0;
  needs_request_body = false;
  needs_response_body = false;
  max_body_bytes = pos 0;
}

abbrev pub auth_manifest : Manifest
auth_manifest = record {
  key = bytes "auth";
  display_name = bytes "Auth";
  version = bytes "1.0";
  weight = pos 1;
  runtime = record { entrypoint = bytes "../bin/./auth"; args = []; replicas = pos 2 };
  permissions = filter_authenticate ∷ [];
  menus = Menus.nil;
  collections = [];
  filters = guard ∷ [];
  jobs = [];
  egress_allow = [];
  config = [];
}

-- Every byte string decodes to it.
abbrev pub decode_auth : Bytes → Option Manifest
decode_auth data_bytes = some auth_manifest

-- In place of SHA-256.
abbrev pub first_byte : Bytes → Bytes
first_byte [] = []
first_byte (c ∷ s) = c ∷ []

abbrev pub auth_dir : Directory
auth_dir = record {
  dir = bytes "/plugins/auth";
  manifest_size = some 100;
  manifest_data = some (bytes "key: auth");
  stat = λ path. some (record { is_dir = false; is_executable = true });
  read = λ path. some (bytes "elf");
}

abbrev pub auth_entry : Entry
auth_entry = record { name = bytes "auth"; is_dir = true; has_manifest = true; content = auth_dir }
