-- ===== src/App/Loading/Tests.antt =====
-- A library whose module cannot be made.
use garcon.Prelude.{◌≡◌, refl, true, none, some, [], ◌∷◌}
use garcon.Prelude.Expected.{unexpected}
use garcon.Text.{bytes}
use garcon.App.Loading.{
  Library, null_instance, library_opened, library_closed, make_instance, make_dynamic_module,
}

abbrev library_there : Library
library_there = record {
  opens = true;
  dlerror = none;
  has_entrypoint = true;
  descriptor = some (record { abi_version = 3; name = []; has_destroy = true });
  create = λ text. null_instance (some (bytes "no rules"));
}

not_made : make_dynamic_module library_there (bytes "/m/a.so") (bytes "a.so") [] ≡ (
  unexpected (bytes "failed to create module 'a.so': no rules"),
  library_opened ∷ library_closed ∷ [],
)
unfolding make_dynamic_module make_instance
not_made = refl
