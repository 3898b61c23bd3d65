-- ===== src/App/Loading.antt =====
-- dynamic_module.cpp: a library is opened, its module is made, and both are given back. The calls of
-- dlopen and of the library are a parameter.
mod Tests
pub mod Balance
use garcon.Prelude.{
  ℕ, Bool, true, false, not, Option, none, some, List, [], ◌∷◌, ◌++◌, is_empty, ◌==◌, if◌then◌else◌,
}
use garcon.Prelude.Expected.{Expected, expected, unexpected, require, ◌>>=◌, ◌>>◌}
use garcon.Text.{Bytes, bytes}

-- `garcon_module_descriptor`, whose name is empty where it is null, and which may have no `destroy`.
pub record Descriptor : Type 0 where
  pub abi_version : ℕ
  pub name : Bytes
  pub has_destroy : Bool

-- What `create` of the descriptor returns: an instance, or null and perhaps a message.
pub data Created : Type 0 where
  instance_of : ℕ → Created
  null_instance : Option Bytes → Created

-- The library at a path: whether `dlopen` works, whether the entry point is found, what it returns,
-- and `create` on a configuration text; and the text of `dlerror`.
pub record Library : Type 0 where
  pub opens : Bool
  pub dlerror : Option Bytes
  pub has_entrypoint : Bool
  pub descriptor : Option Descriptor
  pub create : Bytes → Created

abbrev pub abi_version_expected : ℕ
abi_version_expected = 3

pub record DynamicModule : Type 0 where
  pub name : Bytes
  pub module_instance : ℕ
  pub has_destroy : Bool

-- What happens to the library and the instance.
pub data Event : Type 0 where
  library_opened library_closed instance_made instance_destroyed : Event

require_dlerror : Bytes → Option Bytes → Bytes
require_dlerror operation none = operation
require_dlerror operation (some detail) = operation ++ (bytes ": " ++ detail)

abbrev or_null : Option Descriptor → Expected Bytes Descriptor
or_null none = unexpected (bytes "module entrypoint returned a null descriptor")
or_null (some d) = expected d

abbrev detail_or : Option Bytes → Bytes
detail_or none = bytes "module create() failed"
detail_or (some detail) = detail

abbrev made : Bytes → Bool → Created → Expected Bytes DynamicModule
made name has_destroy (instance_of i) =
    expected (record { name = name; module_instance = i; has_destroy = has_destroy })
made name has_destroy (null_instance detail) =
    unexpected (bytes "failed to create module '" ++ (name ++ (bytes "': " ++ detail_or detail)))

-- The steps of the constructor behind `dlopen`.
pub make_instance : Library → Bytes → Bytes → Bytes → Expected Bytes DynamicModule
make_instance library library_file filename config_text = do
  require library.has_entrypoint (require_dlerror (bytes "dlsym() failed") library.dlerror)
  descriptor ← or_null library.descriptor
  require (descriptor.abi_version == abi_version_expected)
      (bytes "module ABI mismatch for: " ++ library_file)
  made (if is_empty descriptor.name then filename else descriptor.name) descriptor.has_destroy
      (library.create config_text)

abbrev caught : Expected Bytes DynamicModule → Expected Bytes DynamicModule × List Event
caught (expected m) = (expected m, library_opened ∷ instance_made ∷ [])
caught (unexpected message) = (unexpected message, library_opened ∷ library_closed ∷ [])

-- The constructor, with what it did; its `catch` closes the library that was opened.
pub make_dynamic_module :
    Library → Bytes → Bytes → Bytes → Expected Bytes DynamicModule × List Event
make_dynamic_module library library_file filename config_text =
    if library.opens
    then caught (make_instance library library_file filename config_text)
    else (unexpected (require_dlerror (bytes "dlopen() failed") library.dlerror), [])

-- `~dynamic_module`
pub destroy_dynamic_module : DynamicModule → List Event
destroy_dynamic_module m =
    if m.has_destroy then instance_destroyed ∷ library_closed ∷ [] else library_closed ∷ []
